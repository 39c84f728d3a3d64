-- ===== src/Json/Codes.antt =====
-- The result codes of include/KFCJSONCodec.h, and the strings of C.
use kfcrash.Prelude.{ℕ, Bytes, [], ◌∷◌, ◌==◌, if◌then◌else◌, take}

abbrev pub json_ok : ℕ
json_ok = 0

abbrev pub invalid_character : ℕ
invalid_character = 1

abbrev pub data_too_long : ℕ
data_too_long = 2

abbrev pub cannot_add_data : ℕ
cannot_add_data = 3

abbrev pub incomplete : ℕ
incomplete = 4

abbrev pub invalid_data : ℕ
invalid_data = 5

-- What a reader of a `char *` sees: the bytes before the first NUL.
abbrev pub c_string : Bytes → Bytes
c_string [] = []
c_string (c ∷ rest) = if c == 0 then [] else c ∷ c_string rest

-- A `length` argument: `KSJSON_SIZE_AUTOMATIC`, or so many bytes.
pub data StringLength : Type 0 where
  automatic : StringLength
  exactly : ℕ → StringLength

abbrev pub measured : Bytes → StringLength → Bytes
measured value automatic = c_string value
measured value (exactly n) = take n value

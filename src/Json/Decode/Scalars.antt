-- ===== src/Json/Decode/Scalars.antt =====
-- The numbers and the words of the JSON decoder, `decodeElement` of KFCJSONCodec.c.
pub mod Lengths
use kfcrash.Prelude.{
  ℕ, zero, suc, ◌+◌, ◌-◌, ◌*◌, ◌/◌, ◌^◌, Bool, true, false, not, ◌&&◌, ◌||◌, [], ◌∷◌, ltb, leb,
  ◌==◌, if◌then◌else◌, Bytes, length, take, drop,
}
use kfcrash.Prelude.Int.{ℤ, pos, negsuc}
use kfcrash.Json.Codes.{invalid_character, data_too_long, incomplete}
use kfcrash.Json.Number.{FloatOps}

-- What a scalar of the text stands for.
pub data Scalar (F : Type 0) : Type 0 where
  boolean : Bool → Scalar F
  null : Scalar F
  integer : ℤ → Scalar F
  unsigned_integer : ℕ → Scalar F
  floating_point : F → Scalar F
  text : Bytes → Scalar F

abbrev pub is_digit : ℕ → Bool
is_digit c = leb b'0' c && leb c b'9'

-- `isspace` in the C locale
abbrev pub is_space : ℕ → Bool
is_space c = (leb 9 c && leb c 13) || c == b' '

abbrev pub is_fp_char : ℕ → Bool
is_fp_char c = is_digit c || c == b'.' || c == b'e' || c == b'E' || c == b'+' || c == b'-'

unfoldable pub skip_whitespace : Bytes → Bytes
skip_whitespace [] = []
skip_whitespace (c ∷ rest) = if is_space c then skip_whitespace rest else c ∷ rest

unfoldable pub skip_fp_chars : Bytes → Bytes
skip_fp_chars [] = []
skip_fp_chars (c ∷ rest) = if is_fp_char c then skip_fp_chars rest else c ∷ rest

-- The value so far, whether the loop left by an overflow, and what is left of the text.
pub record Digits : Type 0 where
  pub accum : ℕ
  pub is_overflow : Bool
  pub left : Bytes

abbrev pub ullong_max : ℕ
ullong_max = 2 ^ 64 - 1

abbrev pub llong_max : ℕ
llong_max = 2 ^ 63 - 1

unfoldable pub read_digits : ℕ → Bytes → Digits
read_digits accum [] = record { accum = accum; is_overflow = false; left = [] }
read_digits accum (c ∷ rest) =
    let next = accum * 10 in
    let digit = c - b'0' in
    let more = read_digits (next + digit) rest in
    if not (is_digit c)
    then record { accum = accum; is_overflow = false; left = c ∷ rest }
    else if ltb (ullong_max / 10) accum
    then record { accum = accum; is_overflow = true; left = c ∷ rest }
    else if ltb (ullong_max - digit) next
    then record { accum = next; is_overflow = true; left = c ∷ rest }
    else more

-- A scalar with what follows it, or a result code.
pub data Token (F : Type 0) : Type 0 where
  token : Scalar F → Bytes → Token F
  rejected : ℕ → Token F

abbrev pub minus : ℕ → ℤ
minus zero = pos 0
minus (suc n) = negsuc n

module _ {F : Type 0} (ops : FloatOps F) (string_buffer_length : ℕ) where
  -- The text from `start` up to `left`, read as a `double`.
  unfoldable pub read_double : Bool → Bytes → Bytes → Token F
  read_double negative start [] = rejected incomplete
  read_double negative start (c ∷ left) =
      let len = length start - length (c ∷ left) in
      let v = ops.scan (take len start) in
      if leb string_buffer_length len
      then rejected data_too_long
      else token (floating_point (if negative then ops.negate v else v)) (c ∷ left)

  -- Behind the digits: an integer if it ends there and fits, a `double` if not.
  unfoldable pub after_digits : Bool → Bytes → Bool → ℕ → Bytes → Token F
  unfolding skip_fp_chars read_double
  after_digits negative start overflow accum [] = rejected incomplete
  after_digits negative start overflow accum (c ∷ left) =
      let double = read_double negative start (skip_fp_chars (c ∷ left)) in
      if not (is_fp_char c) && not overflow
      then if not negative
        then if leb accum llong_max
          then token (integer (pos accum)) (c ∷ left)
          else token (unsigned_integer accum) (c ∷ left)
        else if leb accum (llong_max + 1)
        then token (integer (minus accum)) (c ∷ left)
        else double
      else double

  unfoldable pub read_number : Bool → Bytes → Token F
  unfolding read_digits after_digits
  read_number negative start =
      let d = read_digits 0 start in after_digits negative start d.is_overflow d.accum d.left

  -- Behind a minus sign. At the end of the data it is the byte there that is tested.
  unfoldable pub read_negative : ℕ → Bytes → Token F
  unfolding read_number
  read_negative beyond [] =
      if is_digit beyond then read_number true [] else rejected invalid_character
  read_negative beyond (c ∷ rest) =
      if is_digit c then read_number true (c ∷ rest) else rejected invalid_character

unfoldable pub is_prefix : Bytes → Bytes → Bool
is_prefix [] s = true
is_prefix (c ∷ w) [] = false
is_prefix (c ∷ w) (d ∷ s) = d == c && is_prefix w s

-- The letters behind the first one of `false`, `true` or `null`.
unfoldable pub read_word : {F : Type 0} → Bytes → Scalar F → Bytes → Token F
unfolding is_prefix
read_word word scalar rest =
    if ltb (length rest) (length word)
    then rejected incomplete
    else if is_prefix word rest
    then token scalar (drop (length word) rest)
    else rejected invalid_character

-- ===== src/Json/Number.antt =====
-- Numbers as text: `formatDouble`, `formatInt64` and `formatUint64` of KFCJSONCodec.c. What the C
-- library does with a `double` is a parameter, since the language here has no floats.
pub mod Decimal
use kfcrash.Prelude.{
  ℕ, zero, suc, ◌+◌, ◌-◌, ◌/◌, ◌%◌, Bool, true, false, not, ◌&&◌, ◌||◌, [], ◌∷◌, ◌++◌, ltb, leb,
  ◌==◌, if◌then◌else◌, Bytes, codes, length,
}
use kfcrash.Prelude.Int.{ℤ, pos, negsuc}
use kfcrash.Json.Codes.{json_ok, data_too_long}

-- The C library's tests, printing and scanning of a `double`.
pub record FloatOps (F : Type 0) : Type 0 where
  pub is_nan : F → Bool
  pub is_inf : F → Bool
  pub is_positive : F → Bool
  -- `fabs(value - (float)value) <= FLT_EPSILON * fabs(value)`
  pub near_single : F → Bool
  -- `"%.*g"` with `FLT_DIG` and with `DBL_DIG`, and `"%.1f"`
  pub print_single : F → Bytes
  pub print_double : F → Bytes
  pub print_tenths : F → Bytes
  -- `sscanf` with `"%lg"`, and `value *= sign`
  pub scan : Bytes → F
  pub negate : F → F

-- `"%" PRIu64`: at most as many digits as the fuel. Twenty do for 64 bits.
unfoldable pub print_digits : ℕ → ℕ → Bytes
print_digits zero n = []
print_digits (suc f) n =
    let more = print_digits f (n / 10) ++ ((b'0' + n % 10) ∷ []) in
    if ltb n 10 then (b'0' + n) ∷ [] else more

unfoldable pub print_u64 : ℕ → Bytes
unfolding print_digits
print_u64 n = print_digits 20 n

unfoldable pub print_i64 : ℤ → Bytes
unfolding print_u64
print_i64 (pos n) = print_u64 n
print_i64 (negsuc n) = b'-' ∷ print_u64 (suc n)

-- `checkWriteResult` on what `snprintf` wrote, with the text in the buffer.
unfoldable pub check_write_result : Bytes → ℕ → ℕ × Bytes
check_write_result text buff_size =
    if leb buff_size (length text) then (data_too_long, []) else (json_ok, text)

unfoldable pub format_u64 : ℕ → ℕ × Bytes
unfolding print_u64 check_write_result
format_u64 n = check_write_result (print_u64 n) 21

unfoldable pub format_i64 : ℤ → ℕ × Bytes
unfolding print_i64 check_write_result
format_i64 v = check_write_result (print_i64 v) 21

-- `strchr(buff, c) != NULL`
has_byte : ℕ → Bytes → Bool
has_byte c [] = false
has_byte c (b ∷ rest) = b == c || has_byte c rest

is_empty : Bytes → Bool
is_empty [] = true
is_empty (c ∷ rest) = false

pub strip_zeros : Bytes → Bytes
unfolding is_empty
strip_zeros [] = []
strip_zeros (c ∷ rest) =
    let rest' = strip_zeros rest in if c == b'0' && is_empty rest' then [] else c ∷ rest'

-- The `while` that takes zeros off behind the dot, and puts one back if none is left.
pub trim_fraction : Bytes → Bytes
unfolding strip_zeros
trim_fraction [] = []
trim_fraction (c ∷ rest) =
    let digits = strip_zeros rest in
    let trimmed = c ∷ (if is_empty digits then b'0' ∷ [] else digits) in
    if c == b'.' then trimmed else c ∷ trim_fraction rest

module _ {F : Type 0} (ops : FloatOps F) where
  -- The text of a finite value before its result is checked.
  finite_text : ℕ → F → Bytes
  unfolding has_byte trim_fraction
  finite_text buff_size v =
      let text = if ops.near_single v then ops.print_single v else ops.print_double v in
      let dot = has_byte b'.' text in
      let exponent = has_byte b'e' text in
      if ltb 0 (length text) && ltb (length text) buff_size
      then if not dot && not exponent
        then ops.print_tenths v
        else if dot && not exponent
        then trim_fraction text
        else text
      else text

  unfoldable pub format_double : ℕ → F → ℕ × Bytes
  unfolding finite_text check_write_result
  format_double buff_size v =
      check_write_result
        (if ops.is_nan v
          then codes "null"
          else if ops.is_inf v
          then if ops.is_positive v then codes "1e999" else codes "-1e999"
          else finite_text buff_size v)
        buff_size

-- ===== src/Json/Number/Decimal.antt =====
-- Decimal text of 64-bit numbers: its length, its digits, and the value that they read back to.
use kfcrash.Prelude.{
  ℕ, zero, suc, ◌+◌, ◌/◌, ◌%◌, ◌^◌, ◌≤◌, ◌<◌, ◌≡◌, inl, inr, true, false, [], ◌∷◌, arith, ltb, leb,
  Bool-cases, Bytes, length, length-append,
}
use native.Mathlib.Nat.{pow-suc}
use kfcrash.Prelude.Int.{ℤ, pos, negsuc}
use kfcrash.Json.Codes.{json_ok}
use kfcrash.Json.Number.{
  print_digits, print_u64, print_i64, check_write_result, format_u64, format_i64,
}

length-print_digits : (f n : ℕ) → length (print_digits f n) ≤ f
unfolding print_digits
length-print_digits zero n = omega arith
length-print_digits (suc f) n = ground (
  arith,
  length-print_digits f (n / 10),
  length-append (print_digits f (n / 10)) ((b'0' + n % 10) ∷ []),
)

length-print_u64 : (n : ℕ) → length (print_u64 n) ≤ 20
unfolding print_u64
length-print_u64 n = length-print_digits 20 n

-- A number below 10 ^ (k + 1) takes at most k + 1 digits.
print_digits_bound : (k f n : ℕ) → n < 10 ^ suc k → length (print_digits f n) ≤ suc k
unfolding print_digits
print_digits_bound k zero n h = omega arith
print_digits_bound zero (suc f) n h =
    let one : ltb n 10 ≡ true = ground arith in rw (one, print_digits) (omega arith)
print_digits_bound (suc k) (suc f) n h = elim (Bool-cases (ltb n 10)) [
  | inl one ↦ rw (one, print_digits) (omega arith)
  | inr more ↦
      rw (more, print_digits)
        (omega (
          arith,
          print_digits_bound k f (n / 10) (omega (arith, pow-suc 10 (suc k))),
          length-append (print_digits f (n / 10)) ((b'0' + n % 10) ∷ []),
        ))
]

check_write_result_fits :
    (text : Bytes) (n : ℕ) → length text < n → check_write_result text n ≡ (json_ok, text)
unfolding check_write_result
check_write_result_fits text n h =
    let small : leb n (length text) ≡ false = ground arith in rw small

-- The values of an `int64_t`.
abbrev pub IsInt64 : ℤ → Type 0
IsInt64 (pos n) = n < 2 ^ 63
IsInt64 (negsuc n) = n < 2 ^ 63

-- Every `int64_t` that is printed fits its buffer of 21 bytes, sign included.
pub format_i64_fits : (v : ℤ) → IsInt64 v → format_i64 v ≡ (json_ok, print_i64 v)
unfolding format_i64 print_i64
format_i64_fits (pos n) h =
    check_write_result_fits (print_u64 n) 21 (omega (arith, length-print_u64 n))
format_i64_fits (negsuc n) h =
    check_write_result_fits (b'-' ∷ print_u64 (suc n)) 21 (omega (arith, magnitude))
  where
    magnitude : length (print_u64 (suc n)) ≤ 19
    magnitude = print_digits_bound 18 20 (suc n) (omega arith)

pub format_u64_fits : (n : ℕ) → format_u64 n ≡ (json_ok, print_u64 n)
unfolding format_u64
format_u64_fits n = check_write_result_fits (print_u64 n) 21 (omega (arith, length-print_u64 n))

-- ===== src/Json/Decode/Reading/Numbers.antt =====
-- Numbers read back: `decodeElement` of KFCJSONCodec.c on what `formatInt64`, `formatUint64` and
-- `formatDouble` print.
use kfcrash.Prelude.{
  ℕ, zero, suc, ◌+◌, ◌*◌, ◌/◌, ◌%◌, ◌^◌, ◌≤◌, ◌<◌, ◌≡◌, refl, sym, ap, subst, ◌∙◌, inl, inr, Bool,
  true, false, not, [], ◌∷◌, ◌++◌, append_assoc, arith, ltb, leb, if◌then◌else◌, Bool-cases,
  if-true, if-false, Bytes,
}
use native.Mathlib.Nat.{pow-suc}
use kfcrash.Prelude.Int.{pos, negsuc}
use kfcrash.Json.Number.{FloatOps, print_digits, print_u64}
use kfcrash.Json.Decode.Scalars.{
  integer, unsigned_integer, read_digits, ullong_max, llong_max, token, is_digit, is_fp_char,
  after_digits, read_number, read_negative,
}

-- What follows a number: a byte that cannot belong to it.
abbrev pub breaks : Bytes → Bool
breaks [] = false
breaks (c ∷ rest) = not (is_fp_char c)

read_digits_step :
    (accum v : ℕ) (s : Bytes)
    → v < 10
    → accum * 10 + v ≤ ullong_max
    → read_digits accum ((b'0' + v) ∷ s) ≡ read_digits (accum * 10 + v) s
unfolding read_digits
read_digits_step accum v s d h = ground arith

read_digits_print :
    (f n : ℕ) (s : Bytes)
    → n < 10 ^ f
    → n ≤ ullong_max
    → read_digits 0 (print_digits f n ++ s) ≡ read_digits n s
unfolding print_digits
read_digits_print zero n s h m = ap (λ k. read_digits k s) (omega arith)
read_digits_print (suc f) n s h m =
    let last = b'0' + n % 10 in
    let more = print_digits f (n / 10) in
    let Reads = λ (t : Bytes). read_digits 0 (t ++ s) ≡ read_digits n s in
    elim (Bool-cases (ltb n 10)) [
      | inl one ↦ if-true Reads ((b'0' + n) ∷ []) (more ++ (last ∷ [])) one (
          read_digits_step 0 n s (ground (arith, one)) (omega arith)
          ∙ ap (λ k. read_digits k s) (omega arith))
      | inr several ↦ if-false Reads ((b'0' + n) ∷ []) (more ++ (last ∷ [])) several (
          ap (read_digits 0) (append_assoc more (last ∷ []) s)
          ∙ read_digits_print f (n / 10) (last ∷ s) (omega (arith, pow-suc 10 f)) (omega arith)
          ∙ read_digits_step (n / 10) (n % 10) s (omega arith) (omega arith)
          ∙ ap (λ k. read_digits k s) (omega arith))
    ]

read_digits_end :
    (accum c : ℕ) (rest : Bytes)
    → is_digit c ≡ false
    → read_digits accum (c ∷ rest) ≡ record { accum = accum; is_overflow = false; left = c ∷ rest }
unfolding read_digits
read_digits_end accum c rest h = ground arith

-- What `print_u64` prints starts with a digit.
abbrev pub StartsWithDigit : Bytes → Type 0
StartsWithDigit t = (d : ℕ) × (s : Bytes) × (t ≡ d ∷ s) × (is_digit d ≡ true)

first_digit :
    (f n : ℕ) (s : Bytes)
    → (n < 10 → StartsWithDigit ((b'0' + n) ∷ s))
    → (10 ≤ n → StartsWithDigit ((print_digits f (n / 10) ++ ((b'0' + n % 10) ∷ [])) ++ s))
    → StartsWithDigit (print_digits (suc f) n ++ s)
unfolding print_digits
first_digit f n s small large =
    let last = b'0' + n % 10 in
    let more = print_digits f (n / 10) in
    let Starts = λ (t : Bytes). StartsWithDigit (t ++ s) in
    elim (Bool-cases (ltb n 10)) [
      | inl one ↦
          if-true Starts ((b'0' + n) ∷ []) (more ++ (last ∷ [])) one (small (ground (arith, one)))
      | inr several ↦
          if-false Starts ((b'0' + n) ∷ []) (more ++ (last ∷ [])) several
            (large (ground (arith, several)))
    ]

is_digit_small : (n : ℕ) → n < 10 → is_digit (b'0' + n) ≡ true
is_digit_small n h = ground arith

print_digits-StartsWithDigit :
    (f n : ℕ) (s : Bytes) → n < 10 ^ suc f → StartsWithDigit (print_digits (suc f) n ++ s)
print_digits-StartsWithDigit zero n s h =
    first_digit zero n s (λ one. (b'0' + n, s, refl, is_digit_small n one))
      (λ several. absurd (omega arith))
print_digits-StartsWithDigit (suc f) n s h =
    let last = b'0' + n % 10 in
    first_digit (suc f) n s (λ one. (b'0' + n, s, refl, is_digit_small n one))
      (λ several.
        subst StartsWithDigit (sym (append_assoc (print_digits (suc f) (n / 10)) (last ∷ []) s))
          (print_digits-StartsWithDigit f (n / 10) (last ∷ s) (omega (arith, pow-suc 10 (suc f)))))

pub print_u64-StartsWithDigit :
    (n : ℕ) (s : Bytes) → n ≤ ullong_max → StartsWithDigit (print_u64 n ++ s)
unfolding print_u64
print_u64-StartsWithDigit n s h = print_digits-StartsWithDigit 19 n s (omega arith)

module _ {F : Type 0} (ops : FloatOps F) (string_buffer_length : ℕ) where
  after_digits-unsigned :
      (start : Bytes) (n c : ℕ) (rest : Bytes)
      → is_fp_char c ≡ false
      → after_digits ops string_buffer_length false start false n (c ∷ rest)
        ≡ token (if leb n llong_max then integer (pos n) else unsigned_integer n) (c ∷ rest)
  unfolding after_digits
  after_digits-unsigned start n c rest h = ground (arith, h)

  after_digits-negative :
      (start : Bytes) (n c : ℕ) (rest : Bytes)
      → is_fp_char c ≡ false
      → n < 2 ^ 63
      → after_digits ops string_buffer_length true start false (suc n) (c ∷ rest)
        ≡ token (integer (negsuc n)) (c ∷ rest)
  unfolding after_digits
  after_digits-negative start n c rest h l = ground (arith, h)

  pub read_number-print :
      (negative : Bool) (n c : ℕ) (rest : Bytes)
      → n ≤ ullong_max
      → is_fp_char c ≡ false
      → let text = print_u64 n ++ (c ∷ rest) in
        read_number ops string_buffer_length negative text
        ≡ after_digits ops string_buffer_length negative text false n (c ∷ rest)
  unfolding read_number print_u64
  read_number-print negative n c rest l h =
      let text = print_u64 n ++ (c ∷ rest) in
      ap (λ d. after_digits ops string_buffer_length negative text d.is_overflow d.accum d.left)
        (read_digits_print 20 n (c ∷ rest) (omega arith) l
          ∙ read_digits_end n c rest (ground (arith, h)))

  -- A number that fits 64 bits is read back as such, and as a signed one if it fits that.
  pub read_unsigned :
      (n : ℕ) (rest : Bytes)
      → n ≤ ullong_max
      → breaks rest ≡ true
      → read_number ops string_buffer_length false (print_u64 n ++ rest)
        ≡ token (if leb n llong_max then integer (pos n) else unsigned_integer n) rest
  read_unsigned n [] l h = absurd (cc)
  read_unsigned n (c ∷ rest) l h =
      read_number-print false n c rest l (ground (arith, h))
      ∙ after_digits-unsigned (print_u64 n ++ (c ∷ rest)) n c rest (ground (arith, h))

  pub read_negative-digit :
      (beyond : ℕ) (t : Bytes)
      → StartsWithDigit t
      → read_negative ops string_buffer_length beyond t
        ≡ read_number ops string_buffer_length true t
  unfolding read_negative
  read_negative-digit beyond [] (d, s, e, digit) = absurd (cc)
  read_negative-digit beyond (c ∷ rest) (d, s, e, digit) =
      if-true (λ t. t ≡ read_number ops string_buffer_length true (c ∷ rest)) {b = is_digit c} _ _
        (ground (arith, e, digit)) refl

  pub read_negative-print :
      (beyond n : ℕ) (rest : Bytes)
      → n < 2 ^ 63
      → breaks rest ≡ true
      → read_negative ops string_buffer_length beyond (print_u64 (suc n) ++ rest)
        ≡ token (integer (negsuc n)) rest
  read_negative-print beyond n [] l h = absurd (cc)
  read_negative-print beyond n (c ∷ rest) l h =
      read_negative-digit beyond _ (print_u64-StartsWithDigit (suc n) (c ∷ rest) (omega arith))
      ∙ read_number-print true (suc n) c rest (omega arith) (ground (arith, h))
      ∙ after_digits-negative (print_u64 (suc n) ++ (c ∷ rest)) n c rest (ground (arith, h)) l

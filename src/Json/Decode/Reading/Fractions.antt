-- ===== src/Json/Decode/Reading/Fractions.antt =====
-- Numbers with a fraction or an exponent read back: `decodeElement` of KFCJSONCodec.c on what
-- `formatDouble` prints.
use kfcrash.Prelude.{
  ℕ, ◌+◌, ◌-◌, ◌*◌, ◌/◌, ◌<◌, ◌≡◌, refl, ap, ◌∙◌, inl, inr, Bool, true, false, not, ◌&&◌, [], ◌∷◌,
  ◌++◌, arith, ltb, leb, if◌then◌else◌, Bool-cases, if-elim, if-true, if-false, Bytes, length, take,
  length-append,
}
use kfcrash.Json.Number.{FloatOps}
use kfcrash.Json.Codes.{data_too_long}
use kfcrash.Json.Decode.Scalars.{
  rejected, floating_point, Digits, read_digits, ullong_max, token, is_digit, is_fp_char,
  skip_fp_chars, read_double, after_digits, read_number,
}
use kfcrash.Json.Decode.Reading.Numbers.{breaks}

-- The text of a number that is no integer: characters of numbers, a digit first, and not digits only.
abbrev pub all_fp : Bytes → Bool
all_fp [] = true
all_fp (c ∷ t) = is_fp_char c && all_fp t

abbrev pub all_digits : Bytes → Bool
all_digits [] = true
all_digits (c ∷ t) = is_digit c && all_digits t

-- What is left of it, with what follows.
abbrev Leaves : Bytes → Bytes → Type 0
Leaves rest left = (c : ℕ) × (s : Bytes) × (left ≡ c ∷ (s ++ rest)) × (all_fp (c ∷ s) ≡ true)

read_digits-Leaves :
    (accum : ℕ) (t rest : Bytes)
    → all_fp t ≡ true
    → all_digits t ≡ false
    → Leaves rest (read_digits accum (t ++ rest)).left
unfolding read_digits
read_digits-Leaves accum [] rest f d = absurd (cc)
read_digits-Leaves accum (c ∷ t) rest f d =
    let here = (λ (x : Digits). Leaves rest x.left) in
    let stop : Leaves rest (c ∷ (t ++ rest)) = (c, t, refl, f) in
    elim (Bool-cases (is_digit c)) [
      | inl digit ↦ if-false here {b = not (is_digit c)} _ _ (ground (arith, digit)) (
          if-elim here (ltb (ullong_max / 10) accum) stop (
            if-elim here (ltb (ullong_max - (c - b'0')) (accum * 10)) stop (
              read_digits-Leaves (accum * 10 + (c - b'0')) t rest (ground (arith, f))
                (ground (arith, d, digit)))))
      | inr other ↦ if-true here {b = not (is_digit c)} _ _ (ground (arith, other)) stop
    ]

skip_fp_chars-all :
    (t rest : Bytes) → all_fp t ≡ true → breaks rest ≡ true → skip_fp_chars (t ++ rest) ≡ rest
unfolding skip_fp_chars
skip_fp_chars-all [] [] f b = refl
skip_fp_chars-all [] (c ∷ rest) f b = ground (arith, b)
skip_fp_chars-all (c ∷ t) rest f b =
    ground (arith, f, skip_fp_chars-all t rest (ground (arith, f)) b)

take-append : (t rest : Bytes) → take (length t) (t ++ rest) ≡ t
take-append [] rest = refl
take-append (c ∷ t) rest = ap (λ s. c ∷ s) (take-append t rest)

module _ {F : Type 0} (ops : FloatOps F) (string_buffer_length : ℕ) where
  -- The number that such a text stands for, behind a minus sign or not.
  abbrev pub scanned : Bool → Bytes → F
  scanned negative t = if negative then ops.negate (ops.scan t) else ops.scan t

  read_double-all :
      (negative : Bool) (t rest : Bytes)
      → length t < string_buffer_length
      → breaks rest ≡ true
      → read_double ops string_buffer_length negative (t ++ rest) rest
        ≡ token (floating_point (scanned negative t)) rest
  unfolding read_double
  read_double-all negative t [] l b = absurd (cc)
  read_double-all negative t (c ∷ rest) l b =
      let len : length (t ++ (c ∷ rest)) - length (c ∷ rest) ≡ length t =
        omega (arith, length-append t (c ∷ rest)) in
      let whole = t ++ (c ∷ rest) in
      if-false (λ x. x ≡ token (floating_point (scanned negative t)) (c ∷ rest))
        {b = leb string_buffer_length (length whole - length (c ∷ rest))} (rejected data_too_long) _
        (ground (arith, len, l))
        (ap (λ k. token (floating_point (scanned negative k)) (c ∷ rest))
          (ap (λ n. take n whole) len ∙ take-append t (c ∷ rest)))

  after_digits-double :
      (negative : Bool) (start : Bytes) (accum : ℕ) (overflow : Bool) (c : ℕ) (left : Bytes)
      → is_fp_char c ≡ true
      → after_digits ops string_buffer_length negative start overflow accum (c ∷ left)
        ≡ read_double ops string_buffer_length negative start (skip_fp_chars (c ∷ left))
  unfolding after_digits
  after_digits-double negative start accum overflow c left h =
      if-false
        (λ x. x ≡ read_double ops string_buffer_length negative start (skip_fp_chars (c ∷ left)))
        {b = not (is_fp_char c) && not overflow} _ _ (ground (arith, h)) refl

  -- Such a text is read as the `double` that the C library scans, if the buffer has room for it.
  pub read_fraction :
      (negative : Bool) (t rest : Bytes)
      → all_fp t ≡ true
      → all_digits t ≡ false
      → length t < string_buffer_length
      → breaks rest ≡ true
      → read_number ops string_buffer_length negative (t ++ rest)
        ≡ token (floating_point (scanned negative t)) rest
  unfolding read_number
  read_fraction negative t rest f d l b =
      let (c, s, e, fp) = read_digits-Leaves 0 t rest f d in
      let d = read_digits 0 (t ++ rest) in
      ap (after_digits ops string_buffer_length negative (t ++ rest) d.is_overflow d.accum) e
      ∙ after_digits-double negative (t ++ rest) d.accum d.is_overflow c (s ++ rest)
          (ground (arith, fp))
      ∙ ap (read_double ops string_buffer_length negative (t ++ rest))
          (skip_fp_chars-all (c ∷ s) rest fp b)
      ∙ read_double-all negative t rest l b

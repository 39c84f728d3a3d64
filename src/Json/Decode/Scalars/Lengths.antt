-- ===== src/Json/Decode/Scalars/Lengths.antt =====
-- A scalar takes a byte at least.
use kfcrash.Prelude.{
  ℕ, ◌+◌, ◌-◌, ◌*◌, ◌≤◌, ◌≡◌, refl, Bool, true, false, not, ◌&&◌, [], ◌∷◌, arith, ltb, leb,
  if◌then◌else◌, Bytes, length, length-drop,
}
use kfcrash.Json.Number.{FloatOps}
use kfcrash.Json.Decode.Scalars.{
  Scalar, Token, token, rejected, is_digit, is_fp_char, llong_max, skip_whitespace, skip_fp_chars,
  read_digits, read_double, after_digits, read_number, read_negative, read_word, is_prefix,
}

pub length-skip_whitespace : (s : Bytes) → length (skip_whitespace s) ≤ length s
unfolding skip_whitespace
length-skip_whitespace [] = omega arith
length-skip_whitespace (c ∷ rest) = ground (arith, length-skip_whitespace rest)

length-skip_fp_chars : (s : Bytes) → length (skip_fp_chars s) ≤ length s
unfolding skip_fp_chars
length-skip_fp_chars [] = omega arith
length-skip_fp_chars (c ∷ rest) = ground (arith, length-skip_fp_chars rest)

length-read_digits : (accum : ℕ) (s : Bytes) → length (read_digits accum s).left ≤ length s
unfolding read_digits
length-read_digits accum [] = omega arith
length-read_digits accum (c ∷ rest) =
    ground (arith, length-read_digits (accum * 10 + (c - b'0')) rest)

-- What a token leaves of the text.
pub data Taken {F : Type 0} (n : ℕ) : Token F → Type 0 where
  took : {s : Scalar F} {left : Bytes} → length left ≤ n → Taken n (token s left)
  refused : {code : ℕ} → Taken n (rejected code)

Taken-le : {F : Type 0} {m n : ℕ} {t : Token F} → m ≤ n → Taken m t → Taken n t
Taken-le h (took l) = took (omega arith)
Taken-le h refused = refused

pub Taken-if :
    {F : Type 0} {n : ℕ} (b : Bool) {x y : Token F}
    → Taken n x
    → Taken n y
    → Taken n (if b then x else y)
Taken-if true p q = p
Taken-if false p q = q

-- The first branch may use that its test holds.
pub Taken-when :
    {F : Type 0} {n : ℕ} (b : Bool) {x y : Token F}
    → (b ≡ true → Taken n x)
    → Taken n y
    → Taken n (if b then x else y)
Taken-when true p q = p refl
Taken-when false p q = q

pub read_word-Taken :
    {F : Type 0} (word : Bytes) (scalar : Scalar F) (rest : Bytes)
    → Taken (length rest) (read_word word scalar rest)
unfolding read_word
read_word-Taken word scalar rest =
    Taken-if (ltb (length rest) (length word)) refused (
      Taken-if (is_prefix word rest) (took (omega (arith, length-drop (length word) rest))) refused)

module _ {F : Type 0} (ops : FloatOps F) (n : ℕ) where
  read_double-Taken :
      (negative : Bool) (start left : Bytes)
      → Taken (length left) (read_double ops n negative start left)
  unfolding read_double
  read_double-Taken negative start [] = refused
  read_double-Taken negative start (c ∷ left) = Taken-if _ refused (took (omega arith))

  after_digits-Taken :
      (negative : Bool) (start : Bytes) (overflow : Bool) (accum : ℕ) (left : Bytes)
      → Taken (length left) (after_digits ops n negative start overflow accum left)
  unfolding after_digits
  after_digits-Taken negative start overflow accum [] = refused
  after_digits-Taken negative start overflow accum (c ∷ left) =
      let double =
        Taken-le (length-skip_fp_chars (c ∷ left))
          (read_double-Taken negative start (skip_fp_chars (c ∷ left))) in
      Taken-if (not (is_fp_char c) && not overflow)
        (Taken-if (not negative)
          (Taken-if (leb accum llong_max) (took (omega arith)) (took (omega arith)))
          (Taken-if (leb accum (llong_max + 1)) (took (omega arith)) double))
        double

  read_number_left :
      (negative : Bool) (start : Bytes)
      → Taken (length (read_digits 0 start).left) (read_number ops n negative start)
  unfolding read_number
  read_number_left negative start =
      let d = read_digits 0 start in after_digits-Taken negative start d.is_overflow d.accum d.left

  -- Behind a digit less than the whole text is left.
  pub read_number-Taken :
      (negative : Bool) (c : ℕ) (rest : Bytes)
      → is_digit c ≡ true
      → Taken (length rest) (read_number ops n negative (c ∷ rest))
  read_number-Taken negative c rest h =
      Taken-le {m = length (read_digits 0 (c ∷ rest)).left}
        (unfold read_digits in ground (arith, length-read_digits (0 * 10 + (c - b'0')) rest))
        (read_number_left negative (c ∷ rest))

  pub read_negative-Taken :
      (beyond : ℕ) (rest : Bytes) → Taken (length rest) (read_negative ops n beyond rest)
  unfolding read_negative
  read_negative-Taken beyond [] =
      Taken-if (is_digit beyond) (Taken-le (length-read_digits 0 []) (read_number_left true []))
        refused
  read_negative-Taken beyond (c ∷ rest) =
      Taken-if (is_digit c)
        (Taken-le (length-read_digits 0 (c ∷ rest)) (read_number_left true (c ∷ rest))) refused

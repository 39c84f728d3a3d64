-- ===== src/CString/Hex.antt =====
-- `kfcstring_extractHexValue` of KFCString.c, as built with `strnstr`.
use kfcrash.Prelude.{
  ℕ, zero, suc, ◌+◌, ◌-◌, ◌*◌, ◌/◌, ◌%◌, ◌^◌, ◌<◌, ◌≡◌, refl, sym, ap, subst, ◌∙◌, inl, inr, Bool,
  true, false, not, ◌&&◌, Option, none, some, [], ◌∷◌, ◌++◌, append_assoc, arith, ltb, leb, ◌==◌,
  if◌then◌else◌, Bool-cases, Option-cases, if-true, if-false, Bytes, length, length-append,
}

-- `g_hexConversion`, with `none` for `INV`.
abbrev pub nybble_of : ℕ → Option ℕ
nybble_of c =
    if leb b'0' c && leb c b'9'
    then some (c - b'0')
    else if leb b'A' c && leb c b'F'
    then some (c - b'A' + 10)
    else if leb b'a' c && leb c b'f'
    then some (c - b'a' + 10)
    else none

-- `strnstr` for "0x", and what lies behind it. It does not look past a NUL.
pub find_prefix : Bytes → Option Bytes
find_prefix [] = none
find_prefix (c ∷ []) = none
find_prefix (c ∷ d ∷ rest) =
    let more = find_prefix (d ∷ rest) in
    if c == 0 then none else if c == b'0' && d == b'x' then some rest else more

-- The `while` over the digits; a `uint64_t` loses what is shifted out of it.
pub accumulate : ℕ → Bytes → ℕ
accumulate accum [] = accum
accumulate accum (c ∷ rest) = elim (nybble_of c) [
  | none ↦ accum
  | some nybble ↦ accumulate ((accum * 16) % 2 ^ 64 + nybble) rest
]

-- A byte behind "0x" decides whether the search goes on.
behind_prefix : Option ℕ → ℕ → Option ℕ → Option ℕ
behind_prefix none value more = more
behind_prefix (some nybble) value more = some value

-- The outer loop; each round takes two bytes. At the end of the string the byte that is tested is the
-- one behind it.
pub search : ℕ → ℕ → Bytes → Option ℕ
unfolding behind_prefix accumulate find_prefix
search zero beyond s = none
search (suc rounds) beyond s = elim (find_prefix s) [
  | none ↦ none
  | some [] ↦ behind_prefix (nybble_of beyond) 0 (search rounds beyond [])
  | some (c ∷ rest) ↦
      behind_prefix (nybble_of c) (accumulate 0 (c ∷ rest)) (search rounds beyond (c ∷ rest))
]

-- The value found in a string with the byte `beyond` behind it, or `none` for `false`.
unfoldable pub extract_hex_value : Bytes → ℕ → Option ℕ
unfolding search
extract_hex_value s beyond = search (length s) beyond s

abbrev pub hex_digit : ℕ → ℕ
hex_digit v = if ltb v 10 then b'0' + v else b'a' + (v - 10)

-- `"%llx"`, with fuel.
pub print_hex : ℕ → ℕ → Bytes
print_hex zero n = []
print_hex (suc fuel) n =
    let more = print_hex fuel (n / 16) ++ (hex_digit (n % 16) ∷ []) in
    if ltb n 16 then hex_digit n ∷ [] else more

pub nybble_of-hex_digit : (v : ℕ) → v < 16 → nybble_of (hex_digit v) ≡ some v
nybble_of-hex_digit v h = ground arith

accumulate-digit :
    (accum v : ℕ) (s : Bytes)
    → v < 16
    → accumulate accum (hex_digit v ∷ s) ≡ accumulate ((accum * 16) % 2 ^ 64 + v) s
unfolding accumulate
accumulate-digit accum v s h = rw (accumulate, nybble_of-hex_digit v h)

accumulate-print_hex :
    (fuel n : ℕ) (s : Bytes)
    → n < fuel
    → n < 2 ^ 64
    → accumulate 0 (print_hex fuel n ++ s) ≡ accumulate n s
unfolding print_hex
accumulate-print_hex zero n s f h = absurd (omega arith)
accumulate-print_hex (suc fuel) n s f h =
    let Reads = λ (d : Bytes). accumulate 0 (d ++ s) ≡ accumulate n s in
    let d = hex_digit (n % 16) in
    let more = print_hex fuel (n / 16) in
    elim (Bool-cases (ltb n 16)) [
      | inl small ↦
          if-true Reads (hex_digit n ∷ []) (more ++ (d ∷ [])) small (
            accumulate-digit 0 n s (ground (arith, small)) ∙ ap (λ k. accumulate k s) (omega arith))
      | inr large ↦ if-false Reads (hex_digit n ∷ []) (more ++ (d ∷ [])) large (
          ap (accumulate 0) (append_assoc more (d ∷ []) s)
          ∙ accumulate-print_hex fuel (n / 16) (d ∷ s) (ground (arith, large)) (omega arith)
          ∙ accumulate-digit (n / 16) (n % 16) s (omega arith)
          ∙ ap (λ k. accumulate k s) (omega arith))
    ]

-- No NUL, and no "0x".
abbrev pub is_clear : Bytes → Bool
is_clear [] = true
is_clear (c ∷ []) = not (c == 0)
is_clear (c ∷ d ∷ rest) = not (c == 0) && not (c == b'0' && d == b'x') && is_clear (d ∷ rest)

abbrev pub is_none : Option ℕ → Bool
is_none none = true
is_none (some v) = false

-- What follows is no digit.
abbrev pub ends_digits : Bytes → Bool
ends_digits [] = true
ends_digits (c ∷ rest) = is_none (nybble_of c)

find_prefix-clear :
    (before rest : Bytes)
    → is_clear before ≡ true
    → find_prefix (before ++ (b'0' ∷ b'x' ∷ rest)) ≡ some rest
unfolding find_prefix
find_prefix-clear [] rest h = refl
find_prefix-clear (c ∷ []) rest h = ground arith
find_prefix-clear (c ∷ d ∷ before) rest h = ground (arith, find_prefix-clear (d ∷ before) rest)

accumulate_end : (n : ℕ) (rest : Bytes) → ends_digits rest ≡ true → accumulate n rest ≡ n
unfolding accumulate
accumulate_end n [] h = refl
accumulate_end n (c ∷ rest) h = elim (Option-cases (nybble_of c)) [
  | inl e ↦ rw (accumulate, e)
  | inr (v, e) ↦ absurd (ground (arith, h, ap is_none e))
]

-- A printed number starts with a digit.
abbrev StartsWithDigit : Bytes → Type 0
StartsWithDigit s = (c : ℕ) × (rest : Bytes) × (v : ℕ) × (s ≡ c ∷ rest) × (nybble_of c ≡ some v)

print_hex-StartsWithDigit :
    (fuel n : ℕ) (s : Bytes) → n < fuel → StartsWithDigit (print_hex fuel n ++ s)
unfolding print_hex
print_hex-StartsWithDigit zero n s f = absurd (omega arith)
print_hex-StartsWithDigit (suc fuel) n s f =
    let Starts = λ (d : Bytes). StartsWithDigit (d ++ s) in
    let d = hex_digit (n % 16) in
    let more = print_hex fuel (n / 16) in
    elim (Bool-cases (ltb n 16)) [
      | inl small ↦
          if-true Starts (hex_digit n ∷ []) (more ++ (d ∷ [])) small
            (hex_digit n, s, n, refl, nybble_of-hex_digit n (ground (arith, small)))
      | inr large ↦ if-false Starts (hex_digit n ∷ []) (more ++ (d ∷ [])) large (
          subst StartsWithDigit (sym (append_assoc more (d ∷ []) s))
            (print_hex-StartsWithDigit fuel (n / 16) (d ∷ s) (ground (arith, large))))
    ]

search_found :
    (rounds beyond : ℕ) (s digits : Bytes)
    → 0 < rounds
    → find_prefix s ≡ some digits
    → StartsWithDigit digits
    → search rounds beyond s ≡ some (accumulate 0 digits)
unfolding search
search_found zero beyond s digits r h d = absurd (omega arith)
search_found (suc rounds) beyond s digits r h (c, rest, v, e, n) = rw (search, h, e, n)

-- A number below 2^64 that is printed in hexadecimal behind "0x" is found again, behind any text without
-- NUL and "0x", and with anything behind it that is no digit.
pub extract_hex_value-print_hex :
    (before rest : Bytes) (n beyond : ℕ)
    → is_clear before ≡ true
    → n < 2 ^ 64
    → ends_digits rest ≡ true
    → extract_hex_value (before ++ (b'0' ∷ b'x' ∷ (print_hex (suc n) n ++ rest))) beyond ≡ some n
unfolding extract_hex_value
extract_hex_value-print_hex before rest n beyond clear h end =
    let digits = print_hex (suc n) n ++ rest in
    let s = before ++ (b'0' ∷ b'x' ∷ digits) in
    search_found (length s) beyond s digits
      (omega (arith, length-append before (b'0' ∷ b'x' ∷ digits)))
      (find_prefix-clear before digits clear)
      (print_hex-StartsWithDigit (suc n) n rest (omega arith))
    ∙ ap some (accumulate-print_hex (suc n) n rest (omega arith) h ∙ accumulate_end n rest end)

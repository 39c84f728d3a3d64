-- ===== src/Json/Decode/Text/Laws.antt =====
-- Strings that were escaped by the encoder read back, and what the surrogate pairs become.
use kfcrash.Prelude.{
  ℕ, zero, suc, ◌≤◌, ◌<◌, ◌≡◌, refl, ap, ◌∙◌, ◌⊎◌, inl, inr, Bool, true, false, ◌&&◌, Option, none,
  some, [], ◌∷◌, ◌++◌, arith, leb, ◌==◌, if◌then◌else◌, Bool-cases, Bytes, length, length-append,
}
use kfcrash.Json.Escape.{backslashed, escape_byte, escape_loop, is_plain}
use kfcrash.Json.Escape.Laws.{joined-eq-some}
use kfcrash.Json.Decode.Text.{
  Scanned, value, simple_escape, before, unescape, scanned_before, find_close, copy_text,
  decode_string,
}

-- The letter behind the backslash.
abbrev escape_letter : ℕ → ℕ
escape_letter c =
    if c == 8
    then b'b'
    else if c == 12
    then b'f'
    else if c == b'\n'
    then b'n'
    else if c == b'\r'
    then b'r'
    else if c == b'\t'
    then b't'
    else c

-- An escaped byte is itself, or a backslash and a letter that stands for it.
escape_byte-cases :
    (c : ℕ) (x : Bytes)
    → escape_byte c ≡ some x
    → ((is_plain c ≡ true) × (x ≡ c ∷ []))
      ⊎ ((is_plain c ≡ false)
          × (x ≡ backslashed (escape_letter c))
          × (simple_escape (escape_letter c) ≡ some c)
          × ((escape_letter c == b'u') ≡ false))
unfolding escape_byte simple_escape
escape_byte-cases c x h = ground arith

find_close-plain :
    (c : ℕ) (t : Bytes) (q : ℕ) (rest : Bytes)
    → is_plain c ≡ true
    → find_close (c ∷ (t ++ q ∷ rest)) ≡ scanned_before (c ∷ []) true (find_close (t ++ q ∷ rest))
unfolding find_close
find_close-plain c [] q rest h = ground arith
find_close-plain c (d ∷ t) q rest h = ground arith

find_close-escape :
    (d : ℕ) (t : Bytes)
    → find_close (b'\\' ∷ d ∷ t) ≡ scanned_before (b'\\' ∷ d ∷ []) false (find_close t)
unfolding find_close
find_close-escape d t = refl

find_close-quote : (rest : Bytes) → find_close (b'"' ∷ rest) ≡ some ([], rest, true)
unfolding find_close
find_close-quote [] = refl
find_close-quote (d ∷ rest) = refl

abbrev pub all_plain : Bytes → Bool
all_plain [] = true
all_plain (c ∷ s) = is_plain c && all_plain s

-- The scan stops at the closing quote of an escaped string.
find_close-escaped :
    (s e rest : Bytes)
    → escape_loop s ≡ some e
    → find_close (e ++ b'"' ∷ rest) ≡ some (e, rest, all_plain s)
unfolding escape_loop
find_close-escaped [] e rest h = let nil : e ≡ [] = ground arith in rw nil (find_close-quote rest)
find_close-escaped (c ∷ s) e rest h =
    let (x, y, p, q, split) = joined-eq-some (escape_byte c) (escape_loop s) e h in
    let ih = find_close-escaped s y rest q in
    rw split (elim (escape_byte-cases c x p) [
      | inl (plain, one) ↦ rw one (find_close-plain c y b'"' rest plain ∙ rw (ih, plain))
      | inr (special, two, simple, letter) ↦
          rw two (find_close-escape (escape_letter c) _ ∙ rw (ih, special))
    ])

unescape-plain :
    (n c : ℕ) (t : Bytes)
    → is_plain c ≡ true
    → unescape (suc n) (c ∷ t) ≡ before (c ∷ []) (unescape n t)
unfolding unescape
unescape-plain n c [] h = ground arith
unescape-plain n c (d ∷ t) h = ground arith

unescape-simple :
    (n d b : ℕ) (t : Bytes)
    → (d == b'u') ≡ false
    → simple_escape d ≡ some b
    → unescape (suc n) (b'\\' ∷ d ∷ t) ≡ before (b ∷ []) (unescape n t)
unfolding unescape
unescape-simple n d b t h e = rw (h, e)

unescape-nil : (n : ℕ) → unescape n [] ≡ value []
unfolding unescape
unescape-nil n = refl

-- The copying loop gives back the string that was escaped.
unescape-escaped :
    (n : ℕ) (s e : Bytes) → escape_loop s ≡ some e → length e ≤ n → unescape n e ≡ value s
unfolding escape_loop
unescape-escaped n [] e h l = let nil : e ≡ [] = ground arith in rw nil (unescape-nil n)
unescape-escaped zero (c ∷ s) e h l =
    let (x, y, p, q, split) = joined-eq-some (escape_byte c) (escape_loop s) e h in
    absurd (elim (escape_byte-cases c x p) [
      | inl (plain, one) ↦ omega (arith, ap length split, ap length one, length-append x y)
      | inr (special, two, simple, letter) ↦
          omega (arith, ap length split, ap length two, length-append x y)
    ])
unescape-escaped (suc n) (c ∷ s) e h l =
    let (x, y, p, q, split) = joined-eq-some (escape_byte c) (escape_loop s) e h in
    rw split (elim (escape_byte-cases c x p) [
      | inl (plain, one) ↦ rw one (
          unescape-plain n c y plain
          ∙ rw (
              unescape-escaped n s y q
                (omega (arith, ap length split, ap length one, length-append x y))))
      | inr (special, two, simple, letter) ↦ rw two (
          unescape-simple n (escape_letter c) c y letter simple
          ∙ rw (
              unescape-escaped n s y q
                (omega (arith, ap length split, ap length two, length-append x y))))
    ])

escape_loop-all_plain : (s : Bytes) → all_plain s ≡ true → escape_loop s ≡ some s
unfolding escape_loop escape_byte
escape_loop-all_plain [] h = refl
escape_loop-all_plain (c ∷ s) h = ground (arith, escape_loop-all_plain s)

-- A string that the encoder escapes and quotes is read back whole, with what follows it, if the
-- decoder's buffer is longer than its escaped form.
pub decode_string-escaped :
    (n : ℕ) (s e rest : Bytes)
    → escape_loop s ≡ some e
    → length e < n
    → decode_string n b'"' (e ++ b'"' ∷ rest) ≡ value (s, rest)
unfolding decode_string
decode_string-escaped n s e rest h l =
    let room : leb n (length e) ≡ false = ground arith in
    rw (find_close-escaped s e rest h, room)
      (elim (Bool-cases (all_plain s)) [
        | inl plain ↦ rw plain (ground (arith, escape_loop-all_plain s))
        | inr special ↦ rw special (rw (unescape-escaped (length e) s e h (omega arith)))
      ])

scanned_before-length :
    (a : Bytes) (b : Bool) (o : Option Scanned) (n : ℕ) {t rest : Bytes} {fast : Bool}
    → ((t' r' : Bytes) (f' : Bool) → o ≡ some (t', r', f') → length r' < n)
    → scanned_before a b o ≡ some (t, rest, fast)
    → length rest < n
scanned_before-length a b none n h e = absurd (cc)
scanned_before-length a b (some (t', r', f')) n h e = ground (arith, h t' r' f' refl)

-- What follows the closing quote is shorter than the text scanned.
find_close-length :
    (n : ℕ) (s : Bytes) {t rest : Bytes} {fast : Bool}
    → length s ≤ n
    → find_close s ≡ some (t, rest, fast)
    → length rest < length s
unfolding find_close
find_close-length n [] h e = absurd (cc)
find_close-length n (c ∷ []) h e = ground arith
find_close-length zero (c ∷ d ∷ s) h e = absurd (omega arith)
find_close-length (suc n) (c ∷ d ∷ s) {t} {rest} {fast} h e = elim (Bool-cases (c == b'"')) [
  | inl quote ↦ ground arith
  | inr other ↦ elim (Bool-cases (c == b'\\')) [
    | inl escape ↦
        scanned_before-length (c ∷ d ∷ []) false (find_close s) _
          (λ t' r' f' q. omega (arith, find_close-length n s (omega arith) q))
          (rw (other, escape) at e)
    | inr plain ↦
        scanned_before-length (c ∷ []) true (find_close (d ∷ s)) _
          (λ t' r' f' q. omega (arith, find_close-length n (d ∷ s) (omega arith) q))
          (rw (other, plain) at e)
  ]
]

copy_text-length :
    (n : ℕ) (o : Option Scanned) (m : ℕ) {t rest : Bytes}
    → ((t' r' : Bytes) (f' : Bool) → o ≡ some (t', r', f') → length r' < m)
    → copy_text n o ≡ value (t, rest)
    → length rest < m
unfolding copy_text
copy_text-length n none m h e = absurd (cc)
copy_text-length n (some (t', r', f')) m {t} {rest} h e = ground (arith, h t' r' f' refl)

-- A string takes a byte at least.
pub decode_string-length :
    (n c : ℕ) (s : Bytes) {t rest : Bytes}
    → decode_string n c s ≡ value (t, rest)
    → length rest < length s
unfolding decode_string
decode_string-length n c s {t} {rest} h = elim (Bool-cases (c == b'"')) [
  | inl quote ↦
      copy_text-length n (find_close s) (length s)
        (λ t' r' f' q. find_close-length (length s) s (omega arith) q) (rw quote at h)
  | inr other ↦ absurd (cc (rw other at h))
]

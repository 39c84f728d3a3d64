-- ===== src/Json/Escape/Laws.antt =====
-- The two loops escape byte by byte, within the work buffer.
use kfcrash.Prelude.{
  ℕ, ◌*◌, ◌≤◌, ◌≡◌, refl, sym, ap, ◌∙◌, inl, inr, true, Option, none, some, [], ◌∷◌, ◌++◌,
  append_assoc, arith, Bool-cases, Bytes, length, length-append,
}
use kfcrash.Json.Escape.{joined, escape_byte, escape_loop, is_plain, copy_plain, escaped_portion}

escape_byte_plain : (c : ℕ) → is_plain c ≡ true → escape_byte c ≡ some (c ∷ [])
unfolding escape_byte
escape_byte_plain c h = ground arith

joined_nil : (o : Option Bytes) → joined (some []) o ≡ o
joined_nil none = refl
joined_nil (some a) = refl

joined_cons :
    (c : ℕ) (a : Bytes) (o : Option Bytes)
    → joined (some (c ∷ a)) o ≡ joined (some (c ∷ [])) (joined (some a) o)
joined_cons c a none = refl
joined_cons c a (some b) = refl

copy_plain-lem :
    (s : Bytes) → joined (some (copy_plain s).0) (escape_loop (copy_plain s).1) ≡ escape_loop s
unfolding copy_plain
copy_plain-lem [] = unfold escape_loop in refl
copy_plain-lem (c ∷ s) = elim (Bool-cases (is_plain c)) [
  | inl plain ↦ rw plain (
      joined_cons c (copy_plain s).0 _
      ∙ ap (joined (some (c ∷ []))) (copy_plain-lem s)
      ∙ (unfold escape_loop in rw (escape_byte_plain c plain)))
  | inr special ↦ rw special (joined_nil (escape_loop (c ∷ s)))
]

pub escaped_portion-eq-escape_loop : (s : Bytes) → escaped_portion s ≡ escape_loop s
unfolding escaped_portion
escaped_portion-eq-escape_loop s = copy_plain-lem s

joined_assoc : (a b c : Option Bytes) → joined a (joined b c) ≡ joined (joined a b) c
joined_assoc none b c = refl
joined_assoc (some a) none c = refl
joined_assoc (some a) (some b) none = refl
joined_assoc (some a) (some b) (some c) = ap some (sym (append_assoc a b c))

-- Portions can be cut anywhere.
pub escape_loop-append :
    (s t : Bytes) → escape_loop (s ++ t) ≡ joined (escape_loop s) (escape_loop t)
unfolding escape_loop
escape_loop-append [] t = sym (joined_nil (escape_loop t))
escape_loop-append (c ∷ s) t =
    ground
      (arith, escape_loop-append s t, joined_assoc (escape_byte c) (escape_loop s) (escape_loop t))

pub joined-eq-some :
    (a b : Option Bytes) (e : Bytes)
    → joined a b ≡ some e
    → (x : Bytes) × (y : Bytes) × (a ≡ some x) × (b ≡ some y) × (e ≡ x ++ y)
joined-eq-some none b e h = absurd (cc)
joined-eq-some (some x) none e h = absurd (cc)
joined-eq-some (some x) (some y) e h = (x, y, refl, refl, ground arith)

-- A byte takes two bytes at most.
escape_byte-length : (c : ℕ) (e : Bytes) → escape_byte c ≡ some e → length e ≤ 2
unfolding escape_byte
escape_byte-length c e h = ground arith

-- The escaped form of a string is at most twice as long.
pub escape_loop-length : (s e : Bytes) → escape_loop s ≡ some e → length e ≤ 2 * length s
unfolding escape_loop
escape_loop-length [] e h = ground arith
escape_loop-length (c ∷ s) e h =
    let (x, y, p, q, split) = joined-eq-some (escape_byte c) (escape_loop s) e h in
    omega (
      arith,
      escape_byte-length c x p,
      escape_loop-length s y q,
      length-append x y,
      ap length split,
    )

-- What a portion of `KSJSONCODEC_WorkBufferSize / 2` bytes leaves in the work buffer fits it.
pub escaped_portion_fits :
    (s e : Bytes) → length s ≤ 256 → escaped_portion s ≡ some e → length e ≤ 512
escaped_portion_fits s e h p =
    omega (arith, escape_loop-length s e (sym (escaped_portion-eq-escape_loop s) ∙ p))

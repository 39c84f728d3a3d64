-- ===== src/CString/Order.antt =====
-- `kfcstring_safeStrcmp` of KFCString.c, on strings without NUL.
use kfcrash.Prelude.{
  ℕ, zero, suc, ◌<◌, ◌≡◌, refl, ap, subst, inl, inr, Option, none, some, [], ◌∷◌, ◌++◌, arith, ltb,
  ◌==◌, if◌then◌else◌, if-true, if-false, Bool-cases, Bytes,
}
use kfcrash.Prelude.Int.{ℤ, pos, negsuc}

-- The sign of what `strcmp` returns.
pub strcmp : Bytes → Bytes → ℤ
strcmp [] [] = pos 0
strcmp [] (d ∷ t) = negsuc 0
strcmp (c ∷ s) [] = pos 1
strcmp (c ∷ s) (d ∷ t) =
    let rest = strcmp s t in if c == d then rest else if ltb c d then negsuc 0 else pos 1

-- `none` is NULL.
unfoldable pub safe_strcmp : Option Bytes → Option Bytes → ℤ
unfolding strcmp
safe_strcmp none none = pos 0
safe_strcmp none (some t) = negsuc 0
safe_strcmp (some s) none = pos 1
safe_strcmp (some s) (some t) = strcmp s t

abbrev pub opposite : ℤ → ℤ
opposite (pos zero) = pos zero
opposite (pos (suc n)) = negsuc n
opposite (negsuc n) = pos (suc n)

strcmp-opposite : (s t : Bytes) → strcmp t s ≡ opposite (strcmp s t)
unfolding strcmp
strcmp-opposite [] [] = refl
strcmp-opposite [] (d ∷ t) = refl
strcmp-opposite (c ∷ s) [] = refl
strcmp-opposite (c ∷ s) (d ∷ t) = ground (arith, strcmp-opposite s t)

-- NULL is below every string, a string below those that go on where it ends, and of two that differ
-- at a byte the one with the smaller byte is below the other.
pub data Below : Option Bytes → Option Bytes → Type 0 where
  null : {t : Bytes} → Below none (some t)
  ended : (s : Bytes) (c : ℕ) (t : Bytes) → Below (some s) (some (s ++ c ∷ t))
  differs :
      (front : Bytes) (c d : ℕ) (s t : Bytes)
      → c < d
      → Below (some (front ++ c ∷ s)) (some (front ++ d ∷ t))

-- The three results, with what they say of the arguments.
pub data Compared (s t : Option Bytes) : ℤ → Type 0 where
  below : Below s t → Compared s t (negsuc 0)
  same : s ≡ t → Compared s t (pos 0)
  above : Below t s → Compared s t (pos 1)

-- A byte in front of a string.
abbrev cons_under : ℕ → Option Bytes → Option Bytes
cons_under c none = none
cons_under c (some u) = some (c ∷ u)

Below-cons : (c : ℕ) {s t : Bytes} → Below (some s) (some t) → Below (some (c ∷ s)) (some (c ∷ t))
Below-cons c (ended s d t) = ended (c ∷ s) d t
Below-cons c (differs front d e s t l) = differs (c ∷ front) d e s t l

Compared-cons :
    (c : ℕ) (s t : Bytes) {z : ℤ}
    → Compared (some s) (some t) z
    → Compared (some (c ∷ s)) (some (c ∷ t)) z
Compared-cons c s t (below b) = below (Below-cons c b)
Compared-cons c s t (same e) = same (ap (cons_under c) e)
Compared-cons c s t (above b) = above (Below-cons c b)

strcmp-Compared : (s t : Bytes) → Compared (some s) (some t) (strcmp s t)
unfolding strcmp
strcmp-Compared [] [] = same refl
strcmp-Compared [] (d ∷ t) = below (ended [] d t)
strcmp-Compared (c ∷ s) [] = above (ended [] c s)
strcmp-Compared (c ∷ s) (d ∷ t) =
    let P = λ (z : ℤ). Compared (some (c ∷ s)) (some (d ∷ t)) z in
    elim (Bool-cases (c == d)) [
      | inl equal ↦
          let e : c ≡ d = ground (arith, equal) in
          if-true P {b = c == d} _ _ equal (
            subst (λ k. Compared (some (c ∷ s)) (some (k ∷ t)) (strcmp s t)) e
              (Compared-cons c s t (strcmp-Compared s t)))
      | inr other ↦ if-false P {b = c == d} _ _ other (elim (Bool-cases (ltb c d)) [
        | inl less ↦
            if-true P {b = ltb c d} _ _ less (below (differs [] c d s t (ground (arith, less))))
        | inr more ↦
            if-false P {b = ltb c d} _ _ more
              (above (differs [] d c t s (ground (arith, other, more))))
      ])
    ]

-- The result is below 0 only if the first argument is below the second, 0 only if they are equal, and
-- above 0 only if the second is below the first, where NULL is the lowest; and comparing the other way
-- round gives the opposite sign.
pub safe_strcmp_lem :
    (s t : Option Bytes)
    → Compared s t (safe_strcmp s t) × (safe_strcmp t s ≡ opposite (safe_strcmp s t))
unfolding safe_strcmp
safe_strcmp_lem none none = (same refl, refl)
safe_strcmp_lem none (some t) = (below null, refl)
safe_strcmp_lem (some s) none = (above null, refl)
safe_strcmp_lem (some s) (some t) = (strcmp-Compared s t, strcmp-opposite s t)

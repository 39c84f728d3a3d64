-- ===== src/Reports/Store/Sorting.antt =====
-- Sorting the identifiers of reports, `compareInt64` with `qsort` in KFCrashReportStoreC.c.
use kfcrash.Prelude.{
  ℕ, suc, ◌^◌, ◌≤◌, ◌<◌, ◌≡◌, refl, ap, ◌∙◌, ◌⊎◌, inl, inr, true, false, List, [], ◌∷◌, arith, leb,
  Bool-cases, if-elim, if-true, if-false, length,
}
use mathlib.Core.List.{
  Mem, Perm, Pairwise, Pairwise-singleton, forall_mem-cons, mem-cons_self, mem-cons_of_mem,
}
use mathlib.Core.List.Perm
use native.Mathlib.Bridge.{le_prop}
use kfcrash.Reports.Store.{compare_int64, is_above, insert, qsort}

abbrev pub IsSorted : List ℕ → Type 0
IsSorted = Pairwise ◌≤◌

-- Non-negative as an `int64_t`.
abbrev pub AllInt64 : List ℕ → Type 0
AllInt64 l = (x : ℕ) → Mem x l → x < 2 ^ 63

compare_int64_le :
    (a b : ℕ) → a < 2 ^ 63 → b < 2 ^ 63 → a ≤ b → is_above (compare_int64 a b) ≡ false
compare_int64_le a b ha hb h = ground arith

compare_int64_gt : (a b : ℕ) → a < 2 ^ 63 → b < 2 ^ 63 → b < a → is_above (compare_int64 a b) ≡ true
compare_int64_gt a b ha hb h = ground arith

insert-perm : (x : ℕ) (l : List ℕ) → Perm (insert x l) (x ∷ l)
unfolding insert
insert-perm x [] = Perm.rfl
insert-perm x (y ∷ ys) =
    if-elim (λ l. Perm l (x ∷ y ∷ ys)) (is_above (compare_int64 x y))
      (Perm.trans (Perm.cons y (insert-perm x ys)) (Perm.swap x y ys)) Perm.rfl

length-insert : (x : ℕ) (l : List ℕ) → length (insert x l) ≡ suc (length l)
unfolding insert
length-insert x [] = refl
length-insert x (y ∷ ys) =
    if-elim (λ (l : List ℕ). length l ≡ suc (suc (length ys))) (is_above (compare_int64 x y))
      (ap suc (length-insert x ys)) refl

pub length-qsort : (l : List ℕ) → length (qsort l) ≡ length l
unfolding qsort
length-qsort [] = refl
length-qsort (x ∷ xs) = length-insert x (qsort xs) ∙ ap suc (length-qsort xs)

pub qsort-perm : (l : List ℕ) → Perm (qsort l) l
unfolding qsort
qsort-perm [] = Perm.rfl
qsort-perm (x ∷ xs) = Perm.trans (insert-perm x (qsort xs)) (Perm.cons x (qsort-perm xs))

-- Below all of a list.
abbrev IsBelow : ℕ → List ℕ → Type 0
IsBelow x l = (y : ℕ) → Mem y l → x ≤ y

IsBelow-cons : (x y : ℕ) (l : List ℕ) → x ≤ y → IsBelow x l → IsBelow x (y ∷ l)
IsBelow-cons x y l h below = (forall_mem-cons (λ z. le_prop {n = x} {m = z})).1 (h, below)

IsBelow-perm : (x : ℕ) {l r : List ℕ} → Perm l r → IsBelow x r → IsBelow x l
IsBelow-perm x p h z m = h z ((Perm.mem_iff p).0 m)

le_or_gt : (x y : ℕ) → (x ≤ y) ⊎ (y < x)
le_or_gt x y = elim (Bool-cases (leb x y)) [
  | inl e ↦ inl (ground (arith, e))
  | inr e ↦ inr (ground (arith, e))
]

le_trans : (x y z : ℕ) → x ≤ y → y ≤ z → x ≤ z
le_trans x y z h k = omega arith

AllInt64-behind : (x y : ℕ) (l : List ℕ) → AllInt64 (x ∷ y ∷ l) → AllInt64 (x ∷ l)
AllInt64-behind x y l h z m = h z ((Perm.mem_iff (Perm.swap x y l)).0 (mem-cons_of_mem y m))

insert-IsSorted : (x : ℕ) (l : List ℕ) → AllInt64 (x ∷ l) → IsSorted l → IsSorted (insert x l)
unfolding insert
insert-IsSorted x [] small sorted = Pairwise-singleton _ x
insert-IsSorted x (y ∷ ys) small (Pairwise.cons below sorted) =
    let hx = small x mem-cons_self in
    let hy = small y (mem-cons_of_mem x mem-cons_self) in
    let rest : AllInt64 (x ∷ ys) = AllInt64-behind x y ys small in
    elim (le_or_gt x y) [
      | inl le ↦
          if-false IsSorted {b = is_above (compare_int64 x y)} (y ∷ insert x ys) (x ∷ y ∷ ys)
            (compare_int64_le x y hx hy le)
            (Pairwise.cons (IsBelow-cons x y ys le (λ z m. le_trans x y z le (below z m)))
              (Pairwise.cons below sorted))
      | inr gt ↦
          if-true IsSorted {b = is_above (compare_int64 x y)} (y ∷ insert x ys) (x ∷ y ∷ ys)
            (compare_int64_gt x y hx hy gt)
            (Pairwise.cons
              (IsBelow-perm y (insert-perm x ys) (IsBelow-cons y x ys (omega arith) below))
              (insert-IsSorted x ys rest sorted))
    ]

pub qsort-IsSorted : (l : List ℕ) → AllInt64 l → IsSorted (qsort l)
unfolding qsort
qsort-IsSorted [] small = Pairwise.nil
qsort-IsSorted (x ∷ xs) small =
    insert-IsSorted x (qsort xs) (λ z m. small z ((Perm.mem_iff (Perm.cons x (qsort-perm xs))).0 m))
      (qsort-IsSorted xs (λ z m. small z (mem-cons_of_mem x m)))

-- ===== src/Monitor/Registry/Slots.antt =====
-- Which pointers the list holds after `kfccmr_addMonitor` and `kfccmr_removeMonitor`.
use kfcrash.Prelude.{
  ℕ, ◌+◌, ◌≤◌, ◌<◌, ◌≡◌, refl, ap, ◌∙◌, ◌≢◌, ◌⊎◌, inl, inr, Bool, true, false, ◌||◌, [], ◌∷◌, arith,
  ◌==◌, if◌then◌else◌, Bool-cases, length,
}
use kfcrash.Monitor.Api.{MonitorApis}
use kfcrash.Monitor.Registry.{
  Slots, Insertion, added, already, full, insert_api, remove_duplicates, after_insertion,
  add_monitor, remove_loop, remove_monitor,
}

-- How many slots hold the pointer.
abbrev pub count : ℕ → Slots → ℕ
count a [] = 0
count a (s ∷ rest) = (if s == a then 1 else 0) + count a rest

-- No monitor stands in two slots.
abbrev pub IsUnique : Slots → Type 0
IsUnique slots = (a : ℕ) → a ≢ 0 → count a slots ≤ 1

count-remove_duplicates_self :
    (api : ℕ) (found : Bool) (slots : Slots)
    → api ≢ 0
    → count api (remove_duplicates api found slots)
      ≡ (if found then 0 else if 0 == count api slots then 0 else 1)
unfolding remove_duplicates
count-remove_duplicates_self api true [] h = refl
count-remove_duplicates_self api false [] h = refl
count-remove_duplicates_self api true (s ∷ rest) h =
    ground (arith, count-remove_duplicates_self api true rest h)
count-remove_duplicates_self api false (s ∷ rest) h = ground (
  arith,
  count-remove_duplicates_self api true rest h,
  count-remove_duplicates_self api false rest h,
)

count-remove_duplicates_ne :
    (api a : ℕ) (found : Bool) (slots : Slots)
    → a ≢ 0
    → a ≢ api
    → count a (remove_duplicates api found slots) ≡ count a slots
unfolding remove_duplicates
count-remove_duplicates_ne api a found [] h n = refl
count-remove_duplicates_ne api a true (s ∷ rest) h n =
    ground (arith, count-remove_duplicates_ne api a true rest h n)
count-remove_duplicates_ne api a false (s ∷ rest) h n = ground (
  arith,
  count-remove_duplicates_ne api a true rest h n,
  count-remove_duplicates_ne api a false rest h n,
)

length-remove_duplicates :
    (api : ℕ) (found : Bool) (slots : Slots)
    → length (remove_duplicates api found slots) ≡ length slots
unfolding remove_duplicates
length-remove_duplicates api found [] = refl
length-remove_duplicates api found (s ∷ rest) =
    omega (arith, length-remove_duplicates api (found || s == api) rest)

-- What the first loop has done, by how it stopped.
abbrev Inserted : ℕ → Slots → Insertion × Slots → Type 0
Inserted api slots (added, slots') =
    (count api slots' ≡ count api slots + 1)
    × (length slots' ≡ length slots)
    × ((a : ℕ) → a ≢ 0 → a ≢ api → count a slots' ≡ count a slots)
Inserted api slots (already, slots') = (slots' ≡ slots) × (0 < count api slots)
Inserted api slots (full, slots') = (slots' ≡ slots) × (count api slots ≡ 0) × (count 0 slots ≡ 0)

Inserted-cons :
    (api s : ℕ) (slots : Slots) (r : Insertion × Slots)
    → (s == api) ≡ false
    → (s == 0) ≡ false
    → Inserted api slots r
    → Inserted api (s ∷ slots) (r.0, s ∷ r.1)
Inserted-cons api s slots (added, slots') h k (c, l, o) =
    (ground arith, ground arith, λ a n m. ground (arith, o a n m))
Inserted-cons api s slots (already, slots') h k i = (ap (◌∷◌ s) i.0, ground arith)
Inserted-cons api s slots (full, slots') h k i = (ap (◌∷◌ s) i.0, ground arith, ground arith)

insert_api-Inserted :
    (api : ℕ) (slots : Slots) → api ≢ 0 → Inserted api slots (insert_api api slots)
unfolding insert_api
insert_api-Inserted api [] h = (refl, refl, refl)
insert_api-Inserted api (s ∷ rest) h = elim (Bool-cases (s == api)) [
  | inl same ↦ rw same (refl, ground arith)
  | inr other ↦ elim (Bool-cases (s == 0)) [
    | inl hole ↦ rw (other, hole) (ground arith, refl, λ a n m. ground arith)
    | inr taken ↦
        rw (other, taken)
          (Inserted-cons api s rest (insert_api api rest) other taken
            (insert_api-Inserted api rest h))
  ]
]

-- What a call has done, by its result.
abbrev pub Added : ℕ → Slots → Bool × Slots → Type 0
Added api slots (true, slots') =
    (count api slots' ≡ 1)
    × (length slots' ≡ length slots)
    × ((a : ℕ) → a ≢ 0 → a ≢ api → count a slots' ≡ count a slots)
Added api slots (false, slots') =
    (slots' ≡ slots) × ((0 < count api slots) ⊎ ((count api slots ≡ 0) × (count 0 slots ≡ 0)))

after_insertion-Added :
    (api : ℕ) (slots : Slots) (r : Insertion × Slots)
    → api ≢ 0
    → Inserted api slots r
    → Added api slots (after_insertion api r)
unfolding after_insertion
after_insertion-Added api slots (added, slots') h (c, l, o) = (
  ground (arith, count-remove_duplicates_self api false slots' h),
  omega (arith, length-remove_duplicates api false slots'),
  λ a n m. count-remove_duplicates_ne api a false slots' n m ∙ o a n m,
)
after_insertion-Added api slots (already, slots') h i = (i.0, inl i.1)
after_insertion-Added api slots (full, slots') h i = (i.0, inr (i.1, i.2))

-- Of a pointer that is not NULL, `kfccmr_addMonitor` returns true with the pointer in exactly one
-- slot and every other monitor in as many slots as before, or returns false with the list as it
-- was, and then the pointer was in the list already, or was not and no slot was free.
pub add_monitor-Added :
    (api : ℕ) (slots : Slots) → api ≢ 0 → Added api slots (add_monitor api slots)
unfolding add_monitor
add_monitor-Added api slots h = elim (Bool-cases (api == 0)) [
  | inl null ↦ absurd (ground arith)
  | inr real ↦
      rw real
        (after_insertion-Added api slots (insert_api api slots) h (insert_api-Inserted api slots h))
]

Added-IsUnique :
    (api : ℕ) (slots : Slots) (r : Bool × Slots) → Added api slots r → IsUnique slots → IsUnique r.1
Added-IsUnique api slots (true, slots') (c, l, o) u = λ a n. elim (Bool-cases (a == api)) [
  | inl same ↦ ground (arith, u a)
  | inr other ↦ ground (arith, u a n, o a n (ground arith))
]
Added-IsUnique api slots (false, slots') i u = λ a n. rw i.0 (u a n)

-- `kfccmr_addMonitor` keeps every monitor in one slot at most.
pub add_monitor-IsUnique :
    (api : ℕ) (slots : Slots) → IsUnique slots → IsUnique (add_monitor api slots).1
add_monitor-IsUnique api slots u = elim (Bool-cases (api == 0)) [
  | inl null ↦ unfold add_monitor in rw null u
  | inr real ↦
      Added-IsUnique api slots (add_monitor api slots) (add_monitor-Added api slots (ground arith))
        u
]

module _ {W : Type 0} (apis : MonitorApis W) where
  count-remove_loop_self :
      (api : ℕ) (slots : Slots) (w : W) → api ≢ 0 → count api (remove_loop apis api slots w).0 ≡ 0
  unfolding remove_loop
  count-remove_loop_self api [] w h = refl
  count-remove_loop_self api (s ∷ rest) w h = ground (
    arith,
    count-remove_loop_self api rest (apis.set_enabled api false w) h,
    count-remove_loop_self api rest w h,
  )

  count-remove_loop_ne :
      (api a : ℕ) (slots : Slots) (w : W)
      → a ≢ 0
      → a ≢ api
      → count a (remove_loop apis api slots w).0 ≡ count a slots
  unfolding remove_loop
  count-remove_loop_ne api a [] w h n = refl
  count-remove_loop_ne api a (s ∷ rest) w h n = ground (
    arith,
    count-remove_loop_ne api a rest (apis.set_enabled api false w) h n,
    count-remove_loop_ne api a rest w h n,
  )

  -- `kfccmr_removeMonitor` leaves the pointer in no slot, and every other monitor in as many
  -- slots as before.
  pub count-remove_monitor :
      (api : ℕ) (slots : Slots) (w : W)
      → api ≢ 0
      → let slots' = (remove_monitor apis api slots w).0 in
        (count api slots' ≡ 0) × ((a : ℕ) → a ≢ 0 → a ≢ api → count a slots' ≡ count a slots)
  unfolding remove_monitor
  count-remove_monitor api slots w h = (
    ground (arith, count-remove_loop_self api slots w h),
    λ a n m. ground (arith, count-remove_loop_ne api a slots w n m),
  )

-- ===== src/UserData/Breadcrumbs/Recent.antt =====
-- The breadcrumbs of KFCrashUserData.c are the last hundred messages.
use kfcrash.Prelude.{
  ℕ, zero, suc, ◌+◌, ◌-◌, ◌%◌, ◌≤◌, ◌<◌, ◌≡◌, refl, sym, ap, ap₂, ◌∙◌, ◌≢◌, inl, inr, true, Option,
  none, some, List, [], ◌∷◌, ◌++◌, arith, ltb, leb, ◌==◌, if◌then◌else◌, Bool-cases, if-true,
  if-false, Bytes, length, get_elem?, set, drop, length-append, length-set, length-drop,
  length-replicate,
}
use kfcrash.Prelude.Int.{pos}
use kfcrash.UserData.Breadcrumbs.{
  max_breadcrumbs, no_breadcrumb, Breadcrumb, Breadcrumbs, kept_of, add_breadcrumb,
  clear_breadcrumbs, real_index, get_breadcrumb_at,
}

-- A call: `kfcrash_addBreadcrumb` with what it gets, or `kfcrash_clearBreadcrumbs`.
pub data Call : Type 0 where
  add : Option Bytes → ℕ → Call
  clear : Call

abbrev pub called : Call → Breadcrumbs → Breadcrumbs
called (add message now) store = add_breadcrumb message now store
called clear store = clear_breadcrumbs store

abbrev pub all_called : List Call → Breadcrumbs → Breadcrumbs
all_called [] store = store
all_called (c ∷ calls) store = all_called calls (called c store)

-- All messages since the store was cleared, oldest first.
abbrev pub told : Call → List Breadcrumb → List Breadcrumb
told (add none now) history = history
told (add (some message) now) history = history ++ (kept_of message now ∷ [])
told clear history = []

abbrev pub all_told : List Call → List Breadcrumb → List Breadcrumb
all_told [] history = history
all_told (c ∷ calls) history = all_told calls (told c history)

-- The array holds the last hundred of a history, each at its number modulo a hundred.
record Holds (store : Breadcrumbs) (history : List Breadcrumb) : Type 0 where
  size : length store.entries ≡ max_breadcrumbs
  place : store.write_index ≡ length history % max_breadcrumbs
  few : length history < max_breadcrumbs → store.count ≡ length history
  many : max_breadcrumbs ≤ length history → store.count ≡ max_breadcrumbs
  entry :
      (j : ℕ)
      → j < length history
      → length history ≤ j + max_breadcrumbs
      → get_elem? store.entries (j % max_breadcrumbs) ≡ get_elem? history j

get_elem?-set_self :
    (xs : List Breadcrumb) (i : ℕ) (v : Breadcrumb)
    → i < length xs
    → get_elem? (set xs i v) i ≡ some v
get_elem?-set_self [] i v h = absurd (omega arith)
get_elem?-set_self (x ∷ xs) zero v h = refl
get_elem?-set_self (x ∷ xs) (suc i) v h = get_elem?-set_self xs i v (omega arith)

get_elem?-set_ne :
    (xs : List Breadcrumb) (i j : ℕ) (v : Breadcrumb)
    → i ≢ j
    → get_elem? (set xs i v) j ≡ get_elem? xs j
get_elem?-set_ne [] i j v h = refl
get_elem?-set_ne (x ∷ xs) zero zero v h = absurd (h refl)
get_elem?-set_ne (x ∷ xs) zero (suc j) v h = refl
get_elem?-set_ne (x ∷ xs) (suc i) zero v h = refl
get_elem?-set_ne (x ∷ xs) (suc i) (suc j) v h = get_elem?-set_ne xs i j v (λ e. h (ap suc e))

get_elem?-append_front :
    (xs ys : List Breadcrumb) (i : ℕ) → i < length xs → get_elem? (xs ++ ys) i ≡ get_elem? xs i
get_elem?-append_front [] ys i h = absurd (omega arith)
get_elem?-append_front (x ∷ xs) ys zero h = refl
get_elem?-append_front (x ∷ xs) ys (suc i) h = get_elem?-append_front xs ys i (omega arith)

get_elem?-append_last :
    (xs : List Breadcrumb) (y : Breadcrumb) → get_elem? (xs ++ (y ∷ [])) (length xs) ≡ some y
get_elem?-append_last [] y = refl
get_elem?-append_last (x ∷ xs) y = get_elem?-append_last xs y

get_elem?-drop :
    (n : ℕ) (xs : List Breadcrumb) (i : ℕ) → get_elem? (drop n xs) i ≡ get_elem? xs (n + i)
get_elem?-drop zero xs i = ap (get_elem? xs) (omega arith)
get_elem?-drop (suc n) [] i = refl
get_elem?-drop (suc n) (x ∷ xs) i =
    let same : suc (n + i) ≡ suc n + i = omega arith in
    get_elem?-drop n xs i ∙ ap (get_elem? (x ∷ xs)) same

get_elem?-past : (xs : List Breadcrumb) (i : ℕ) → length xs ≤ i → get_elem? xs i ≡ none
get_elem?-past [] i h = refl
get_elem?-past (x ∷ xs) zero h = absurd (omega arith)
get_elem?-past (x ∷ xs) (suc i) h = get_elem?-past xs i (omega arith)

equal : (j n : ℕ) → (j == n) ≡ true → j ≡ n
equal j n e = ground (arith, e)

counted :
    (count n : ℕ)
    → max_breadcrumbs ≤ n + 1
    → (n < max_breadcrumbs → count ≡ n)
    → (max_breadcrumbs ≤ n → count ≡ max_breadcrumbs)
    → (if ltb count max_breadcrumbs then count + 1 else count) ≡ max_breadcrumbs
counted count n enough few many = elim (Bool-cases (ltb n max_breadcrumbs)) [
  | inl e ↦ ground (arith, e, few (ground (arith, e)))
  | inr e ↦ ground (arith, many (ground (arith, e)))
]

apart : (n j : ℕ) → j < n → n < j + max_breadcrumbs → n % max_breadcrumbs ≢ j % max_breadcrumbs
apart n j before recent e = absurd (omega arith)

add_breadcrumb-Holds :
    (message : Bytes) (now : ℕ) (store : Breadcrumbs) (history : List Breadcrumb)
    → Holds store history
    → Holds (add_breadcrumb (some message) now store) (history ++ (kept_of message now ∷ []))
unfolding add_breadcrumb
add_breadcrumb-Holds message now store history h =
    let b = kept_of message now in
    let n = length history in
    let longer : length (history ++ (b ∷ [])) ≡ n + 1 =
      omega (arith, length-append history (b ∷ [])) in
    record {
      size = length-set store.entries store.write_index b ∙ h.size;
      place = omega (arith, h.place, longer);
      few = λ l. ground (arith, h.few (omega (arith, longer)), longer, l);
      many = λ l. counted store.count n (omega (arith, longer)) h.few h.many;
      entry = λ j below recent. elim (Bool-cases (j == n)) [
        | inl last ↦
            ap₂ (λ i k. get_elem? (set store.entries i b) (k % max_breadcrumbs)) h.place
              (equal j n last)
            ∙ get_elem?-set_self store.entries (n % max_breadcrumbs) b (omega (arith, h.size))
            ∙ sym (get_elem?-append_last history b)
            ∙ sym (ap (get_elem? (history ++ (b ∷ []))) (equal j n last))
        | inr older ↦
            let before : j < n = ground (arith, below, longer, older) in
            get_elem?-set_ne store.entries store.write_index (j % max_breadcrumbs) b
              (λ e. apart n j before (omega (arith, longer)) (sym h.place ∙ e))
            ∙ h.entry j before (omega (arith, longer))
            ∙ sym (get_elem?-append_front history (b ∷ []) j before)
      ];
    }

count-Holds :
    (store : Breadcrumbs) (history : List Breadcrumb)
    → Holds store history
    → store.count ≡ length history - (length history - max_breadcrumbs)
count-Holds store history h = elim (Bool-cases (ltb (length history) max_breadcrumbs)) [
  | inl e ↦ ground (arith, e, h.few (ground (arith, e)))
  | inr e ↦ ground (arith, e, h.many (ground (arith, e)))
]

real_index-Holds :
    (store : Breadcrumbs) (history : List Breadcrumb) (i : ℕ)
    → Holds store history
    → i < store.count
    → real_index i store ≡ (length history - max_breadcrumbs + i) % max_breadcrumbs
real_index-Holds store history i h below =
    let n = length history in
    let count = count-Holds store history h in
    elim (Bool-cases (ltb store.count max_breadcrumbs)) [
      | inl e ↦
          if-true (λ k. k ≡ (n - max_breadcrumbs + i) % max_breadcrumbs)
            {b = ltb store.count max_breadcrumbs} i ((store.write_index + i) % max_breadcrumbs) e
            (small_index n store.count i count below (ground (arith, e)))
      | inr e ↦
          if-false (λ k. k ≡ (n - max_breadcrumbs + i) % max_breadcrumbs)
            {b = ltb store.count max_breadcrumbs} i ((store.write_index + i) % max_breadcrumbs) e
            (large_index n store.count store.write_index i count h.place (ground (arith, e)))
    ]
  where
    small_index :
        (n count i : ℕ)
        → count ≡ n - (n - max_breadcrumbs)
        → i < count
        → count < max_breadcrumbs
        → i ≡ (n - max_breadcrumbs + i) % max_breadcrumbs
    small_index n count i c below few = omega arith

    large_index :
        (n count w i : ℕ)
        → count ≡ n - (n - max_breadcrumbs)
        → w ≡ n % max_breadcrumbs
        → max_breadcrumbs ≤ count
        → (w + i) % max_breadcrumbs ≡ (n - max_breadcrumbs + i) % max_breadcrumbs
    large_index n count w i c place many = omega arith

get_breadcrumb_at-Holds :
    (store : Breadcrumbs) (history : List Breadcrumb) (i : ℕ)
    → Holds store history
    → get_breadcrumb_at (pos i) store
      ≡ get_elem? (drop (length history - max_breadcrumbs) history) i
unfolding get_breadcrumb_at
get_breadcrumb_at-Holds store history i h =
    let n = length history in
    let from = n - max_breadcrumbs in
    let count = count-Holds store history h in
    let found = get_elem? store.entries (real_index i store) in
    let Same = λ (o : Option Breadcrumb). o ≡ get_elem? (drop from history) i in
    elim (Bool-cases (leb store.count i)) [
      | inl past ↦ if-true Same {b = leb store.count i} none found past (
          sym (
            get_elem?-past (drop from history) i
              (ground (arith, past, count, length-drop from history))))
      | inr inside ↦
          let below : i < store.count = ground (arith, inside) in
          if-false Same {b = leb store.count i} none found inside (
            ap (get_elem? store.entries) (real_index-Holds store history i h below)
            ∙ h.entry (from + i) (omega (arith, count, below)) (omega (arith, count, below))
            ∙ sym (get_elem?-drop from history i))
    ]

clear_breadcrumbs-Holds : (store : Breadcrumbs) → Holds (clear_breadcrumbs store) []
unfolding clear_breadcrumbs
clear_breadcrumbs-Holds store = record {
  size = length-replicate max_breadcrumbs no_breadcrumb;
  place = refl;
  few = λ l. refl;
  many = λ l. absurd (omega arith);
  entry = λ j below recent. absurd (omega arith);
}

called-Holds :
    (c : Call) (store : Breadcrumbs) (history : List Breadcrumb)
    → Holds store history
    → Holds (called c store) (told c history)
unfolding add_breadcrumb
called-Holds (add none now) store history h = h
called-Holds (add (some message) now) store history h =
    add_breadcrumb-Holds message now store history h
called-Holds clear store history h = clear_breadcrumbs-Holds store

all_called-Holds :
    (calls : List Call) (store : Breadcrumbs) (history : List Breadcrumb)
    → Holds store history
    → Holds (all_called calls store) (all_told calls history)
all_called-Holds [] store history h = h
all_called-Holds (c ∷ calls) store history h =
    all_called-Holds calls (called c store) (told c history) (called-Holds c store history h)

-- After any calls on a cleared store, the breadcrumb at an index is the one with that number among the
-- last hundred messages since the store was cleared last, oldest first, with the message cut to 255
-- bytes; where there is no such message, the result is `false`; and the count is how many there are.
pub get_breadcrumb_at_recent :
    (calls : List Call) (store : Breadcrumbs) (i : ℕ)
    → let s = all_called calls (clear_breadcrumbs store) in
      let history = all_told calls [] in
      let recent = drop (length history - max_breadcrumbs) history in
      (get_breadcrumb_at (pos i) s ≡ get_elem? recent i) × (s.count ≡ length recent)
get_breadcrumb_at_recent calls store i =
    let s = all_called calls (clear_breadcrumbs store) in
    let history = all_told calls [] in
    let h = all_called-Holds calls (clear_breadcrumbs store) [] (clear_breadcrumbs-Holds store) in
    (
      get_breadcrumb_at-Holds s history i h,
      count-Holds s history h ∙ sym (length-drop (length history - max_breadcrumbs) history),
    )

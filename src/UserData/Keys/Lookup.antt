-- ===== src/UserData/Keys/Lookup.antt =====
-- The custom keys of KFCrashUserData.c as a map.
use kfcrash.Prelude.{
  ◌≤◌, ◌<◌, ◌≡◌, refl, sym, ap, ◌∙◌, ◌≢◌, ◌⊎◌, inl, inr, Bool, true, false, Option, none, some,
  List, [], ◌∷◌, arith, if◌then◌else◌, Bool-cases, if-true, if-false, Bytes, length,
}
use kfcrash.UserData.Keys.{
  max_custom_keys, KeyEntry, same_key, kept_value, remove_entry, remove_custom_key,
}
use kfcrash.UserData.Keys.Updating.{lookup, same_key_left, lookup_same, if_none, none_if, IsUnique}

-- How setting a key to a value changes the map.
abbrev Assigned : Bytes → Bytes → List KeyEntry → List KeyEntry → Type 0
Assigned key value s s' =
    ((length s < max_custom_keys ⊎ lookup key s ≢ none) → lookup key s' ≡ some (kept_value value))
    × ((other : Bytes) → same_key key other ≡ false → lookup other s' ≡ lookup other s)
    × (length s ≤ max_custom_keys → length s' ≤ max_custom_keys)
    × (IsUnique s → IsUnique s')

-- How removing a key changes the map.
abbrev IsRemoved : Bytes → List KeyEntry → List KeyEntry → Type 0
IsRemoved key s s' =
    (lookup key s' ≡ none)
    × ((other : Bytes) → same_key key other ≡ false → lookup other s' ≡ lookup other s)
    × ((other : Bytes) → lookup other s ≡ none → lookup other s' ≡ none)
    × IsUnique s'
    × (length s' ≤ length s)

remove_entry-IsRemoved :
    (key : Bytes) (s : List KeyEntry) → IsUnique s → IsRemoved key s (remove_entry key s)
unfolding remove_entry
remove_entry-IsRemoved key [] u = (refl, (λ k h. refl), (λ k h. h), refl, omega arith)
remove_entry-IsRemoved key (e ∷ s) (fresh, u) =
    let (gone, rest, none', unique, shorter) = remove_entry-IsRemoved key s u in
    let more = remove_entry key s in
    elim (Bool-cases (same_key e.key key)) [
      | inl found ↦ if-true (IsRemoved key (e ∷ s)) {b = same_key e.key key} s (e ∷ more) found (
        sym (lookup_same e.key key s found) ∙ fresh,
        (λ k h. sym (
            ap (λ b. if b then some e.value else lookup k s)
              (same_key_left e.key key k found ∙ h))),
        (λ k h. (if_none (same_key e.key k) e.value (lookup k s) h).1),
        u,
        omega arith,
      )
      | inr other ↦ if-false (IsRemoved key (e ∷ s)) {b = same_key e.key key} s (e ∷ more) other (
        none_if (same_key e.key key) e.value (lookup key more) other gone,
        (λ k h. ap (λ o. if same_key e.key k then some e.value else o) (rest k h)),
        (λ k h.
            let (apart, absent) = if_none (same_key e.key k) e.value (lookup k s) h in
            none_if (same_key e.key k) e.value (lookup k more) apart (none' k absent)),
        (none' e.key fresh, unique),
        omega (arith, shorter),
      )
    ]

-- At most 50 entries, and no key twice.
abbrev pub IsTable : List KeyEntry → Type 0
IsTable s = (length s ≤ max_custom_keys) × IsUnique s

abbrev pub is_known : Option Bytes → Bool
is_known none = false
is_known (some v) = true

-- Removing a key takes it out of the map and changes nothing else, and again no key stands twice.
pub remove_custom_key_lem :
    (key : Bytes) (s : List KeyEntry) (k : Bytes)
    → IsTable s
    → let s' = remove_custom_key (some key) s in
      (lookup k s' ≡ (if same_key key k then none else lookup k s)) × IsTable s'
unfolding remove_custom_key
remove_custom_key_lem key s k (few, u) =
    let (gone, rest, none', unique, shorter) = remove_entry-IsRemoved key s u in
    let s' = remove_entry key s in
    (
      elim (Bool-cases (same_key key k)) [
        | inl equal ↦
            if-true (λ o. lookup k s' ≡ o) {b = same_key key k} none (lookup k s) equal
              (sym (lookup_same key k s' equal) ∙ gone)
        | inr apart ↦
            if-false (λ o. lookup k s' ≡ o) {b = same_key key k} none (lookup k s) apart
              (rest k apart)
      ],
      (omega (arith, shorter, few), unique),
    )

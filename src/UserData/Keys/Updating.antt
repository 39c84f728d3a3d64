-- ===== src/UserData/Keys/Updating.antt =====
-- The entries of the custom keys of KFCrashUserData.c under the loop that updates and under an addition.
use kfcrash.Prelude.{
  ℕ, zero, suc, ◌-◌, ◌≤◌, ◌≡◌, refl, sym, ap, ap₂, ◌∙◌, inl, inr, Bool, true, false, Option, none,
  some, List, [], ◌∷◌, ◌++◌, arith, if◌then◌else◌, Bool-cases, if-true, if-false, Bytes, length,
  take,
}
use kfcrash.Sessions.State.{same}
use kfcrash.UserData.Keys.{max_key_length, KeyEntry, same_key, kept_value, behind, update}

pub same_self : (a : Bytes) → same a a ≡ true
same_self [] = refl
same_self (c ∷ a) = ground (arith, same_self a)

same_eq : (a b : Bytes) → same a b ≡ true → a ≡ b
same_eq [] [] h = refl
same_eq [] (d ∷ b) h = absurd (cc)
same_eq (c ∷ a) [] h = absurd (cc)
same_eq (c ∷ a) (d ∷ b) h = ap₂ (λ x y. x ∷ y) (ground (arith, h)) (same_eq a b (ground (arith, h)))

same_sym : (a b : Bytes) → same a b ≡ same b a
same_sym [] [] = refl
same_sym [] (d ∷ b) = refl
same_sym (c ∷ a) [] = refl
same_sym (c ∷ a) (d ∷ b) = ground (arith, same_sym a b)

-- The first value under a key.
abbrev pub lookup : Bytes → List KeyEntry → Option Bytes
lookup key [] = none
lookup key (e ∷ entries) =
    let more = lookup key entries in if same_key e.key key then some e.value else more

pub same_key_left : (a b c : Bytes) → same_key a b ≡ true → same_key a c ≡ same_key b c
same_key_left a b c h =
    ap (λ k. same k (take max_key_length c))
      (same_eq (take max_key_length a) (take max_key_length b) h)

pub lookup_same : (a b : Bytes) (s : List KeyEntry) → same_key a b ≡ true → lookup a s ≡ lookup b s
lookup_same a b [] h = refl
lookup_same a b (e ∷ s) h =
    let same' =
      ap (same (take max_key_length e.key))
        (same_eq (take max_key_length a) (take max_key_length b) h) in
    ap₂ (λ t r. if t then some e.value else r) same' (lookup_same a b s h)

pub if_none :
    (b : Bool) (v : Bytes) (o : Option Bytes)
    → (if b then some v else o) ≡ none
    → (b ≡ false) × (o ≡ none)
if_none true v o h = absurd (cc)
if_none false v o h = (refl, h)

pub none_if :
    (b : Bool) (v : Bytes) (o : Option Bytes)
    → b ≡ false
    → o ≡ none
    → (if b then some v else o) ≡ none
none_if true v o e h = absurd (cc)
none_if false v o e h = h

-- No key stands twice.
abbrev pub IsUnique : List KeyEntry → Type 0
IsUnique [] = true ≡ true
IsUnique (e ∷ entries) = (lookup e.key entries ≡ none) × IsUnique entries

-- What the loop that updates leaves.
pub data Updated (key value : Bytes) (s : List KeyEntry) : Option (List KeyEntry) → Type 0 where
  missing : lookup key s ≡ none → Updated key value s none
  replaced :
      {s' : List KeyEntry}
      → lookup key s' ≡ some (kept_value value)
      → ((other : Bytes) → same_key key other ≡ false → lookup other s' ≡ lookup other s)
      → ((other : Bytes) → lookup other s ≡ none → lookup other s' ≡ none)
      → (IsUnique s → IsUnique s')
      → length s' ≡ length s
      → Updated key value s (some s')

behind-Updated :
    (key value : Bytes) (e : KeyEntry) (s : List KeyEntry) {o : Option (List KeyEntry)}
    → same_key e.key key ≡ false
    → Updated key value s o
    → Updated key value (e ∷ s) (behind e o)
unfolding behind
behind-Updated key value e s other (missing h) =
    missing
      (if-false (λ o. o ≡ none) {b = same_key e.key key} (some e.value) (lookup key s) other h)
behind-Updated key value e s other (replaced {s'} found rest none' unique len) =
    replaced
      (if-false (λ o. o ≡ some (kept_value value)) {b = same_key e.key key} (some e.value)
        (lookup key s') other found)
      (λ k h. ap (λ o. if same_key e.key k then some e.value else o) (rest k h))
      (λ k h.
        let (apart, gone) = if_none (same_key e.key k) e.value (lookup k s) h in
        none_if (same_key e.key k) e.value (lookup k s') apart (none' k gone))
      (λ (fresh, u). (none' e.key fresh, unique u)) (ap suc len)

pub update-Updated :
    (key value : Bytes) (s : List KeyEntry) → Updated key value s (update key value s)
unfolding update
update-Updated key value [] = missing refl
update-Updated key value (e ∷ s) =
    let more = update key value s in
    let here = record e { value = kept_value value } ∷ s in
    elim (Bool-cases (same_key e.key key)) [
      | inl found ↦
          if-true (Updated key value (e ∷ s)) {b = same_key e.key key} (some here) (behind e more)
            found
            (replaced
              (if-true (λ o. o ≡ some (kept_value value)) {b = same_key e.key key}
                (some (kept_value value)) (lookup key s) found refl)
              (λ k h.
                let apart : same_key e.key k ≡ false = same_key_left e.key key k found ∙ h in
                ap (λ b. if b then some (kept_value value) else lookup k s) apart
                ∙ sym (ap (λ b. if b then some e.value else lookup k s) apart))
              (λ k h.
                let (apart, gone) = if_none (same_key e.key k) e.value (lookup k s) h in
                none_if (same_key e.key k) (kept_value value) (lookup k s) apart gone)
              (λ u. u) refl)
      | inr other ↦
          if-false (Updated key value (e ∷ s)) {b = same_key e.key key} (some here) (behind e more)
            other (behind-Updated key value e s other (update-Updated key value s))
    ]

abbrev pub entry_of : Bytes → Bytes → KeyEntry
entry_of key value = record { key = take (max_key_length - 1) key; value = kept_value value }

pub lookup-append :
    (k : Bytes) (s : List KeyEntry) (e : KeyEntry)
    → lookup k s ≡ none
    → lookup k (s ++ (e ∷ [])) ≡ (if same_key e.key k then some e.value else none)
lookup-append k [] e h = refl
lookup-append k (x ∷ s) e h =
    let (apart, gone) = if_none (same_key x.key k) x.value (lookup k s) h in
    ap (λ b. if b then some x.value else lookup k (s ++ (e ∷ []))) apart ∙ lookup-append k s e gone

pub lookup-append_other :
    (k : Bytes) (s : List KeyEntry) (e : KeyEntry)
    → same_key e.key k ≡ false
    → lookup k (s ++ (e ∷ [])) ≡ lookup k s
lookup-append_other k [] e h = ap (λ b. if b then some e.value else none) h
lookup-append_other k (x ∷ s) e h =
    ap (λ o. if same_key x.key k then some x.value else o) (lookup-append_other k s e h)

pub append-IsUnique :
    (s : List KeyEntry) (e : KeyEntry)
    → lookup e.key s ≡ none
    → IsUnique s
    → IsUnique (s ++ (e ∷ []))
append-IsUnique [] e h u = (refl, refl)
append-IsUnique (x ∷ s) e h (fresh, u) =
    let (apart, gone) = if_none (same_key x.key e.key) x.value (lookup e.key s) h in
    (
      lookup-append_other x.key s e
            (same_sym (take max_key_length e.key) (take max_key_length x.key) ∙ apart)
          ∙ fresh,
      append-IsUnique s e gone u,
    )

pub take_short : (n : ℕ) (s : Bytes) → length s ≤ n → take n s ≡ s
take_short zero [] h = refl
take_short zero (c ∷ s) h = absurd (omega arith)
take_short (suc n) [] h = refl
take_short (suc n) (c ∷ s) h = ap (λ t. c ∷ t) (take_short n s (omega arith))

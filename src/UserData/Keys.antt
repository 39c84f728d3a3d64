-- ===== src/UserData/Keys.antt =====
-- The custom keys of KFCrashUserData.c: the entries of the array up to the count, for those behind are never
-- read. The mutex lets one operation run at a time.
pub mod Updating
pub mod Lookup
use kfcrash.Prelude.{
  ℕ, ◌+◌, ◌-◌, Bool, Option, none, some, List, [], ◌∷◌, ◌++◌, ltb, if◌then◌else◌, Bytes, length,
  get_elem?, take,
}
use kfcrash.Prelude.Int.{ℤ, pos, negsuc}
use kfcrash.Sessions.State.{same}

-- `KFCRASH_MAX_CUSTOM_KEYS`, `KFCRASH_CUSTOM_KEY_MAX_LENGTH` and `KFCRASH_CUSTOM_VALUE_MAX_LENGTH`
abbrev pub max_custom_keys : ℕ
max_custom_keys = 50

abbrev pub max_key_length : ℕ
max_key_length = 128

abbrev pub max_value_length : ℕ
max_value_length = 128

-- `KFCCustomKeyEntry`, its strings without their terminators.
pub record KeyEntry : Type 0 where
  pub key : Bytes
  pub value : Bytes

-- `strncmp(a, b, KFCRASH_CUSTOM_KEY_MAX_LENGTH) == 0`
abbrev pub same_key : Bytes → Bytes → Bool
same_key a b = same (take max_key_length a) (take max_key_length b)

abbrev pub kept_value : Bytes → Bytes
kept_value value = take (max_value_length - 1) value

behind : KeyEntry → Option (List KeyEntry) → Option (List KeyEntry)
behind e none = none
behind e (some entries) = some (e ∷ entries)

-- The loop that updates an entry in place; `none` if it finds none.
pub update : Bytes → Bytes → List KeyEntry → Option (List KeyEntry)
unfolding behind
update key value [] = none
update key value (e ∷ entries) =
    let more = update key value entries in
    if same_key e.key key
    then some (record e { value = kept_value value } ∷ entries)
    else behind e more

-- Behind that loop: a new entry, if there is room.
added : Bytes → Bytes → List KeyEntry → Option (List KeyEntry) → List KeyEntry
added key value entries (some updated) = updated
added key value entries none =
    if ltb (length entries) max_custom_keys
    then entries ++ (record { key = take (max_key_length - 1) key; value = kept_value value } ∷ [])
    else entries

unfoldable pub set_custom_key : Option Bytes → Option Bytes → List KeyEntry → List KeyEntry
unfolding added update
set_custom_key none value entries = entries
set_custom_key (some key) none entries = entries
set_custom_key (some key) (some value) entries = added key value entries (update key value entries)

-- The entries behind the first one with the key move down.
remove_entry : Bytes → List KeyEntry → List KeyEntry
remove_entry key [] = []
remove_entry key (e ∷ entries) =
    let more = remove_entry key entries in if same_key e.key key then entries else e ∷ more

unfoldable pub remove_custom_key : Option Bytes → List KeyEntry → List KeyEntry
unfolding remove_entry
remove_custom_key none entries = entries
remove_custom_key (some key) entries = remove_entry key entries

unfoldable pub clear_custom_keys : List KeyEntry → List KeyEntry
clear_custom_keys entries = []

-- `none` for `false`.
unfoldable pub get_custom_key_at : ℤ → List KeyEntry → Option KeyEntry
get_custom_key_at (negsuc n) entries = none
get_custom_key_at (pos index) entries = get_elem? entries index

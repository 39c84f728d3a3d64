-- ===== src/UserData/Tests.antt =====
-- Runs of the breadcrumbs and of the custom keys.
use kfcrash.Prelude.{
  ℕ, zero, suc, ◌-◌, ◌≡◌, refl, none, some, List, [], ◌∷◌, arith, Bytes, codes, length, get_elem?,
  drop, replicate,
}
use kfcrash.Prelude.Int.{pos}
use kfcrash.UserData.Breadcrumbs.{
  max_breadcrumbs, Breadcrumbs, add_breadcrumb, clear_breadcrumbs, get_breadcrumb_at,
}
use kfcrash.UserData.Breadcrumbs.Recent.{
  Call, add, clear, all_called, all_told, get_breadcrumb_at_recent,
}
use kfcrash.UserData.Keys.{KeyEntry, set_custom_key, remove_custom_key}
use kfcrash.UserData.Keys.Updating.{lookup}
use kfcrash.UserData.Keys.Lookup.{IsTable, remove_custom_key_lem}

-- More messages than there is room for.
abbrev many : ℕ → List Call
many zero = add (some (codes "last")) 7 ∷ []
many (suc n) = add (some (codes "m")) n ∷ many n

abbrev some_calls : List Call
some_calls = add (some (codes "lost")) 1 ∷ clear ∷ add none 2 ∷ many 104

abbrev unused : Breadcrumbs
unused = record { entries = []; write_index = 0; count = 0 }

wraps_round :
    get_breadcrumb_at (pos 99) (all_called some_calls (clear_breadcrumbs unused))
    ≡ some (record { timestamp = 7; message = codes "last" })
unfolding get_breadcrumb_at clear_breadcrumbs add_breadcrumb
wraps_round = refl

get_breadcrumb_at_recent_example :
    let s = all_called some_calls (clear_breadcrumbs unused) in
    let history = all_told some_calls [] in
    let recent = drop (length history - max_breadcrumbs) history in
    (get_breadcrumb_at (pos 99) s ≡ get_elem? recent 99) × (s.count ≡ length recent)
get_breadcrumb_at_recent_example = get_breadcrumb_at_recent some_calls unused 99

abbrev two_keys : List KeyEntry
two_keys =
    record { key = codes "user"; value = codes "7" }
    ∷ record { key = codes "build"; value = codes "1.2" }
    ∷ []

two_keys-IsTable : IsTable two_keys
two_keys-IsTable = (omega arith, (refl, (refl, refl)))

remove_custom_key_lem_example :
    let s' = remove_custom_key (some (codes "user")) two_keys in
    (lookup (codes "build") s' ≡ some (codes "1.2")) × IsTable s'
remove_custom_key_lem_example =
    remove_custom_key_lem (codes "user") two_keys (codes "build") two_keys-IsTable

-- A key of 128 bytes is stored with 127, and is not found again.
abbrev long_key : Bytes
long_key = replicate 128 b'k'

long_key_twice :
    let once = set_custom_key (some long_key) (some (codes "1")) [] in
    length (set_custom_key (some long_key) (some (codes "2")) once) ≡ 2
unfolding set_custom_key
long_key_twice = refl

-- ===== src/Json/Encode/Brackets.antt =====
-- The brackets of a container in the encoder of KFCJSONCodec.c, into a sink that accepts every text.
use kfcrash.Prelude.{
  ℕ, zero, suc, ◌+◌, ◌-◌, ◌≤◌, ◌<◌, ◌≡◌, refl, ap, ◌∙◌, Bool, true, false, not, ◌&&◌, Option, none,
  some, List, [], ◌∷◌, ◌++◌, append_assoc, arith, ltb, ◌==◌, if-true, if-false, Bytes, length,
  get_elem?, set,
}
use kfcrash.Json.Codes.{json_ok}
use kfcrash.Json.Encode.Strings.{to_text, wrote, Gives, then-Gives, line, optional_line-Gives}
use kfcrash.Json.Encode.{
  Encoder, opening, closing, enter, leave, last_line, close_container, end_container,
}

pub get_elem?-set_self :
    (xs : List Bool) (i : ℕ) (v : Bool) → i < length xs → get_elem? (set xs i v) i ≡ some v
get_elem?-set_self [] i v h = absurd (omega arith)
get_elem?-set_self (x ∷ xs) zero v h = refl
get_elem?-set_self (x ∷ xs) (suc i) v h = get_elem?-set_self xs i v (omega arith)

pub get_elem?-set_ne :
    (xs : List Bool) (i j : ℕ) (v : Bool) → j < i → get_elem? (set xs i v) j ≡ get_elem? xs j
get_elem?-set_ne [] i j v h = refl
get_elem?-set_ne (x ∷ xs) zero j v h = absurd (omega arith)
get_elem?-set_ne (x ∷ xs) (suc i) zero v h = refl
get_elem?-set_ne (x ∷ xs) (suc i) (suc j) v h = get_elem?-set_ne xs i j v (omega arith)

-- The kinds of containers up to `level` are the same.
abbrev pub SameKinds : ℕ → List Bool → List Bool → Type 0
SameKinds level a b = (length b ≡ length a) × ((i : ℕ) → i ≤ level → get_elem? b i ≡ get_elem? a i)

abbrev pub entered : Bool → Encoder Bytes → Encoder Bytes
entered object e = record e {
  container_level = e.container_level + 1;
  is_object = set e.is_object (e.container_level + 1) object;
  container_first_entry = true;
  sink = e.sink ++ opening object;
}

-- What stands behind the last entry: a line of its own, if there are entries.
abbrev pub ending : Bool → Bool → ℕ → Bool → Bytes
ending pretty empty level object = line (pretty && not empty) level ++ closing object

abbrev pub closed_to : Encoder Bytes → Bytes → Encoder Bytes
closed_to e s = record e {
  container_level = e.container_level - 1;
  container_first_entry = false;
  sink = s;
}

pub enter-Gives :
    (object : Bool) (e : Encoder Bytes)
    → e.container_level + 1 < 200
    → Gives (enter to_text object) e (entered object e)
unfolding enter
enter-Gives object e h =
    if-true (λ (o : Option (ℕ × Encoder Bytes)). o ≡ some (json_ok, entered object e))
      {b = ltb (e.container_level + 1) 200} _ none (ground (arith, h)) refl

last_line-Gives :
    (e : Encoder Bytes)
    → Gives
        (last_line to_text)
        e
        (wrote e (line (e.pretty_print && not e.container_first_entry) e.container_level))
unfolding last_line
last_line-Gives e = optional_line-Gives (e.pretty_print && not e.container_first_entry) e

pub end_container-Gives :
    (object : Bool) (e : Encoder Bytes)
    → 0 < e.container_level
    → get_elem? e.is_object e.container_level ≡ some object
    → Gives (end_container to_text) e (
        closed_to e
          (e.sink ++ ending e.pretty_print e.container_first_entry (e.container_level - 1) object))
unfolding end_container close_container leave
end_container-Gives object e h kind =
    let level = e.container_level - 1 in
    let e' : Encoder Bytes = record e { container_level = level } in
    let l = line (e.pretty_print && not e.container_first_entry) level in
    if-false
      (λ (o : Option (ℕ × Encoder Bytes)).
        o
        ≡ some (
          json_ok,
          closed_to e (e.sink ++ ending e.pretty_print e.container_first_entry level object),
        ))
      {b = e.container_level == 0} (some (json_ok, e)) _ (ground (arith, h))
      (ap (λ o. close_container to_text o e) kind
        ∙ then-Gives (last_line to_text) (leave to_text object) e' (last_line-Gives e') refl
        ∙ ap (λ s. some (json_ok, closed_to e s)) (append_assoc e.sink l (closing object)))

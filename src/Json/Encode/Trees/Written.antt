-- ===== src/Json/Encode/Trees/Written.antt =====
-- The encoder of KFCJSONCodec.c writes the text of a value.
use kfcrash.Prelude.{
  ℕ, ◌+◌, ◌-◌, ◌<◌, ◌≡◌, refl, sym, ap, ap₂, subst, ◌∙◌, Bool, true, false, ◌&&◌, Option, none,
  some, List, [], ◌++◌, append_assoc, arith, ltb, if◌then◌else◌, Bytes, length, get_elem?,
  length-set, length-replicate,
}
use kfcrash.Json.Codes.{json_ok}
use kfcrash.Json.Escape.{escape_loop, joined}
use kfcrash.Json.Escape.Laws.{joined-eq-some}
use kfcrash.Json.Number.{FloatOps}
use kfcrash.Json.Encode.Leaves.{add_leaf-Gives}
use kfcrash.Json.Encode.Strings.{
  to_text, wrote, wrote_nothing, Gives, some-inj, then-Gives, line, comma, key, lead, led,
  begin_element-Gives,
}
use kfcrash.Json.Encode.{
  Encoder, Call, ◌then◌, begin_element, opening, enter, end_container, begin_array, begin_object,
  end_encode, begin_encode,
}
use kfcrash.Json.Encode.Brackets.{
  get_elem?-set_self, get_elem?-set_ne, SameKinds, entered, ending, closed_to, enter-Gives,
  end_container-Gives,
}
use kfcrash.Json.Encode.Trees.{
  Tree, Entries, leaf, container, no_more, entry, first_after, when, lead_text, text_of,
  entries_text, begin_container, add_tree, add_entries,
}

pub when-eq-some :
    (b : Bool) (o : Option Bytes) (t : Bytes) → when b o ≡ some t → (b ≡ true) × (o ≡ some t)
when-eq-some true o t h = (refl, h)
when-eq-some false o t h = absurd (cc)

pub lead_text-eq-some :
    (pretty : Bool) (level : ℕ) (first object : Bool) (o : Option Bytes) (l : Bytes)
    → lead_text pretty level first object o ≡ some l
    → (q : Bytes) × (o ≡ some q)
      × (l ≡ comma first ++ (line (pretty && ltb 0 level) level ++ key pretty object q))
lead_text-eq-some pretty level first object none l h = absurd (cc)
lead_text-eq-some pretty level first object (some q) l h = (q, refl, sym (some-inj h))

-- The call writes the text and leaves the encoder at its level, with the kinds of the containers that
-- are open.
abbrev pub Writes : Call Bytes → Encoder Bytes → Bytes → Bool → Type 0
Writes m e text first =
    (kinds : List Bool) × Gives m e
      (record e { is_object = kinds; container_first_entry = first; sink = e.sink ++ text })
    × SameKinds e.container_level e.is_object kinds

append_four :
    (s l o it end : Bytes) → (((s ++ l) ++ o) ++ it) ++ end ≡ s ++ (l ++ (o ++ (it ++ end)))
append_four s l o it end =
    append_assoc ((s ++ l) ++ o) it end
    ∙ append_assoc (s ++ l) o (it ++ end)
    ∙ append_assoc s l (o ++ (it ++ end))

minus_one : (n : ℕ) → n + 1 - 1 ≡ n
minus_one n = omega arith

first_after-false : {F : Type 0} (es : Entries F) → first_after false es ≡ false
first_after-false no_more = refl
first_after-false (entry name t rest) = refl

abbrev ended : Encoder Bytes → List Bool → ℕ → Bytes → Option (ℕ × Encoder Bytes)
ended e kinds level text = some (
  json_ok,
  record e {
    container_level = level;
    is_object = kinds;
    container_first_entry = false;
    sink = e.sink ++ text;
  },
)

module _ {F : Type 0} (ops : FloatOps F) where
  begin_container-Gives :
      (name q : Bytes) (object inner : Bool) (e : Encoder Bytes)
      → e.container_level + 1 < 200
      → get_elem? e.is_object e.container_level ≡ some object
      → escape_loop name ≡ some q
      → Gives (begin_container ops inner name) e (entered inner (led e (lead e object q)))
  unfolding begin_container begin_array begin_object
  begin_container-Gives name q object true e room kind h =
      then-Gives (begin_element to_text (some name)) (enter to_text true) e
        (begin_element-Gives name q object e kind h)
        (enter-Gives true (led e (lead e object q)) room)
  begin_container-Gives name q object false e room kind h =
      then-Gives (begin_element to_text (some name)) (enter to_text false) e
        (begin_element-Gives name q object e kind h)
        (enter-Gives false (led e (lead e object q)) room)

  container-Writes :
      (name q it : Bytes) (object inner : Bool) (entries : Entries F) (e : Encoder Bytes)
      → length e.is_object ≡ 200
      → get_elem? e.is_object e.container_level ≡ some object
      → escape_loop name ≡ some q
      → e.container_level + 1 < 200
      → Writes
          (add_entries ops entries)
          (entered inner (led e (lead e object q)))
          it
          (first_after true entries)
      → Writes
          (add_tree ops name (container inner entries))
          e
          (lead e object q
            ++ (opening inner
                ++ (it
                    ++ ending e.pretty_print (first_after true entries) e.container_level inner)))
          false
  unfolding add_tree
  container-Writes name q it object inner entries e size kind h room (kinds, gives, same) =
      let level = e.container_level in
      let l = lead e object q in
      let first = first_after true entries in
      let e1 : Encoder Bytes = entered inner (led e l) in
      let e2 : Encoder Bytes = record e1 {
        is_object = kinds;
        container_first_entry = first;
        sink = e1.sink ++ it;
      } in
      let closing_text = λ (n : ℕ). ending e.pretty_print first n inner in
      let finished = λ (n : ℕ). ended e kinds n (l ++ (opening inner ++ (it ++ closing_text n))) in
      let here =
        same.1 (level + 1) (omega arith)
        ∙ get_elem?-set_self e.is_object (level + 1) inner (omega (arith, size)) in
      let called =
        then-Gives (begin_container ops inner name then add_entries ops entries)
          (end_container to_text) e
          (then-Gives (begin_container ops inner name) (add_entries ops entries) e
            (begin_container-Gives name q object inner e room kind h) gives)
          (end_container-Gives inner e2 (omega arith) here) in
      (
        kinds,
        called
            ∙ ap (λ s. some (json_ok, closed_to e2 s))
                (append_four e.sink l (opening inner) it (closing_text (level + 1 - 1)))
            ∙ ap finished (minus_one level),
        (
          same.0 ∙ length-set e.is_object (level + 1) inner,
          λ i below.
              same.1 i (omega arith)
              ∙ get_elem?-set_ne e.is_object (level + 1) i inner (omega arith),
        ),
      )

  entry-Writes :
      (name q x y : Bytes) (object : Bool) (t : Tree F) (rest : Entries F) (e : Encoder Bytes)
      → (w : Writes (add_tree ops name t) e x false)
      → Writes
          (add_entries ops rest)
          (record e { is_object = w.0; container_first_entry = false; sink = e.sink ++ x })
          y
          (first_after false rest)
      → Writes (add_entries ops (entry name t rest)) e (x ++ y) false
  unfolding add_tree
  entry-Writes name q x y object t rest e (kinds, gives, same) (kinds', gives', same') = (
    kinds',
    then-Gives (add_tree ops name t) (add_entries ops rest) e gives gives'
        ∙ ap₂
            (λ b s.
              some (json_ok, record e { is_object = kinds'; container_first_entry = b; sink = s }))
            (first_after-false rest) (append_assoc e.sink x y),
    (same'.0 ∙ same.0, λ i below. same'.1 i below ∙ same.1 i below),
  )

  mutual
    unfolding add_tree text_of

    tree-Writes :
        (name q text : Bytes) (object : Bool) (t : Tree F) (e : Encoder Bytes)
        → length e.is_object ≡ 200
        → get_elem? e.is_object e.container_level ≡ some object
        → escape_loop name ≡ some q
        → text_of ops e.pretty_print e.container_level t ≡ some text
        → Writes (add_tree ops name t) e (lead e object q ++ text) false
    tree-Writes name q text object (leaf s) e size kind h f =
        (e.is_object, add_leaf-Gives ops name q text object s e kind h f, (refl, λ i l. refl))
    tree-Writes name q text object (container inner entries) e size kind h f =
        let level = e.container_level in
        let (room, body) = when-eq-some (ltb (level + 1) 200) _ text f in
        let (o, more, ho, hm, split) = joined-eq-some (some (opening inner)) _ text body in
        let (it, end, hit, hend, split') =
          joined-eq-some (entries_text ops e.pretty_print (level + 1) true inner entries) _ more
            hm in
        let below : level + 1 < 200 = ground (arith, room) in
        let w =
          entries-Writes it inner entries (entered inner (led e (lead e object q)))
            (length-set e.is_object (level + 1) inner ∙ size)
            (get_elem?-set_self e.is_object (level + 1) inner (omega (arith, size))) hit in
        subst
          (λ u. Writes (add_tree ops name (container inner entries)) e (lead e object q ++ u) false)
          (ap₂ (λ a b. a ++ b) (some-inj ho) (ap (λ z. it ++ z) (some-inj hend) ∙ sym split')
            ∙ sym split)
          (container-Writes name q it object inner entries e size kind h below w)

    entries-Writes :
        (text : Bytes) (object : Bool) (es : Entries F) (e : Encoder Bytes)
        → length e.is_object ≡ 200
        → get_elem? e.is_object e.container_level ≡ some object
        → entries_text ops e.pretty_print e.container_level e.container_first_entry object es
          ≡ some text
        → Writes (add_entries ops es) e text (first_after e.container_first_entry es)
    entries-Writes text object no_more e size kind f = (
      e.is_object,
      ap (λ e'. some (json_ok, e')) (wrote_nothing e ∙ ap (wrote e) (some-inj f)),
      (refl, λ i l. refl),
    )
    entries-Writes text object (entry name t rest) e size kind f =
        let level = e.container_level in
        let (x, y, hx, hy, split) =
          joined-eq-some
            (joined
              (lead_text e.pretty_print level e.container_first_entry object (escape_loop name))
              (text_of ops e.pretty_print level t))
            _ text f in
        let (l, u, hl, hu, split') =
          joined-eq-some
            (lead_text e.pretty_print level e.container_first_entry object (escape_loop name)) _ x
            hx in
        let (q, hq, el) =
          lead_text-eq-some e.pretty_print level e.container_first_entry object (escape_loop name) l
            hl in
        let w = tree-Writes name q u object t e size kind hq hu in
        let w' =
          entries-Writes y object rest
            (record e {
              is_object = w.0;
              container_first_entry = false;
              sink = e.sink ++ (lead e object q ++ u);
            })
            (w.2.0 ∙ size) (w.2.1 level (omega arith) ∙ kind) hy in
        subst (λ v. Writes (add_entries ops (entry name t rest)) e v false)
          (ap (λ z. z ++ y) (ap (λ z. z ++ u) (sym el) ∙ sym split') ∙ sym split)
          (entry-Writes name q (lead e object q ++ u) y object t rest e w w')

lead_root : (pretty : Bool) → lead (begin_encode pretty []) false [] ≡ []
unfolding begin_encode
lead_root true = refl
lead_root false = refl

module _ {F : Type 0} (ops : FloatOps F) where
  -- Into a sink that accepts every text, the calls for a value between `ksjson_beginEncode` and
  -- `ksjson_endEncode` succeed and write the text of the value, pretty or not, wherever it
  -- has one: that is, if it nests below level 200, its numbers fit their buffers, and its strings and
  -- the names of its entries hold no control characters but those that have an escape.
  pub encode_tree :
      (pretty : Bool) (t : Tree F) (text : Bytes)
      → text_of ops pretty 0 t ≡ some text
      → (e : Encoder Bytes) × ((add_tree ops [] t then end_encode to_text) (begin_encode pretty [])
          ≡ some (json_ok, e))
        × (e.sink ≡ text)
  unfolding end_encode begin_encode escape_loop
  encode_tree pretty t text h =
      let start : Encoder Bytes = begin_encode pretty [] in
      let (kinds, gives, same) =
        tree-Writes ops [] [] text false t start (length-replicate 200 false) refl refl h in
      (
        _,
        then-Gives (add_tree ops [] t) (end_encode to_text) start gives refl,
        ap (λ l. l ++ text) (lead_root pretty),
      )

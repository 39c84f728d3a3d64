-- ===== src/Json/Insertion/Tests.antt =====
-- JSON text added to an encoding by `ksjson_addJSONElement` of KFCJSONCodec.c, on small inputs.
use kfcrash.Prelude.{
  ℕ, ◌-◌, ◌≤◌, ◌<◌, ◌≡◌, refl, subst, true, false, none, some, [], arith, ltb, if◌then◌else◌,
  if-elim, Bytes, codes, length, set, replicate,
}
use kfcrash.Prelude.Int.{pos}
use kfcrash.Json.Codes.{json_ok, data_too_long}
use kfcrash.Json.Escape.{escape_loop}
use kfcrash.Json.Number.{format_i64}
use kfcrash.Json.Encode.{
  Encoder, max_levels, Call, ◌then◌, add_boolean_element, add_integer_element, begin_object,
  begin_array, end_container,
}
use kfcrash.Json.Encode.Strings.{to_text, some-inj}
use kfcrash.Json.Encode.Trees.{Tree, leaf, container, no_more, entry, text_of}
use kfcrash.Json.Events.{text_floats}
use kfcrash.Json.Decode.Scalars.{integer, boolean}
use kfcrash.Json.Decode.Reading.Scalars.{HasRoom}
use kfcrash.Json.Decode.Reading.Trees.{ReadableTree}
use kfcrash.Json.Insertion.{buffers, add_json_element}
use kfcrash.Json.Insertion.Direct.{add_value}
use kfcrash.Json.Insertion.Closing.{add_json_element_lem}

-- `{"a":[1,true]}`
abbrev report_tree : Tree Bytes
report_tree = container true (
    entry (codes "a")
      (container false (entry [] (leaf (integer (pos 1))) (entry [] (leaf (boolean true)) no_more)))
      no_more)

abbrev report_text : Bytes
report_text = codes "{\"a\":[1,true]}"

text_of_report : text_of text_floats false 0 report_tree ≡ some report_text
unfolding text_of escape_loop format_i64
text_of_report = refl

a-HasRoom : HasRoom 100 (codes "a")
unfolding escape_loop
a-HasRoom e h = subst (λ k. length k < 100) (some-inj h) (omega arith)

report-ReadableTree : ReadableTree text_floats (buffers 0) report_tree
report-ReadableTree =
    ((λ o. a-HasRoom), ((λ o. absurd (cc)), omega arith, ((λ o. absurd (cc)), refl, refl)), refl)

-- An encoder behind the `{` of an object.
abbrev in_object : {S : Type 0} → S → Encoder S
in_object sink = record {
  container_level = 1;
  is_object = set (replicate max_levels false) 1 true;
  container_first_entry = true;
  pretty_print = true;
  sink = sink;
}

abbrev direct_calls : Call Bytes
direct_calls =
    begin_object to_text (some (codes "recrash"))
    then (begin_array to_text (some (codes "a"))
        then (add_integer_element to_text none (pos 1)
            then (add_boolean_element to_text none true then end_container to_text))
        then end_container to_text)

-- A sink with a number of bytes left.
abbrev count_down : Bytes → ℕ → ℕ × ℕ
count_down text left =
    if ltb left (length text) then (data_too_long, left) else (json_ok, left - length text)

count_down-small : (text : Bytes) (left : ℕ) → left ≤ 20 → (count_down text left).1 ≤ 20
count_down-small text left small =
    if-elim (λ (r : ℕ × ℕ). r.1 ≤ 20) (ltb left (length text)) small (omega (arith, small))

add_json_element_lem_example :
    (code : ℕ) × (e : Encoder ℕ) × (add_json_element text_floats count_down
        (some (codes "recrash"))
        report_text
        0
        true
        (in_object 20)
      ≡ some (code, e))
    × (e.container_level ≤ 1)
    × (e.sink ≤ 20)
    × (code ≡ 0
        → add_value text_floats count_down
            (end_container count_down)
            (some (codes "recrash"))
            report_tree
            (in_object 20)
          ≡ some (0, e))
add_json_element_lem_example =
    add_json_element_lem text_floats (λ left. left ≤ 20) count_down count_down-small false
      report_tree report_text (some (codes "recrash")) 0 (in_object 20) text_of_report
      report-ReadableTree refl (omega arith)
      (omega arith, ((omega arith, (refl, (refl, refl))), refl)) refl (omega arith)

-- ===== src/Json/Insertion/Direct.antt =====
-- `ksjson_addJSONElement` of KFCJSONCodec.c on an encoded value, against the calls for the value.
use kfcrash.Prelude.{
  ◌∷◌, ◌==◌, if-elim, length, take, ℕ, zero, suc, ◌≡◌, refl, sym, ap, subst, ◌∙◌, Bool, true, false,
  Option, none, some, [], ◌++◌, append-nil, arith, ltb, if◌then◌else◌, Bytes,
}
use kfcrash.Json.Number.{FloatOps}
use kfcrash.Json.Encode.{
  Encoder, Call, after_code, ◌then◌, done, begin_object, begin_element, add_quoted_escaped_string,
  add_boolean_element, add_floating_point_element, add_integer_element, add_uinteger_element,
  add_null_element, add_string_element, begin_array, end_container,
}
use kfcrash.Json.Encode.Trees.{Tree, Entries, leaf, container, no_more, entry, text_of}
use kfcrash.Json.Codes.{c_string, automatic}
use kfcrash.Json.Decode.Scalars.{
  Scalar, null, boolean, integer, unsigned_integer, floating_point, text, skip_whitespace,
}
use kfcrash.Json.Decode.{Parsed, rounds_for, decode_element}
use kfcrash.Json.Decode.Reading.Scalars.{as_read}
use kfcrash.Json.Decode.Reading.Spaces.{skip_whitespace-StartsBlack}
use kfcrash.Json.Decode.Reading.Trees.{
  ReadableTree, name_in, and_then, begin_of, replay, replay_entries, Ends, stops,
}
use kfcrash.Json.Decode.Reading.Marks.{follows}
use kfcrash.Json.Decode.Reading.Elements.{text_of-StartsElement}
use kfcrash.Json.Decode.Reading.Whole.{tree-Ends}
use kfcrash.Json.Insertion.{
  Inserting, inserting, answered, on_encoder, buffers, add_scalar, on_end_container, callbacks,
  with_code, close_down, shut, returned, add_json_element,
}

module _ {F S : Type 0} (ops : FloatOps F) (add_json_data : Bytes → S → ℕ × S) where
  unfoldable pub begin_container : Bool → Option Bytes → Call S
  begin_container true name = begin_object add_json_data name
  begin_container false name = begin_array add_json_data name

  -- The call for a value without entries.
  unfoldable pub scalar_call : Option Bytes → Scalar F → Call S
  scalar_call name null = add_null_element add_json_data name
  scalar_call name (boolean b) = add_boolean_element add_json_data name b
  scalar_call name (integer i) = add_integer_element add_json_data name i
  scalar_call name (unsigned_integer n) = add_uinteger_element add_json_data name n
  scalar_call name (floating_point v) = add_floating_point_element add_json_data ops name v
  scalar_call name (text t) = add_string_element add_json_data name (some t) automatic

  -- The calls for a value, with the call that ends a container as given.
  unfoldable mutual
    unfolding begin_container scalar_call

    pub add_value : Call S → Option Bytes → Tree F → Call S
    add_value end name (leaf s) = scalar_call name (as_read s)
    add_value end name (container object entries) =
        begin_container object name then add_values end object entries

    pub add_values : Call S → Bool → Entries F → Call S
    add_values end object no_more = end
    add_values end object (entry name t rest) =
        add_value end (name_in object name) t then add_values end object rest

  -- A container is ended; where the last one stays open, only from the third level on.
  unfoldable pub ending_call : Bool → Call S
  ending_call true = end_container add_json_data
  ending_call false = λ e. if ltb 2 e.container_level then end_container add_json_data e else done e

  answered-and_then :
      (r : Option (ℕ × Encoder S)) (k : Call S) (f : Inserting S → ℕ × Inserting S)
      → ((e : Encoder S) → f (inserting e) ≡ answered (k e))
      → and_then (answered r) f ≡ answered (after_code r k)
  unfolding answered
  answered-and_then none k f h = refl
  answered-and_then (some (zero, e)) k f h = h e
  answered-and_then (some (suc code, e)) k f h = refl

  on_end_container-ending_call :
      (close : Bool) (e : Encoder S)
      → on_end_container ops add_json_data close e ≡ ending_call close e
  unfolding on_end_container ending_call
  on_end_container-ending_call true e = refl
  on_end_container-ending_call false e = refl

  begin_of-begin_container :
      (close object : Bool) (name : Option Bytes) (e : Encoder S)
      → begin_of (callbacks ops add_json_data close) object name (inserting e)
        ≡ answered (begin_container object name e)
  unfolding begin_of callbacks on_encoder begin_container
  begin_of-begin_container close true name e = refl
  begin_of-begin_container close false name e = refl

  -- As many bytes as there are before the first NUL are the string of C.
  take-c_string : (t : Bytes) → take (length (c_string t)) t ≡ c_string t
  take-c_string [] = refl
  take-c_string (c ∷ t) =
      if-elim (λ (s : Bytes). take (length s) (c ∷ t) ≡ s) (c == 0) refl
        (ap (λ s. c ∷ s) (take-c_string t))

  add_scalar-scalar_call :
      (name : Option Bytes) (s : Scalar F)
      → add_scalar ops add_json_data name s ≡ scalar_call name s
  unfolding add_scalar scalar_call add_string_element
  add_scalar-scalar_call name null = refl
  add_scalar-scalar_call name (boolean b) = refl
  add_scalar-scalar_call name (integer i) = refl
  add_scalar-scalar_call name (unsigned_integer n) = refl
  add_scalar-scalar_call name (floating_point v) = refl
  add_scalar-scalar_call name (text t) =
      ap (λ s. begin_element add_json_data name then add_quoted_escaped_string add_json_data s)
        (take-c_string t)

  mutual
    unfolding replay add_value callbacks on_encoder

    replay-add_value :
        (close : Bool) (name : Option Bytes) (t : Tree F) (e : Encoder S)
        → replay (callbacks ops add_json_data close) name t (inserting e)
          ≡ answered (add_value (ending_call close) name t e)
    replay-add_value close name (leaf s) e =
        ap (λ (m : Call S). answered (m e)) (add_scalar-scalar_call name (as_read s))
    replay-add_value close name (container object es) e =
        let more = replay_entries (callbacks ops add_json_data close) object es in
        ap (λ r. and_then r more) (begin_of-begin_container close object name e)
        ∙ answered-and_then (begin_container object name e)
            (add_values (ending_call close) object es) more
            (replay_entries-add_values close object es)

    replay_entries-add_values :
        (close object : Bool) (es : Entries F) (e : Encoder S)
        → replay_entries (callbacks ops add_json_data close) object es (inserting e)
          ≡ answered (add_values (ending_call close) object es e)
    replay_entries-add_values close object no_more e =
        ap answered (on_end_container-ending_call close e)
    replay_entries-add_values close object (entry name t rest) e =
        let more = replay_entries (callbacks ops add_json_data close) object rest in
        ap (λ r. and_then r more) (replay-add_value close (name_in object name) t e)
        ∙ answered-and_then (add_value (ending_call close) (name_in object name) t e)
            (add_values (ending_call close) object rest) more
            (replay_entries-add_values close object rest)

  abbrev pub keep_code : ℕ → Option (Encoder S) → Option (ℕ × Encoder S)
  keep_code code none = none
  keep_code code (some e) = some (code, e)

  -- What is left of a call's result: where the last container is closed, the levels above the given one
  -- are taken off, and the code is kept.
  unfoldable pub shut_after : Bool → ℕ → Option (ℕ × Encoder S) → Option (ℕ × Encoder S)
  shut_after close level none = none
  shut_after false level (some (code, e)) = some (code, e)
  shut_after true level (some (code, e)) =
      keep_code code (close_down ops add_json_data e.container_level level e)

  with_code-keep_code : (code : ℕ) (o : Option (Encoder S)) → with_code code o ≡ keep_code code o
  unfolding with_code
  with_code-keep_code code none = refl
  with_code-keep_code code (some e) = refl

  shut-shut_after :
      (close : Bool) (level code : ℕ) (e : Encoder S)
      → shut ops add_json_data close level code e ≡ shut_after close level (some (code, e))
  unfolding shut shut_after
  shut-shut_after false level code e = refl
  shut-shut_after true level code e = with_code-keep_code code _

  returned-Ends :
      (close : Bool) (level : ℕ) (rest : Bytes) (r : Option (ℕ × Encoder S))
      (p : Parsed (Inserting S))
      → Ends rest (answered r) p
      → returned ops add_json_data close level p ≡ shut_after close level r
  unfolding returned answered shut_after
  returned-Ends close level rest none p stops = refl
  returned-Ends close level rest (some (zero, e)) p Ends.done = shut-shut_after close level 0 e
  returned-Ends close level rest (some (suc code, e)) p stops =
      shut-shut_after close level (suc code) e

  pub add_json_element_encoded :
      (pretty : Bool) (t : Tree F) (json_data : Bytes) (name : Option Bytes) (beyond : ℕ)
      (close_last_container : Bool) (e : Encoder S)
      → text_of ops pretty 0 t ≡ some json_data
      → ReadableTree ops (buffers beyond) t
      → follows t [] ≡ true
      → add_json_element ops add_json_data name json_data beyond close_last_container e
        ≡ shut_after close_last_container e.container_level
            (add_value (ending_call close_last_container) name t e)
  unfolding add_json_element
  add_json_element_encoded pretty t json_data name beyond close e h readable alone =
      let limits = buffers beyond in
      let calls = callbacks ops add_json_data close in
      let rounds = rounds_for json_data in
      let (c, s, p, black, other) =
        text_of-StartsElement ops limits calls pretty 0 t json_data [] h readable alone in
      let at : skip_whitespace json_data ≡ json_data ++ [] =
        ap skip_whitespace (sym (append-nil json_data))
        ∙ skip_whitespace-StartsBlack json_data [] (c, s, p, black) in
      returned-Ends close e.container_level [] (add_value (ending_call close) name t e) _ (
        subst (λ r. Ends [] r (decode_element ops limits calls rounds name json_data (inserting e)))
          (replay-add_value close name t e)
          (tree-Ends ops limits calls pretty 0 t json_data [] json_data name rounds (inserting e) h
            readable alone at (omega arith)))

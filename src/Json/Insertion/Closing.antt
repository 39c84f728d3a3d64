-- ===== src/Json/Insertion/Closing.antt =====
-- The levels that `ksjson_addJSONElement` of KFCJSONCodec.c opens and closes, whatever the sink answers.
use kfcrash.Prelude.{
  ℕ, zero, suc, ◌+◌, ◌-◌, ◌≤◌, ◌<◌, ◌≡◌, refl, sym, subst, inl, inr, Bool, true, false, Option,
  none, some, [], arith, ltb, Bool-cases, if-true, if-false, Bytes, length,
}
use kfcrash.Json.Codes.{automatic}
use kfcrash.Json.Number.{FloatOps}
use kfcrash.Json.Encode.{Encoder, max_levels, Call, after_code, end_container}
use kfcrash.Json.Encode.Safe.{Sound, Within, within, Within-le, Steady}
use kfcrash.Json.Encode.Calls.{
  add_boolean_element-Steady, add_null_element-Steady, add_integer_element-Steady,
  add_uinteger_element-Steady, add_floating_point_element-Steady, add_string_element-Steady,
}
use kfcrash.Json.Encode.Levels.{begin_array-Within, begin_object-Within, end_container-Within}
use kfcrash.Json.Encode.Trees.{Tree, Entries, leaf, container, no_more, entry, text_of}
use kfcrash.Json.Decode.Scalars.{
  Scalar, boolean, null, integer, unsigned_integer, floating_point, text,
}
use kfcrash.Json.Decode.Reading.Scalars.{as_read}
use kfcrash.Json.Decode.Reading.Trees.{ReadableTree, name_in}
use kfcrash.Json.Decode.Reading.Marks.{follows}
use kfcrash.Json.Insertion.{buffers, close_down, forget_code, add_json_element}
use kfcrash.Json.Insertion.Direct.{
  begin_container, keep_code, scalar_call, add_value, add_values, ending_call, shut_after,
  add_json_element_encoded,
}

-- A value that fits the levels below one.
abbrev mutual
  pub FitsAt : {F : Type 0} → ℕ → Tree F → Type 0
  FitsAt level (leaf s) = true ≡ true
  FitsAt level (container object entries) = level + 1 < max_levels × AllFitAt (level + 1) entries

  pub AllFitAt : {F : Type 0} → ℕ → Entries F → Type 0
  AllFitAt level no_more = true ≡ true
  AllFitAt level (entry name t rest) = FitsAt level t × AllFitAt level rest

module _ {S : Type 0} (P : S → Type 0) where
  -- A call that went back to the level `n`, or failed below some level.
  data Back (n : ℕ) : Option (ℕ × Encoder S) → Type 0 where
    back : {e : Encoder S} → Sound P n e → Back n (some (zero, e))
    stopped : {code : ℕ} {e : Encoder S} → Sound P 199 e → Back n (some (suc code, e))

  Within-Back : (n : ℕ) {r : Option (ℕ × Encoder S)} → n < max_levels → Within P n r → Back n r
  Within-Back n below (within {code = zero} s) = back s
  Within-Back n below (within {code = suc code} s) =
      stopped (record { level = omega (arith, s.level); size = s.size; kept = s.kept })

  after_code-Back :
      (m n : ℕ) {r : Option (ℕ × Encoder S)} (k : Call S)
      → ((e : Encoder S) → Sound P m e → Back n (k e))
      → Back m r
      → Back n (after_code r k)
  after_code-Back m n k h (back {e} s) = h e s
  after_code-Back m n k h (stopped s) = stopped s

  -- An encoder at the level `n` at most.
  data Down (n : ℕ) : Option (Encoder S) → Type 0 where
    down : {e : Encoder S} → Sound P n e → Down n (some e)

  forget_code-Down :
      (m n : ℕ) {r : Option (ℕ × Encoder S)} (more : Encoder S → Option (Encoder S))
      → ((e : Encoder S) → Sound P m e → Down n (more e))
      → Within P m r
      → Down n (forget_code more r)
  unfolding forget_code
  forget_code-Down m n more h (within {e} s) = h e s

module _ {F S : Type 0} (ops : FloatOps F) (P : S → Type 0) (add_json_data : Bytes → S → ℕ × S)
    (keeps : (text : Bytes) (sink : S) → P sink → P (add_json_data text sink).1) where
  scalar_call-Steady :
      (name : Option Bytes) (s : Scalar F) → Steady P (scalar_call ops add_json_data name s)
  unfolding scalar_call
  scalar_call-Steady name (boolean b) = add_boolean_element-Steady P add_json_data keeps name b
  scalar_call-Steady name null = add_null_element-Steady P add_json_data keeps name
  scalar_call-Steady name (integer i) = add_integer_element-Steady P add_json_data keeps name i
  scalar_call-Steady name (unsigned_integer n) =
      add_uinteger_element-Steady P add_json_data keeps name n
  scalar_call-Steady name (floating_point v) =
      add_floating_point_element-Steady P add_json_data keeps ops name v
  scalar_call-Steady name (text t) =
      add_string_element-Steady P add_json_data keeps name (some t) automatic

  begin_container-Within :
      (object : Bool) (name : Option Bytes) (n : ℕ) (e : Encoder S)
      → n + 1 < max_levels
      → Sound P n e
      → Within P (n + 1) (begin_container ops add_json_data object name e)
  unfolding begin_container
  begin_container-Within true name n e = begin_object-Within P add_json_data keeps name n e
  begin_container-Within false name n e = begin_array-Within P add_json_data keeps name n e

  mutual
    unfolding add_value

    add_value-Back :
        (n : ℕ) (name : Option Bytes) (t : Tree F) (e : Encoder S)
        → n < max_levels
        → FitsAt n t
        → Sound P n e
        → Back P n (add_value ops add_json_data (end_container add_json_data) name t e)
    add_value-Back n name (leaf v) e below fits s =
        Within-Back P n below (scalar_call-Steady name (as_read v) n e below s)
    add_value-Back n name (container object es) e below (room, fit) s =
        after_code-Back P (n + 1) n
          (add_values ops add_json_data (end_container add_json_data) object es)
          (λ e' s'. add_values-Back n object es e' room fit s')
          (Within-Back P (n + 1) room (begin_container-Within object name n e room s))

    add_values-Back :
        (n : ℕ) (object : Bool) (es : Entries F) (e : Encoder S)
        → n + 1 < max_levels
        → AllFitAt (n + 1) es
        → Sound P (n + 1) e
        → Back P n (add_values ops add_json_data (end_container add_json_data) object es e)
    add_values-Back n object no_more e room fit s = Within-Back P n (omega arith) (
        Within-le P ((n + 1) - 1) n (omega arith)
          (end_container-Within P add_json_data keeps (n + 1) e room s))
    add_values-Back n object (entry name t rest) e room (fits, fit) s =
        after_code-Back P (n + 1) n
          (add_values ops add_json_data (end_container add_json_data) object rest)
          (λ e' s'. add_values-Back n object rest e' room fit s')
          (add_value-Back (n + 1) (name_in object name) t e room fits s)

  close_down-Down :
      (rounds n : ℕ) (e : Encoder S)
      → rounds < max_levels
      → Sound P rounds e
      → Down P n (close_down ops add_json_data rounds n e)
  unfolding close_down
  close_down-Down zero n e below s =
      down (record { level = omega (arith, s.level); size = s.size; kept = s.kept })
  close_down-Down (suc rounds) n e below s = elim (Bool-cases (ltb n e.container_level)) [
    | inl above ↦ if-true (Down P n) {b = ltb n e.container_level} _ (some e) above (
        forget_code-Down P rounds n (close_down ops add_json_data rounds n)
          (λ e' s'. close_down-Down rounds n e' (omega arith) s')
          (Within-le P (suc rounds - 1) rounds (omega arith)
            (end_container-Within P add_json_data keeps (suc rounds) e below s)))
    | inr low ↦
        if-false (Down P n) {b = ltb n e.container_level} _ (some e) low
          (down (record { level = ground (arith, low); size = s.size; kept = s.kept }))
  ]

  close_down_low :
      (rounds n : ℕ) (e : Encoder S)
      → e.container_level ≤ n
      → close_down ops add_json_data rounds n e ≡ some e
  unfolding close_down
  close_down_low zero n e low = refl
  close_down_low (suc rounds) n e low =
      if-false (λ (o : Option (Encoder S)). o ≡ some e) {b = ltb n e.container_level} _ (some e)
        (ground (arith, low)) refl

  -- What is left when the levels are closed.
  data Result (n : ℕ) (r : Option (ℕ × Encoder S)) : Option (ℕ × Encoder S) → Type 0 where
    gives :
        {code : ℕ} {e : Encoder S}
        → Sound P n e
        → (code ≡ 0 → r ≡ some (0, e))
        → Result n r (some (code, e))

  keep_code-Result :
      (n code : ℕ) (r : Option (ℕ × Encoder S)) {o : Option (Encoder S)}
      → Down P n o
      → Result n r (keep_code ops add_json_data (suc code) o)
  keep_code-Result n code r (down s) = gives s (λ z. absurd (omega (arith, z)))

  shut_after-Back :
      (n : ℕ) (r : Option (ℕ × Encoder S))
      → Back P n r
      → Result n r (shut_after ops add_json_data true n r)
  unfolding shut_after
  shut_after-Back n none h = elim h [ ]
  shut_after-Back n (some (zero, e)) (back s) =
      subst (λ o. Result n (some (zero, e)) (keep_code ops add_json_data zero o))
        (sym (close_down_low e.container_level n e s.level)) (gives s (λ z. refl))
  shut_after-Back n (some (suc code, e)) (stopped s) = keep_code-Result n code _ (
      close_down-Down e.container_level n e (omega (arith, s.level))
        (record { level = omega arith; size = s.size; kept = s.kept }))

  outcome_of :
      (n : ℕ) (r : Option (ℕ × Encoder S)) {o : Option (ℕ × Encoder S)}
      → Result n r o
      → (code : ℕ) × (e : Encoder S) × (o ≡ some (code, e))
        × (e.container_level ≤ n)
        × P e.sink
        × (code ≡ 0 → r ≡ some (0, e))
  outcome_of n r (gives {code} {e} s f) = (code, e, refl, s.level, s.kept, f)

  -- With `closeLastContainer`, `ksjson_addJSONElement` on the text of a value, as in
  -- `add_json_element_encoded`, that fits the levels below 200 which are left, returns a code within
  -- `isObject`, at a level that is no higher than before, also where the sink refuses a text midway.
  -- Where the code is 0, the encoder is the one that the calls for the value leave. A property of the
  -- sink that each text it takes or refuses keeps holds at the end.
  pub add_json_element_lem :
      (pretty : Bool) (t : Tree F) (json_data : Bytes) (name : Option Bytes) (beyond : ℕ)
      (e : Encoder S)
      → text_of ops pretty 0 t ≡ some json_data
      → ReadableTree ops (buffers beyond) t
      → follows t [] ≡ true
      → e.container_level < max_levels
      → FitsAt e.container_level t
      → length e.is_object ≡ max_levels
      → P e.sink
      → (code : ℕ) × (e' : Encoder S) × (add_json_element ops add_json_data name json_data beyond
            true e
          ≡ some (code, e'))
        × (e'.container_level ≤ e.container_level)
        × P e'.sink
        × (code ≡ 0
            → add_value ops add_json_data (end_container add_json_data) name t e ≡ some (0, e'))
  unfolding ending_call
  add_json_element_lem pretty t json_data name beyond e h readable alone below fits size p =
      let n = e.container_level in
      let r = add_value ops add_json_data (end_container add_json_data) name t e in
      outcome_of n r (
        subst (Result n r)
          (sym (
            add_json_element_encoded ops add_json_data pretty t json_data name beyond true e h
              readable alone))
          (shut_after-Back n r (
            add_value-Back n name t e below fits
              (record { level = omega arith; size = size; kept = p }))))

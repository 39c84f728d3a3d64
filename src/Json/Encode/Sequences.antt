-- ===== src/Json/Encode/Sequences.antt =====
-- Any sequence of calls on the encoder of KFCJSONCodec.c.
use kfcrash.Prelude.{
  ℕ, ◌+◌, ◌-◌, ◌<◌, ◌≡◌, refl, Bool, true, false, Option, some, List, [], ◌∷◌, arith, if◌then◌else◌,
  Bytes, length, length-replicate,
}
use kfcrash.Json.Codes.{exactly}
use kfcrash.Json.Number.{FloatOps}
use kfcrash.Json.Encode.{
  Encoder, max_levels, Call, ◌then◌, done, add_boolean_element, add_floating_point_element,
  add_integer_element, add_uinteger_element, add_null_element, add_string_element,
  begin_string_element, append_string_element, end_string_element, add_data_element,
  add_raw_json_data, begin_array, begin_object, end_container, end_encode,
}
use kfcrash.Json.Decode.Scalars.{
  Scalar, boolean, null, integer, unsigned_integer, floating_point, text,
}
use kfcrash.Json.Encode.Safe.{
  Sound, Within, within, Within-le, Steady, after_code-Within, put-Steady,
  add_escaped_string-Steady,
}
use kfcrash.Json.Encode.Calls.{
  add_boolean_element-Steady, add_null_element-Steady, add_integer_element-Steady,
  add_uinteger_element-Steady, add_floating_point_element-Steady, add_string_element-Steady,
  add_data_element-Steady, begin_string_element-Steady,
}
use kfcrash.Json.Encode.Levels.{
  begin_array-Within, begin_object-Within, end_container-Within, end_encode-Steady,
}
use kfcrash.Json.Encode.{begin_encode}

-- A call with its arguments.
pub data Op (F : Type 0) : Type 0 where
  add_scalar : Option Bytes → Scalar F → Op F
  add_bytes : Option Bytes → Bytes → Op F
  add_raw : Bytes → Op F
  begin_string : Option Bytes → Op F
  append_string : Bytes → Op F
  end_string : Op F
  open_container : Bool → Option Bytes → Op F
  close_last : Op F

module _ {F S : Type 0} (ops : FloatOps F) (add_json_data : Bytes → S → ℕ × S) where
  scalar_call : Option Bytes → Scalar F → Call S
  scalar_call name (boolean b) = add_boolean_element add_json_data name b
  scalar_call name null = add_null_element add_json_data name
  scalar_call name (integer i) = add_integer_element add_json_data name i
  scalar_call name (unsigned_integer n) = add_uinteger_element add_json_data name n
  scalar_call name (floating_point v) = add_floating_point_element add_json_data ops name v
  scalar_call name (text t) = add_string_element add_json_data name (some t) (exactly (length t))

  perform : Op F → Call S
  unfolding scalar_call
  perform (add_scalar name s) = scalar_call name s
  perform (add_bytes name value) = add_data_element add_json_data name value
  perform (add_raw t) = add_raw_json_data add_json_data t
  perform (begin_string name) = begin_string_element add_json_data name
  perform (append_string t) = append_string_element add_json_data t
  perform end_string = end_string_element add_json_data
  perform (open_container true name) = begin_object add_json_data name
  perform (open_container false name) = begin_array add_json_data name
  perform close_last = end_container add_json_data

  pub run : List (Op F) → Call S
  unfolding perform
  run [] = done
  run (op ∷ rest) = perform op then run rest

-- How many containers a sequence opens.
abbrev levels_of : {F : Type 0} → Op F → ℕ
levels_of (add_scalar name s) = 0
levels_of (add_bytes name value) = 0
levels_of (add_raw t) = 0
levels_of (begin_string name) = 0
levels_of (append_string t) = 0
levels_of end_string = 0
levels_of (open_container object name) = 1
levels_of close_last = 0

abbrev pub opened : {F : Type 0} → List (Op F) → ℕ
opened [] = 0
opened (op ∷ rest) = levels_of op + opened rest

module _ {F S : Type 0} (ops : FloatOps F) (P : S → Type 0) (add_json_data : Bytes → S → ℕ × S)
    (keeps : (text : Bytes) (sink : S) → P sink → P (add_json_data text sink).1) where
  scalar_call-Steady :
      (name : Option Bytes) (s : Scalar F) → Steady P (scalar_call ops add_json_data name s)
  unfolding scalar_call
  scalar_call-Steady name (boolean b) = add_boolean_element-Steady P add_json_data keeps name b
  scalar_call-Steady name null = add_null_element-Steady P add_json_data keeps name
  scalar_call-Steady name (integer i) = add_integer_element-Steady P add_json_data keeps name i
  scalar_call-Steady name (unsigned_integer n) =
      add_uinteger_element-Steady P add_json_data keeps name n
  scalar_call-Steady name (floating_point v) =
      add_floating_point_element-Steady P add_json_data keeps ops name v
  scalar_call-Steady name (text t) =
      add_string_element-Steady P add_json_data keeps name (some t) (exactly (length t))

  Steady-Within :
      (m : Call S) (n : ℕ) (e : Encoder S)
      → Steady P m
      → n + 0 < max_levels
      → Sound P n e
      → Within P (n + 0) (m e)
  Steady-Within m n e f below s = Within-le P n (n + 0) (omega arith) (f n e (omega arith) s)

  perform-Within :
      (op : Op F) (n : ℕ) (e : Encoder S)
      → n + levels_of op < max_levels
      → Sound P n e
      → Within P (n + levels_of op) (perform ops add_json_data op e)
  unfolding perform add_raw_json_data append_string_element end_string_element
  perform-Within (add_scalar name v) n e below s =
      Steady-Within _ n e (scalar_call-Steady name v) below s
  perform-Within (add_bytes name value) n e below s =
      Steady-Within _ n e (add_data_element-Steady P add_json_data keeps name value) below s
  perform-Within (add_raw t) n e below s =
      Steady-Within _ n e (put-Steady P add_json_data keeps t) below s
  perform-Within (begin_string name) n e below s =
      Steady-Within _ n e (begin_string_element-Steady P add_json_data keeps name) below s
  perform-Within (append_string t) n e below s =
      Steady-Within _ n e (add_escaped_string-Steady P add_json_data keeps t) below s
  perform-Within end_string n e below s =
      Steady-Within _ n e (put-Steady P add_json_data keeps _) below s
  perform-Within (open_container true name) n e below s =
      begin_object-Within P add_json_data keeps name n e below s
  perform-Within (open_container false name) n e below s =
      begin_array-Within P add_json_data keeps name n e below s
  perform-Within close_last n e below s =
      Within-le P (n - 1) (n + 0) (omega arith)
        (end_container-Within P add_json_data keeps n e (omega arith) s)

  run-Within :
      (calls : List (Op F)) (n : ℕ) (e : Encoder S)
      → n + opened calls < max_levels
      → Sound P n e
      → Within P (n + opened calls) (run ops add_json_data calls e)
  unfolding run
  run-Within [] n e below s = Within-le P n (n + 0) (omega arith) (within s)
  run-Within (op ∷ rest) n e below s =
      after_code-Within P (n + levels_of op) (n + (levels_of op + opened rest))
        (run ops add_json_data rest) (omega arith) (perform-Within op n e (omega arith) s)
        (λ e' s'.
          Within-le P ((n + levels_of op) + opened rest) (n + (levels_of op + opened rest))
            (omega arith) (run-Within rest (n + levels_of op) e' (omega arith) s'))

  finished :
      (n : ℕ) {r : Option (ℕ × Encoder S)}
      → Within P n r
      → (code : ℕ) × (e : Encoder S) × (r ≡ some (code, e)) × P e.sink
  finished n (within {code} {e} s) = (code, e, refl, s.kept)

  -- Any sequence of calls that opens fewer than 200 containers, between `ksjson_beginEncode` and
  -- `ksjson_endEncode`, on a sink that may refuse any text, stays within `isObject` and ends with a
  -- result code; and a property of the sink that each text it takes or refuses keeps holds at the end.
  pub run_safe :
      (pretty : Bool) (sink : S) (calls : List (Op F))
      → opened calls < max_levels
      → P sink
      → (code : ℕ) × (e : Encoder S) × ((run ops add_json_data calls then end_encode add_json_data)
            (begin_encode pretty sink)
          ≡ some (code, e))
        × P e.sink
  unfolding begin_encode
  run_safe pretty sink calls few p = finished (opened calls) (
      after_code-Within P (opened calls) (opened calls) (end_encode add_json_data) (omega arith)
        (Within-le P (0 + opened calls) (opened calls) (omega arith) (
          run-Within calls 0 (begin_encode pretty sink) (omega arith)
            (record { level = omega arith; size = length-replicate 200 false; kept = p })))
        (λ e' s'. end_encode-Steady P add_json_data keeps (opened calls) e' few s'))

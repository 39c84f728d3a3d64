-- ===== src/Json/Insertion.antt =====
-- JSON text added to an encoding: the callbacks of KFCJSONCodec.c that encode what is decoded, and
-- `ksjson_addJSONElement`.
pub mod Direct
pub mod Closing
mod Tests
use kfcrash.Prelude.{
  ℕ, zero, suc, Bool, true, false, ◌||◌, Option, none, some, ltb, if◌then◌else◌, Bytes, length,
}
use kfcrash.Json.Codes.{json_ok, invalid_data, c_string, exactly}
use kfcrash.Json.Number.{FloatOps}
use kfcrash.Json.Encode.{
  Encoder, Call, done, add_boolean_element, add_floating_point_element, add_integer_element,
  add_uinteger_element, add_null_element, add_string_element, begin_object, begin_array,
  end_container,
}
use kfcrash.Json.Decode.Scalars.{
  Scalar, boolean, null, integer, unsigned_integer, floating_point, text,
}
use kfcrash.Json.Decode.{
  Callbacks, Parsed, result, outside, unfinished, Limits, decode_element, rounds_for,
}

-- The encoder that is added to, or an access outside its `isObject`.
pub data Inserting (S : Type 0) : Type 0 where
  inserting : Encoder S → Inserting S
  outside_levels : Inserting S

pub answered : {S : Type 0} → Option (ℕ × Encoder S) → ℕ × Inserting S
answered none = (invalid_data, outside_levels)
answered (some (code, e)) = (code, inserting e)

pub on_encoder : {S : Type 0} → Call S → Inserting S → ℕ × Inserting S
unfolding answered
on_encoder m (inserting e) = answered (m e)
on_encoder m outside_levels = (invalid_data, outside_levels)

-- `nameBuffer`, `stringBuffer` and the byte behind the data.
abbrev pub buffers : ℕ → Limits
buffers beyond = record { name_buffer_length = 100; string_buffer_length = 5000; beyond = beyond }

-- The results of the calls in the last loop are ignored.
forget_code :
    {S : Type 0} → (Encoder S → Option (Encoder S)) → Option (ℕ × Encoder S) → Option (Encoder S)
forget_code more none = none
forget_code more (some (code, e)) = more e

with_code : {S : Type 0} → ℕ → Option (Encoder S) → Option (ℕ × Encoder S)
with_code code none = none
with_code code (some e) = some (code, e)

module _ {F S : Type 0} (ops : FloatOps F) (add_json_data : Bytes → S → ℕ × S) where
  -- The calls for what has no entries.
  pub add_scalar : Option Bytes → Scalar F → Call S
  add_scalar name (boolean b) = add_boolean_element add_json_data name b
  add_scalar name null = add_null_element add_json_data name
  add_scalar name (integer i) = add_integer_element add_json_data name i
  add_scalar name (unsigned_integer n) = add_uinteger_element add_json_data name n
  add_scalar name (floating_point v) = add_floating_point_element add_json_data ops name v
  add_scalar name (text t) =
      add_string_element add_json_data name (some t) (exactly (length (c_string t)))

  -- With `closeLastContainer`, or from the third level on, the container is closed.
  unfoldable pub on_end_container : Bool → Call S
  on_end_container close_last_container e =
      if close_last_container || ltb 2 e.container_level
      then end_container add_json_data e
      else done e

  -- The `updateDecoderCallback` does nothing.
  unfoldable pub callbacks : Bool → Callbacks F (Inserting S)
  unfolding on_encoder add_scalar
  callbacks close_last_container = record {
    on_scalar = λ name s. on_encoder (add_scalar name s);
    on_begin_array = λ name. on_encoder (begin_array add_json_data name);
    on_begin_object = λ name. on_encoder (begin_object add_json_data name);
    on_end_container = on_encoder (on_end_container close_last_container);
    on_end_data = λ u. (json_ok, u);
  }

  -- The `while` behind the decoding, whose results are ignored. Each round takes a level off.
  pub close_down : ℕ → ℕ → Encoder S → Option (Encoder S)
  unfolding forget_code
  close_down zero level e = some e
  close_down (suc rounds) level e =
      let closed = forget_code (close_down rounds level) (end_container add_json_data e) in
      if ltb level e.container_level then closed else some e

  pub shut : Bool → ℕ → ℕ → Encoder S → Option (ℕ × Encoder S)
  unfolding with_code close_down
  shut true level code e = with_code code (close_down e.container_level level e)
  shut false level code e = some (code, e)

  pub returned : Bool → ℕ → Parsed (Inserting S) → Option (ℕ × Encoder S)
  unfolding shut
  returned close level (result code rest (inserting e)) = shut close level code e
  returned close level (result code rest outside_levels) = none
  returned close level outside = none
  returned close level unfinished = none

  -- `none` is an access outside the data or a table. `beyond` is the byte behind the data.
  unfoldable pub add_json_element : Option Bytes → Bytes → ℕ → Bool → Call S
  unfolding returned callbacks
  add_json_element name json_data beyond close_last_container e =
      returned close_last_container e.container_level (
        decode_element ops (buffers beyond) (callbacks close_last_container) (rounds_for json_data)
          name json_data (inserting e))

-- ===== src/Json/Decode/Reading/Tests.antt =====
-- A value through the encoder and the decoder of KFCJSONCodec.c, on a small input.
use kfcrash.Prelude.{
  ℕ, ◌+◌, ◌<◌, ◌≡◌, refl, subst, true, false, none, some, [], ◌∷◌, arith, if◌then◌else◌, Bytes,
  codes, length,
}
use kfcrash.Prelude.Int.{negsuc}
use kfcrash.Json.Codes.{json_ok}
use kfcrash.Json.Escape.{escape_loop}
use kfcrash.Json.Encode.{Encoder, ◌then◌, end_encode, begin_encode}
use kfcrash.Json.Encode.Strings.{to_text, some-inj}
use kfcrash.Json.Encode.Trees.{Tree, leaf, container, no_more, entry, text_of, add_tree}
use kfcrash.Json.Events.{
  scalar, begin_array, begin_object, end_container, end_data, logging, text_floats,
}
use kfcrash.Json.Number.{format_i64, format_double}
use kfcrash.Json.Encode.Leaves.{formatted}
use kfcrash.Json.Decode.Scalars.{
  Scalar, null, integer, unsigned_integer, text, boolean, floating_point,
}
use kfcrash.Json.Decode.{limits_of, Callbacks, decode}
use kfcrash.Json.Decode.Reading.Scalars.{IsFraction, positive, HasRoom}
use kfcrash.Json.Decode.Reading.Trees.{ReadableTree, replay}
use kfcrash.Json.Decode.Reading.Encoded.{events, encode_decode, encode_decode_log}

abbrev value_tree : Tree Bytes
value_tree = container true (
    entry (codes "a")
      (container false
        (entry [] (leaf (integer (negsuc 1))) (entry [] (leaf (boolean true)) no_more)))
      (entry (codes "b\n") (leaf (text (codes "x\"y")))
        (entry (codes "c") (leaf (floating_point (codes "2.5"))) no_more)))

abbrev value_text : Bytes
value_text =
    codes
      "{\n    \"a\": [\n        -2,\n        true\n    ],\n    \"b\\n\": \"x\\\"y\",\n    \"c\": 2.5\n}"

text_of_value : text_of text_floats true 0 value_tree ≡ some value_text
unfolding text_of escape_loop format_i64 format_double
text_of_value = refl

a-HasRoom : HasRoom 250 (codes "a")
unfolding escape_loop
a-HasRoom e h = subst (λ k. length k < 250) (some-inj h) (omega arith)

b-HasRoom : HasRoom 250 (codes "b\n")
unfolding escape_loop
b-HasRoom e h = subst (λ k. length k < 250) (some-inj h) (omega arith)

c-HasRoom : HasRoom 250 (codes "c")
unfolding escape_loop
c-HasRoom e h = subst (λ k. length k < 250) (some-inj h) (omega arith)

text-HasRoom : HasRoom 750 (codes "x\"y")
unfolding escape_loop
text-HasRoom e h = subst (λ k. length k < 750) (some-inj h) (omega arith)

c-IsFraction :
    (t : Bytes)
    → formatted (format_double text_floats 64 (codes "2.5")) ≡ some t
    → IsFraction text_floats 750 (codes "2.5") t
unfolding format_double
c-IsFraction t h =
    subst (IsFraction text_floats 750 (codes "2.5")) (some-inj h)
      (positive (b'2', codes ".5", refl, refl) refl refl (omega arith) refl)

value-ReadableTree : ReadableTree text_floats (limits_of 1000 0) value_tree
value-ReadableTree = (
  λ o. a-HasRoom,
  ((λ o. absurd (cc)), omega arith, ((λ o. absurd (cc)), refl, refl)),
  ((λ o. b-HasRoom), text-HasRoom, ((λ o. c-HasRoom), c-IsFraction, refl)),
)

encode_decode_log_example :
    (e : Encoder Bytes) × ((add_tree text_floats [] value_tree then end_encode to_text)
        (begin_encode true [])
      ≡ some (json_ok, e))
    × (decode text_floats logging e.sink 0 1000 7 []
        ≡ some (record {
          code = 0;
          error_offset = 7;
          user_data =
              begin_object none
              ∷ begin_array (some (codes "a"))
              ∷ scalar none (integer (negsuc 1))
              ∷ scalar none (boolean true)
              ∷ end_container
              ∷ scalar (some (codes "b\n")) (text (codes "x\"y"))
              ∷ scalar (some (codes "c")) (floating_point (codes "2.5"))
              ∷ end_container
              ∷ end_data
              ∷ [];
        }))
unfolding events
encode_decode_log_example =
    encode_decode_log text_floats true value_tree value_text 0 1000 7 text_of_value
      value-ReadableTree refl

-- Callbacks that count what they are called for, and refuse a string with the code 103.
abbrev counting : Callbacks Bytes ℕ
counting = record {
  on_scalar = λ name s n. (refuses s, n + 1);
  on_begin_array = λ name n. (json_ok, n + 1);
  on_begin_object = λ name n. (json_ok, n + 1);
  on_end_container = λ n. (json_ok, n + 1);
  on_end_data = λ n. (json_ok, n + 1);
}
  where
    refuses : Scalar Bytes → ℕ
    refuses (text s) = 103
    refuses (boolean b) = 0
    refuses null = 0
    refuses (integer i) = 0
    refuses (unsigned_integer n) = 0
    refuses (floating_point v) = 0

encode_decode_example :
    (e : Encoder Bytes) × ((add_tree text_floats [] value_tree then end_encode to_text)
        (begin_encode true [])
      ≡ some (json_ok, e))
    × (decode text_floats counting e.sink 0 1000 7 0
        ≡ some (record { code = 103; error_offset = 0; user_data = 6 }))
unfolding replay
encode_decode_example =
    encode_decode text_floats counting true value_tree value_text 0 1000 7 0 text_of_value
      value-ReadableTree refl

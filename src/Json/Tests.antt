-- ===== src/Json/Tests.antt =====
-- Runs of the codec on small inputs.
use kfcrash.Prelude.{
  false, ◌-◌, ◌^◌, ◌<◌, ◌≡◌, refl, ◌≢◌, true, Option, none, some, List, [], ◌∷◌, arith, Bytes,
  codes, length,
}
use kfcrash.Prelude.Int.{pos, negsuc}
use kfcrash.Json.Codes.{json_ok}
use kfcrash.Json.Escape.{escape_loop}
use kfcrash.Json.Encode.{Encoder, ◌then◌, end_encode, begin_encode}
use kfcrash.Json.Encode.Closing.{end_encode-Ends}
use kfcrash.Json.Encode.Strings.{to_text}
use kfcrash.Json.Encode.Trees.{Tree, leaf, container, no_more, entry, text_of, add_tree}
use kfcrash.Json.Encode.Trees.Written.{encode_tree}
use kfcrash.Json.Decode.Scalars.{null, integer, text, boolean, floating_point}
use kfcrash.Json.Decode.{decode, Decoding}
use kfcrash.Json.Decode.{Limits, result, unfinished, decode_element, rounds_for}
use kfcrash.Json.Decode.Total.{decode_element_ends}
use kfcrash.Json.Number.{format_i64, print_i64}
use kfcrash.Json.Number.Decimal.{format_i64_fits}
use kfcrash.Json.Events.{
  Event, scalar, begin_array as began_array, begin_object as began_object, end_container, end_data,
  logging, text_floats,
}

abbrev run : Bytes → Option (Decoding (List (Event Bytes)))
run s = decode text_floats logging s 0 1000 7 []

abbrev sample : Bytes
sample = codes "{\"a\": [1, -2 ,true]\n,\"b\\n\":\"x\\u00e9\", \"f\" : 1.5}"

abbrev small : Limits
small = record { name_buffer_length = 100; string_buffer_length = 500; beyond = 0 }

decode_sample :
    run sample
    ≡ some (record {
      code = 0;
      error_offset = 7;
      user_data =
          began_object none
          ∷ began_array (some (codes "a"))
          ∷ scalar none (integer (pos 1))
          ∷ scalar none (integer (negsuc 1))
          ∷ scalar none (boolean true)
          ∷ end_container
          ∷ scalar (some (codes "b\n")) (text (b'x' ∷ 0xc3 ∷ 0xa9 ∷ []))
          ∷ scalar (some (codes "f")) (floating_point (codes "1.5"))
          ∷ end_container
          ∷ end_data
          ∷ [];
    })
unfolding decode
decode_sample = refl

decode_element_ends_example :
    let p = decode_element text_floats small logging (rounds_for sample) none sample [] in
    (p ≢ unfinished)
    × ((rest : Bytes) (u : List (Event Bytes)) → p ≡ result 0 rest u → length rest < length sample)
decode_element_ends_example = decode_element_ends text_floats small logging none sample []

format_i64_fits_example : format_i64 (negsuc (2 ^ 63 - 1)) ≡ (0, print_i64 (negsuc (2 ^ 63 - 1)))
format_i64_fits_example = format_i64_fits (negsuc (2 ^ 63 - 1)) (omega arith)

abbrev log_of_null : List (Event Bytes)
log_of_null = end_container ∷ scalar none null ∷ end_data ∷ []

decode_null :
    decode text_floats logging (codes "null") 0 1000 0 (end_container ∷ [])
    ≡ some (record { code = 0; error_offset = 0; user_data = log_of_null })
unfolding decode
decode_null = refl

abbrev sample_tree : Tree Bytes
sample_tree = container true (
    entry (codes "a")
      (container false (entry [] (leaf (integer (pos 1))) (entry [] (leaf (boolean true)) no_more)))
      (entry (codes "b\n") (leaf (text (codes "x\"y")))
        (entry (codes "c") (container true no_more) no_more)))

abbrev sample_text : Bytes
sample_text =
    codes
      "{\n    \"a\": [\n        1,\n        true\n    ],\n    \"b\\n\": \"x\\\"y\",\n    \"c\": {}\n}"

text_of_sample : text_of text_floats true 0 sample_tree ≡ some sample_text
unfolding text_of escape_loop format_i64
text_of_sample = refl

encode_tree_example :
    (e : Encoder Bytes) × ((add_tree text_floats [] sample_tree then end_encode to_text)
        (begin_encode true [])
      ≡ some (json_ok, e))
    × (e.sink ≡ sample_text)
encode_tree_example = encode_tree text_floats true sample_tree sample_text text_of_sample

-- Two open containers: an object with an entry, and an empty array in it.
abbrev half_written : Encoder Bytes
half_written = record {
  container_level = 2;
  is_object = false ∷ true ∷ false ∷ [];
  container_first_entry = true;
  pretty_print = true;
  sink = codes "{\n    \"a\": [";
}

end_encode-Ends_example :
    (e' : Encoder Bytes) × (end_encode to_text half_written ≡ some (json_ok, e'))
    × (e'.container_level ≡ 0)
    × (e'.sink ≡ codes "{\n    \"a\": []\n}")
end_encode-Ends_example = end_encode-Ends half_written (omega arith)

-- ===== src/Json/Decode/Text/Tests.antt =====
-- The theorems on strings at concrete inputs.
use kfcrash.Prelude.{◌+◌, ◌≤◌, ◌≡◌, refl, ◌∙◌, some, ◌∷◌, ◌++◌, arith, Bytes, codes, length}
use kfcrash.Json.Escape.{escape_loop, escaped_portion}
use kfcrash.Json.Escape.Laws.{escaped_portion-eq-escape_loop, escaped_portion_fits}
use kfcrash.Json.Decode.Text.{value, write_utf8, unicode_escape, decode_string, code_unit}
use kfcrash.Json.Decode.Text.Laws.{decode_string-escaped}
use kfcrash.Json.Decode.Text.Unicode.{
  IsSequence, NoSurrogate, IsScalarValue, utf8_point, utf16_point, write_utf8_point,
  unicode_escape_pair,
}

abbrev two_lines : Bytes
two_lines = codes "a\"\nb"

two_lines_escaped : escape_loop two_lines ≡ some (codes "a\\\"\\nb")
unfolding escape_loop
two_lines_escaped = refl

two_lines_portion : escaped_portion two_lines ≡ some (codes "a\\\"\\nb")
two_lines_portion = escaped_portion-eq-escape_loop two_lines ∙ two_lines_escaped

escaped_portion_fits_example : length (codes "a\\\"\\nb") ≤ 512
escaped_portion_fits_example =
    escaped_portion_fits two_lines (codes "a\\\"\\nb") (omega arith) two_lines_portion

decode_string-escaped_example :
    decode_string 10 b'"' (codes "a\\\"\\nb" ++ b'"' ∷ codes ",") ≡ value (two_lines, codes ",")
decode_string-escaped_example =
    decode_string-escaped 10 two_lines (codes "a\\\"\\nb") (codes ",") two_lines_escaped
      (omega arith)

write_utf8_point_example :
    (t : Bytes) × (write_utf8 0x20ac ≡ some t)
    × IsSequence t
    × (utf8_point t ≡ 0x20ac)
    × (IsScalarValue 0x20ac → NoSurrogate t)
write_utf8_point_example = write_utf8_point 0x20ac (omega arith)

-- "\ud83d\ude00" is U+1F600; the decoder writes U+F600.
unicode_escape_pair_example :
    (t : Bytes) × (unicode_escape (codes "d83d\\ude00!") ≡ value (t, codes "!"))
    × IsSequence t
    × (utf8_point t + 0x10000 ≡ utf16_point 0xd83d 0xde00)
unicode_escape_pair_example =
    unicode_escape_pair b'd' b'8' b'3' b'd' 0xd83d b'd' b'e' b'0' b'0' 0xde00 (codes "!")
      (unfold code_unit in refl) (unfold code_unit in refl) refl refl

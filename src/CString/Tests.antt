-- ===== src/CString/Tests.antt =====
-- Runs of KFCString.c on small inputs.
use kfcrash.Prelude.{◌≡◌, refl, ◌↔◌, true, none, some, [], ◌∷◌, ◌++◌, arith, Bytes, codes}
use kfcrash.CString.Utf8.{
  is_null_terminated_utf8_string, Terminated, byte, no_bytes, is_null_terminated_utf8_string_iff,
}
use kfcrash.CString.Hex.{extract_hex_value, print_hex, extract_hex_value-print_hex}
use kfcrash.CString.Order.{Compared, safe_strcmp, opposite, safe_strcmp_lem}

-- "hé" and a NUL.
abbrev short_text : Bytes
short_text = b'h' ∷ 0xc3 ∷ 0xa9 ∷ 0 ∷ []

is_null_terminated_utf8_string_iff_example :
    (is_null_terminated_utf8_string short_text 2 ≡ true) ↔ Terminated 2 0 short_text
is_null_terminated_utf8_string_iff_example = is_null_terminated_utf8_string_iff short_text 2 (
    byte _ (omega arith)
      (byte _ (omega arith) (byte _ (omega arith) (byte _ (omega arith) no_bytes))))

extract_hex_value-print_hex_example :
    extract_hex_value (codes "at 0" ++ (b'0' ∷ b'x' ∷ (print_hex 191 190 ++ codes ", x"))) 0
    ≡ some 190
extract_hex_value-print_hex_example =
    extract_hex_value-print_hex (codes "at 0") (codes ", x") 190 0 refl (omega arith) refl

-- A prefix at the very end of the string, with a digit behind the string, counts as the value 0.
digit_behind_the_end : extract_hex_value (codes "0x") b'7' ≡ some 0
unfolding extract_hex_value
digit_behind_the_end = refl

safe_strcmp_lem_example :
    Compared none (some (codes "b")) (safe_strcmp none (some (codes "b")))
    × (safe_strcmp (some (codes "b")) none ≡ opposite (safe_strcmp none (some (codes "b"))))
safe_strcmp_lem_example = safe_strcmp_lem none (some (codes "b"))

-- ===== src/Json/Encode/Calls.antt =====
-- The calls of the encoder of KFCJSONCodec.c, in any order and whatever the sink answers.
use kfcrash.Prelude.{ℕ, zero, suc, Bool, Option, none, some, [], ◌∷◌, Bytes}
use kfcrash.Prelude.Int.{ℤ}
use kfcrash.Json.Codes.{StringLength, measured}
use kfcrash.Json.Number.{FloatOps, format_i64, format_u64, format_double}
use kfcrash.Json.Encode.{
  add_boolean_element, add_formatted, add_floating_point_element, add_integer_element,
  add_uinteger_element, add_null_element, add_string_element, begin_string_element,
  end_string_element, append_data_element, add_data_element,
}
use kfcrash.Json.Encode.Safe.{
  within, Steady, then-Steady, done-Steady, put-Steady, add_quoted_escaped_string-Steady,
  begin_element-Steady,
}

module _ {S : Type 0} (P : S → Type 0) (add_json_data : Bytes → S → ℕ × S)
    (keeps : (text : Bytes) (sink : S) → P sink → P (add_json_data text sink).1) where
  pub add_boolean_element-Steady :
      (name : Option Bytes) (b : Bool) → Steady P (add_boolean_element add_json_data name b)
  unfolding add_boolean_element
  add_boolean_element-Steady name b =
      then-Steady P _ _ (begin_element-Steady P add_json_data keeps name)
        (put-Steady P add_json_data keeps _)

  pub add_null_element-Steady :
      (name : Option Bytes) → Steady P (add_null_element add_json_data name)
  unfolding add_null_element
  add_null_element-Steady name =
      then-Steady P _ _ (begin_element-Steady P add_json_data keeps name)
        (put-Steady P add_json_data keeps _)

  add_formatted-Steady :
      (name : Option Bytes) (r : ℕ × Bytes) → Steady P (add_formatted add_json_data name r)
  unfolding add_formatted
  add_formatted-Steady name (zero, t) =
      then-Steady P _ _ (begin_element-Steady P add_json_data keeps name)
        (put-Steady P add_json_data keeps t)
  add_formatted-Steady name (suc code, t) = λ n e below s. within s

  pub add_integer_element-Steady :
      (name : Option Bytes) (i : ℤ) → Steady P (add_integer_element add_json_data name i)
  unfolding add_integer_element
  add_integer_element-Steady name i = add_formatted-Steady name (format_i64 i)

  pub add_uinteger_element-Steady :
      (name : Option Bytes) (n : ℕ) → Steady P (add_uinteger_element add_json_data name n)
  unfolding add_uinteger_element
  add_uinteger_element-Steady name n = add_formatted-Steady name (format_u64 n)

  pub add_floating_point_element-Steady :
      {F : Type 0} (ops : FloatOps F) (name : Option Bytes) (v : F)
      → Steady P (add_floating_point_element add_json_data ops name v)
  unfolding add_floating_point_element
  add_floating_point_element-Steady ops name v = add_formatted-Steady name (format_double ops 64 v)

  pub add_string_element-Steady :
      (name value : Option Bytes) (n : StringLength)
      → Steady P (add_string_element add_json_data name value n)
  unfolding add_string_element
  add_string_element-Steady name none n = add_null_element-Steady name
  add_string_element-Steady name (some value) n =
      then-Steady P _ _ (begin_element-Steady P add_json_data keeps name)
        (add_quoted_escaped_string-Steady P add_json_data keeps (measured value n))

  append_data_element-Steady : (s : Bytes) → Steady P (append_data_element add_json_data s)
  unfolding append_data_element
  append_data_element-Steady [] = done-Steady P
  append_data_element-Steady (b ∷ rest) =
      then-Steady P _ _ (put-Steady P add_json_data keeps _) (append_data_element-Steady rest)

  pub begin_string_element-Steady :
      (name : Option Bytes) → Steady P (begin_string_element add_json_data name)
  unfolding begin_string_element
  begin_string_element-Steady name =
      then-Steady P _ _ (begin_element-Steady P add_json_data keeps name)
        (put-Steady P add_json_data keeps _)

  pub add_data_element-Steady :
      (name : Option Bytes) (s : Bytes) → Steady P (add_data_element add_json_data name s)
  unfolding add_data_element end_string_element
  add_data_element-Steady name s =
      then-Steady P _ _
        (then-Steady P _ _ (begin_string_element-Steady name) (append_data_element-Steady s))
        (put-Steady P add_json_data keeps _)

-- ===== src/Json/Encode.antt =====
-- The JSON encoder of KFCJSONCodec.c. Where the text goes is the caller's: `add_json_data` takes
-- bytes and the caller's state, and answers with a result code.
pub mod Strings
pub mod Leaves
pub mod Brackets
pub mod Closing
pub mod Trees
pub mod Safe
pub mod Calls
pub mod Levels
pub mod Sequences
use kfcrash.Prelude.{
  ℕ, zero, suc, ◌+◌, ◌-◌, ◌/◌, ◌%◌, Bool, true, false, not, ◌&&◌, Option, none, some, List, [], ◌∷◌,
  ltb, ◌==◌, if◌then◌else◌, Bytes, codes, length, get_elem?, set, take, drop, replicate,
}
use kfcrash.Prelude.Int.{ℤ}
use kfcrash.Json.Codes.{json_ok, invalid_character, invalid_data, StringLength, measured}
use kfcrash.Json.Escape.{escaped_portion}
use kfcrash.Json.Number.{FloatOps, format_i64, format_u64, format_double}

-- `KSJSONEncodeContext`, with the caller's state in place of `userData`.
pub record Encoder (S : Type 0) : Type 0 where
  pub container_level : ℕ
  pub is_object : List Bool
  pub container_first_entry : Bool
  pub pretty_print : Bool
  pub sink : S

-- The length of `isObject`.
abbrev pub max_levels : ℕ
max_levels = 200

-- A call on the encoder: its result code, or `none` for an access outside `isObject`.
abbrev pub Call : Type 0 → Type 0
Call S = Encoder S → Option (ℕ × Encoder S)

abbrev pub after_code : {S : Type 0} → Option (ℕ × Encoder S) → Call S → Option (ℕ × Encoder S)
after_code none k = none
after_code (some (zero, e)) k = k e
after_code (some (suc code, e)) k = some (suc code, e)

-- `unlikely_if((result = first) != KSJSON_OK) { return result; }`
infixl 5 ◌then◌
abbrev pub ◌then◌ : {S : Type 0} → Call S → Call S → Call S
◌then◌ m k e = after_code (m e) k

abbrev pub done : {S : Type 0} → Call S
done e = some (json_ok, e)

-- `addEscapedString` cuts the string into portions of half the work buffer.
abbrev pub portion_size : ℕ
portion_size = 256

-- `return result || closeResult;`
abbrev pub either_failed : ℕ → ℕ → ℕ
either_failed result close_result = if result == 0 && close_result == 0 then 0 else 1

abbrev hex_nybble : ℕ → ℕ
hex_nybble n = if ltb n 10 then b'0' + n else b'A' + (n - 10)

abbrev pub opening : Bool → Bytes
opening object = if object then b'{' ∷ [] else b'[' ∷ []

abbrev pub closing : Bool → Bytes
closing object = if object then b'}' ∷ [] else b']' ∷ []

module _ {S : Type 0} (add_json_data : Bytes → S → ℕ × S) where
  abbrev pub put : Bytes → Call S
  put text e = let (code, sink) = add_json_data text e.sink in some (code, record e { sink = sink })

  append_portion : Option Bytes → Call S
  append_portion none e = some (invalid_character, e)
  append_portion (some text) e = put text e

  append_escaped : Bytes → Call S
  unfolding append_portion
  append_escaped portion = append_portion (escaped_portion portion)

  -- The loop of `addEscapedString`; a round takes a byte at least.
  pub add_portions : ℕ → Bytes → Call S
  unfolding append_escaped
  add_portions zero s = done
  add_portions (suc rounds) [] = done
  add_portions (suc rounds) (c ∷ s) =
      append_escaped (take portion_size (c ∷ s))
      then add_portions rounds (drop portion_size (c ∷ s))

  unfoldable pub add_escaped_string : Bytes → Call S
  unfolding add_portions
  add_escaped_string s = add_portions (length s) s

  -- The closing quote is written whatever came before it.
  close_quote : Option (ℕ × Encoder S) → Option (ℕ × Encoder S)
  close_quote none = none
  close_quote (some (result, e)) = elim (put (b'"' ∷ []) e) [
    | none ↦ none
    | some (close_result, e') ↦ some (either_failed result close_result, e')
  ]

  pub add_quoted_escaped_string : Bytes → Call S
  unfolding close_quote add_escaped_string
  add_quoted_escaped_string s = put (b'"' ∷ []) then λ e. close_quote (add_escaped_string s e)

  -- A comma, unless it is the first entry.
  separate : Call S
  separate e =
      if e.container_first_entry
      then done (record e { container_first_entry = false })
      else put (b',' ∷ []) e

  indent : ℕ → Call S
  indent zero = done
  indent (suc levels) = put (codes "    ") then indent levels

  pub new_line : Call S
  unfolding indent
  new_line e = (put (b'\n' ∷ []) then indent e.container_level) e

  add_colon : Call S
  add_colon e = put (if e.pretty_print then codes ": " else codes ":") e

  -- The name, in an object. The flag is `isObject[containerLevel]`.
  add_name : Option Bytes → Option Bool → Call S
  unfolding add_colon add_quoted_escaped_string
  add_name name none e = none
  add_name name (some false) e = done e
  add_name none (some true) e = some (invalid_data, e)
  add_name (some n) (some true) e = (add_quoted_escaped_string n then add_colon) e

  optional_line : Call S
  unfolding new_line
  optional_line e = if e.pretty_print && ltb 0 e.container_level then new_line e else done e

  name_here : Option Bytes → Call S
  unfolding add_name
  name_here name e = add_name name (get_elem? e.is_object e.container_level) e

  pub begin_element : Option Bytes → Call S
  unfolding separate optional_line name_here
  begin_element name = separate then optional_line then name_here name

  unfoldable pub add_raw_json_data : Bytes → Call S
  add_raw_json_data = put

  unfoldable pub add_boolean_element : Option Bytes → Bool → Call S
  unfolding begin_element
  add_boolean_element name value =
      begin_element name then put (if value then codes "true" else codes "false")

  -- `addFormattedNumber`, on what a `format` function returned.
  add_formatted : Option Bytes → ℕ × Bytes → Call S
  add_formatted name (zero, text) = begin_element name then put text
  add_formatted name (suc code, text) = λ e. some (suc code, e)

  unfoldable pub add_floating_point_element : {F : Type 0} → FloatOps F → Option Bytes → F → Call S
  unfolding add_formatted begin_element
  add_floating_point_element ops name value = add_formatted name (format_double ops 64 value)

  unfoldable pub add_integer_element : Option Bytes → ℤ → Call S
  unfolding add_formatted begin_element
  add_integer_element name value = add_formatted name (format_i64 value)

  unfoldable pub add_uinteger_element : Option Bytes → ℕ → Call S
  unfolding add_formatted begin_element
  add_uinteger_element name value = add_formatted name (format_u64 value)

  unfoldable pub add_null_element : Option Bytes → Call S
  unfolding begin_element
  add_null_element name = begin_element name then put (codes "null")

  unfoldable pub add_string_element : Option Bytes → Option Bytes → StringLength → Call S
  unfolding begin_element add_quoted_escaped_string
  add_string_element name none length = add_null_element name
  add_string_element name (some value) length =
      begin_element name then add_quoted_escaped_string (measured value length)

  unfoldable pub begin_string_element : Option Bytes → Call S
  unfolding begin_element
  begin_string_element name = begin_element name then put (b'"' ∷ [])

  unfoldable pub append_string_element : Bytes → Call S
  append_string_element = add_escaped_string

  unfoldable pub end_string_element : Call S
  end_string_element = put (b'"' ∷ [])

  -- The `while` over the bytes.
  pub append_data_element : Bytes → Call S
  append_data_element [] = done
  append_data_element (b ∷ rest) =
      put (hex_nybble ((b / 16) % 16) ∷ hex_nybble (b % 16) ∷ []) then append_data_element rest

  unfoldable pub add_data_element : Option Bytes → Bytes → Call S
  add_data_element name value =
      begin_string_element name then append_data_element value then end_string_element

  pub enter : Bool → Call S
  enter object e =
      let level = e.container_level + 1 in
      if ltb level max_levels
      then put (opening object) (record e {
        container_level = level;
        is_object = set e.is_object level object;
        container_first_entry = true;
      })
      else none

  -- `containerLevel` starts at 0 and never falls below.
  unfoldable pub begin_array : Option Bytes → Call S
  unfolding enter begin_element
  begin_array name = begin_element name then enter false

  unfoldable pub begin_object : Option Bytes → Call S
  unfolding enter begin_element
  begin_object name = begin_element name then enter true

  leave : Bool → Call S
  leave object e = put (closing object) (record e { container_first_entry = false })

  -- A new line, unless the container is empty.
  last_line : Call S
  unfolding new_line
  last_line e = if e.pretty_print && not e.container_first_entry then new_line e else done e

  close_container : Option Bool → Call S
  unfolding last_line leave
  close_container none e = none
  close_container (some object) e =
      (last_line then leave object) (record e { container_level = e.container_level - 1 })

  unfoldable pub end_container : Call S
  unfolding close_container
  end_container e =
      if e.container_level == 0
      then done e
      else close_container (get_elem? e.is_object e.container_level) e

  pub end_levels : ℕ → Call S
  unfolding end_container
  end_levels zero = done
  end_levels (suc rounds) =
      λ e. if e.container_level == 0 then done e else (end_container then end_levels rounds) e

  -- Each round of the `while` that goes on takes one level off.
  unfoldable pub end_encode : Call S
  unfolding end_levels
  end_encode e = end_levels e.container_level e

unfoldable pub begin_encode : {S : Type 0} → Bool → S → Encoder S
begin_encode pretty sink = record {
  container_level = 0;
  is_object = replicate max_levels false;
  container_first_entry = true;
  pretty_print = pretty;
  sink = sink;
}

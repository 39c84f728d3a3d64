-- ===== src/Json/Decode.antt =====
-- The JSON decoder, `decodeElement` and `ksjson_decode` of KFCJSONCodec.c. The text is what lies
-- between `bufferPtr` and `bufferEnd`; the callbacks act on a state of the caller's.
pub mod Text
pub mod Scalars
pub mod Total
pub mod Kept
pub mod Reading
use kfcrash.Prelude.{
  ℕ, zero, suc, ◌+◌, ◌-◌, ◌*◌, ◌/◌, true, false, Option, none, some, [], ◌∷◌, ◌==◌, if◌then◌else◌,
  Bytes, codes, length,
}
use kfcrash.Json.Codes.{invalid_character, incomplete, c_string}
use kfcrash.Json.Number.{FloatOps}
use Text.{Decoded, value, failed, fault, ◌>>=◌, decode_string}
use Scalars.{
  Scalar, boolean, null, text, Token, token, rejected, skip_whitespace, read_number, read_negative,
  read_word, is_digit,
}

-- `KSJSONDecodeCallbacks`, over the caller's state.
pub record Callbacks (F U : Type 0) : Type 0 where
  pub on_scalar : Option Bytes → Scalar F → U → ℕ × U
  pub on_begin_array : Option Bytes → U → ℕ × U
  pub on_begin_object : Option Bytes → U → ℕ × U
  pub on_end_container : U → ℕ × U
  pub on_end_data : U → ℕ × U

-- A result code with the text that is left and the caller's state, an access outside the data or a
-- table, or no result within the rounds given.
pub data Parsed (U : Type 0) : Type 0 where
  result : ℕ → Bytes → U → Parsed U
  outside : Parsed U
  unfinished : Parsed U

-- `nameBufferLength`, `stringBufferLength`, and the byte at `bufferEnd`.
pub record Limits : Type 0 where
  pub name_buffer_length : ℕ
  pub string_buffer_length : ℕ
  pub beyond : ℕ

abbrev reported : {U : Type 0} → Bytes → ℕ × U → Parsed U
reported rest (code, u) = result code rest u

-- Behind an element of a container: a comma is skipped, if there is one.
pub after_separator : {U : Type 0} → Bytes → U → (Bytes → U → Parsed U) → Parsed U
after_separator [] u more = result incomplete [] u
after_separator (c ∷ rest) u more = more (if c == b',' then rest else c ∷ rest) u

pub after_item : {U : Type 0} → Parsed U → (Bytes → U → Parsed U) → Parsed U
unfolding after_separator
after_item (result zero rest u) more = after_separator (skip_whitespace rest) u more
after_item (result (suc code) rest u) more = result (suc code) rest u
after_item outside more = outside
after_item unfinished more = unfinished

pub after_begin : {U : Type 0} → Bytes → ℕ × U → (Bytes → U → Parsed U) → Parsed U
after_begin rest (zero, u) more = more rest u
after_begin rest (suc code, u) more = result (suc code) rest u

expect_colon : Bytes → Bytes → Decoded (Bytes × Bytes)
expect_colon name [] = failed incomplete
expect_colon name (c ∷ rest) =
    if c == b':' then value (c_string name, skip_whitespace rest) else failed invalid_character

module _ {F U : Type 0} (ops : FloatOps F) (limits : Limits) (callbacks : Callbacks F U) where
  -- A name up to and past its colon.
  pub read_name : ℕ → Bytes → Decoded (Bytes × Bytes)
  unfolding expect_colon decode_string
  read_name c rest = decode_string limits.name_buffer_length c rest >>= λ (name, rest').
      expect_colon name (skip_whitespace rest')

  of_text : Decoded (Bytes × Bytes) → Option Bytes → U → Parsed U
  of_text (value (copied, rest)) name u =
      reported rest (callbacks.on_scalar name (text (c_string copied)) u)
  of_text (failed code) name u = result code [] u
  of_text fault name u = outside

  of_token : Token F → Option Bytes → U → Parsed U
  of_token (token scalar rest) name u = reported rest (callbacks.on_scalar name scalar u)
  of_token (rejected code) name u = result code [] u

  read_token : ℕ → Bytes → Token F
  unfolding read_word read_number read_negative
  read_token c rest =
      if c == b'f'
      then read_word (codes "alse") (boolean false) rest
      else if c == b't'
      then read_word (codes "rue") (boolean true) rest
      else if c == b'n'
      then read_word (codes "ull") null rest
      else if c == b'-'
      then read_negative ops limits.string_buffer_length limits.beyond rest
      else if is_digit c
      then read_number ops limits.string_buffer_length false (c ∷ rest)
      else rejected invalid_character

  -- The cases of the `switch` that are no container.
  pub decode_scalar : Option Bytes → ℕ → Bytes → U → Parsed U
  unfolding of_text of_token read_token decode_string
  decode_scalar name c rest u =
      if c == b'"'
      then of_text (decode_string limits.string_buffer_length c rest) name u
      else of_token (read_token c rest) name u

  -- `decodeElement` behind the whitespace, with the loops of its two container cases.
  pub element_of :
      (Bytes → U → Parsed U) → (Bytes → U → Parsed U) → Option Bytes → Bytes → U → Parsed U
  unfolding after_begin decode_scalar
  element_of items fields name [] u = result incomplete [] u
  element_of items fields name (c ∷ rest) u =
      if c == b'['
      then after_begin rest (callbacks.on_begin_array name u) items
      else if c == b'{'
      then after_begin rest (callbacks.on_begin_object name u) fields
      else decode_scalar name c rest u

  -- A turn of the loop over an array, behind the whitespace.
  pub items_of : (Bytes → U → Parsed U) → (Bytes → U → Parsed U) → Bytes → U → Parsed U
  unfolding after_item
  items_of element items [] u = result incomplete [] u
  items_of element items (c ∷ rest) u =
      if c == b']'
      then reported rest (callbacks.on_end_container u)
      else after_item (element (c ∷ rest) u) items

  after_name :
      (Option Bytes → Bytes → U → Parsed U)
      → (Bytes → U → Parsed U)
      → Decoded (Bytes × Bytes)
      → U
      → Parsed U
  unfolding after_item
  after_name element fields (value (name, rest)) u = after_item (element (some name) rest u) fields
  after_name element fields (failed code) u = result code [] u
  after_name element fields fault u = outside

  -- A turn of the loop over an object, behind the whitespace.
  pub fields_of :
      (Option Bytes → Bytes → U → Parsed U) → (Bytes → U → Parsed U) → Bytes → U → Parsed U
  unfolding after_name read_name
  fields_of element fields [] u = result incomplete [] u
  fields_of element fields (c ∷ rest) u =
      if c == b'}'
      then reported rest (callbacks.on_end_container u)
      else after_name element fields (read_name c rest) u

  -- Rounds bound the calls and the turns of the loops.
  mutual
    unfolding element_of items_of fields_of skip_whitespace

    pub decode_element : ℕ → Option Bytes → Bytes → U → Parsed U
    decode_element zero name s u = unfinished
    decode_element (suc rounds) name s u =
        element_of (decode_items rounds) (decode_fields rounds) name (skip_whitespace s) u

    pub decode_items : ℕ → Bytes → U → Parsed U
    decode_items zero s u = unfinished
    decode_items (suc rounds) s u =
        items_of (decode_element rounds none) (decode_items rounds) (skip_whitespace s) u

    pub decode_fields : ℕ → Bytes → U → Parsed U
    decode_fields zero s u = unfinished
    decode_fields (suc rounds) s u =
        fields_of (decode_element rounds) (decode_fields rounds) (skip_whitespace s) u

-- `ksjson_decode`: the result code, `*errorOffset`, and the caller's state.
pub record Decoding (U : Type 0) : Type 0 where
  pub code : ℕ
  pub error_offset : ℕ
  pub user_data : U

-- A quarter of the buffer is for names.
abbrev pub limits_of : ℕ → ℕ → Limits
limits_of buffer_length beyond = record {
  name_buffer_length = buffer_length / 4;
  string_buffer_length = buffer_length - buffer_length / 4;
  beyond = beyond;
}

-- Enough rounds for a text: each call and each turn of a loop takes a byte.
abbrev pub rounds_for : Bytes → ℕ
rounds_for s = 2 * length s + 2

module _ {F U : Type 0} (ops : FloatOps F) (callbacks : Callbacks F U) where
  -- `ptr` is never moved, so the offset of an error is `ptr - data`, which is 0.
  pub finish : ℕ → Parsed U → Option (Decoding U)
  finish offset unfinished = none
  finish offset outside = none
  finish offset (result zero rest u) =
      let (code, u') = callbacks.on_end_data u in
      some (record { code = code; error_offset = if code == 0 then offset else 0; user_data = u' })
  finish offset (result (suc code) rest u) =
      some (record { code = suc code; error_offset = 0; user_data = u })

  -- `none` is an access outside the data or a table. `beyond` is the byte behind the data, and
  -- `offset` what `*errorOffset` holds before.
  unfoldable pub decode : Bytes → ℕ → ℕ → ℕ → U → Option (Decoding U)
  unfolding finish decode_element
  decode s beyond buffer_length offset u =
      finish offset
        (decode_element ops (limits_of buffer_length beyond) callbacks (rounds_for s) none s u)

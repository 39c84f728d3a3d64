-- ===== src/Json/Decode/Kept.antt =====
-- What every callback keeps, the whole decoding keeps: the decoder touches the caller's state through
-- the callbacks only.
use kfcrash.Prelude.{
  refl, true, ℕ, zero, suc, ◌≡◌, subst, Option, none, some, [], ◌∷◌, ◌==◌, if-elim, Bytes,
}
use kfcrash.Json.Number.{FloatOps}
use kfcrash.Json.Decode.Text.{Decoded, value, failed, fault}
use kfcrash.Json.Decode.Scalars.{Scalar, Token, token, rejected, skip_whitespace}
use kfcrash.Json.Decode.{
  Callbacks, Parsed, result, outside, unfinished, Limits, after_separator, after_item, after_begin,
  of_text, of_token, decode_scalar, element_of, items_of, after_name, fields_of, decode_element,
  decode_items, decode_fields, rounds_for, limits_of, Decoding, decode, finish,
}

-- Each callback takes a state with `P` to one with `P`, whatever code it returns.
pub record Keeps {F U : Type 0} (callbacks : Callbacks F U) (P : U → Type 0) : Type 0 where
  pub scalar :
      (name : Option Bytes) (s : Scalar F) (u : U) → P u → P (callbacks.on_scalar name s u).1
  pub begin_array : (name : Option Bytes) (u : U) → P u → P (callbacks.on_begin_array name u).1
  pub begin_object : (name : Option Bytes) (u : U) → P u → P (callbacks.on_begin_object name u).1
  pub end_container : (u : U) → P u → P (callbacks.on_end_container u).1
  pub end_data : (u : U) → P u → P (callbacks.on_end_data u).1

-- What holds after a callback: `P` if it returned 0, and `Q` if not.
abbrev pub Kept : {U : Type 0} → (U → Type 0) → (U → Type 0) → ℕ × U → Type 0
Kept P Q (zero, u) = P u
Kept P Q (suc code, u) = Q u

-- Each callback takes a state with `P` to one with `P`, or to one with `Q` if it returns an error.
pub record KeepsUntil {F U : Type 0} (callbacks : Callbacks F U) (P Q : U → Type 0) : Type 0 where
  pub weaker : (u : U) → P u → Q u
  pub scalar :
      (name : Option Bytes) (s : Scalar F) (u : U) → P u → Kept P Q (callbacks.on_scalar name s u)
  pub begin_array : (name : Option Bytes) (u : U) → P u → Kept P Q (callbacks.on_begin_array name u)
  pub begin_object :
      (name : Option Bytes) (u : U) → P u → Kept P Q (callbacks.on_begin_object name u)
  pub end_container : (u : U) → P u → Kept P Q (callbacks.on_end_container u)
  pub end_data : (u : U) → P u → Kept P Q (callbacks.on_end_data u)

module _ {U : Type 0} (P : U → Type 0) where
  pub Kept-same : (r : ℕ × U) → P r.1 → Kept P P r
  Kept-same (zero, u) h = h
  Kept-same (suc code, u) h = h

until_any :
    {F U : Type 0} {callbacks : Callbacks F U} (P : U → Type 0)
    → Keeps callbacks P
    → KeepsUntil callbacks P P
until_any P keeps = record {
  weaker = λ u h. h;
  scalar = λ name s u h. Kept-same P _ (keeps.scalar name s u h);
  begin_array = λ name u h. Kept-same P _ (keeps.begin_array name u h);
  begin_object = λ name u h. Kept-same P _ (keeps.begin_object name u h);
  end_container = λ u h. Kept-same P _ (keeps.end_container u h);
  end_data = λ u h. Kept-same P _ (keeps.end_data u h);
}

module _ {U : Type 0} (P Q : U → Type 0) where
  data Held : Parsed U → Type 0 where
    at_result : {code : ℕ} {rest : Bytes} {u : U} → Kept P Q (code, u) → Held (result code rest u)
    at_outside : Held outside
    at_unfinished : Held unfinished

  abbrev Holds : (Bytes → U → Parsed U) → Type 0
  Holds k = (s : Bytes) (u : U) → P u → Held (k s u)

  after_separator-Held :
      (s : Bytes) (u : U) (more : Bytes → U → Parsed U)
      → ((u : U) → P u → Q u)
      → Holds more
      → P u
      → Held (after_separator s u more)
  unfolding after_separator
  after_separator-Held [] u more w f h = at_result (w u h)
  after_separator-Held (c ∷ rest) u more w f h = f _ u h

  after_item-Held :
      {p : Parsed U} (more : Bytes → U → Parsed U)
      → ((u : U) → P u → Q u)
      → Holds more
      → Held p
      → Held (after_item p more)
  unfolding after_item
  after_item-Held more w f (at_result {code = zero} {u = u} h) = after_separator-Held _ u more w f h
  after_item-Held more w f (at_result {code = suc code} h) = at_result h
  after_item-Held more w f at_outside = at_outside
  after_item-Held more w f at_unfinished = at_unfinished

  after_begin-Held :
      (rest : Bytes) (r : ℕ × U) (more : Bytes → U → Parsed U)
      → Holds more
      → Kept P Q r
      → Held (after_begin rest r more)
  unfolding after_begin
  after_begin-Held rest (zero, u) more f h = f rest u h
  after_begin-Held rest (suc code, u) more f h = at_result h

module _ {F U : Type 0} (ops : FloatOps F) (limits : Limits) (callbacks : Callbacks F U)
    (P Q : U → Type 0) (keeps : KeepsUntil callbacks P Q) where
  coded : (code : ℕ) (u : U) → P u → Kept P Q (code, u)
  coded zero u h = h
  coded (suc code) u h = keeps.weaker u h

  of_text-Held :
      (d : Decoded (Bytes × Bytes)) (name : Option Bytes) (u : U)
      → P u
      → Held P Q (of_text ops limits callbacks d name u)
  unfolding of_text
  of_text-Held (value (t, rest)) name u h = at_result (keeps.scalar name _ u h)
  of_text-Held (failed code) name u h = at_result (coded code u h)
  of_text-Held fault name u h = at_outside

  of_token-Held :
      (t : Token F) (name : Option Bytes) (u : U)
      → P u
      → Held P Q (of_token ops limits callbacks t name u)
  unfolding of_token
  of_token-Held (token s rest) name u h = at_result (keeps.scalar name s u h)
  of_token-Held (rejected code) name u h = at_result (coded code u h)

  decode_scalar-Held :
      (name : Option Bytes) (c : ℕ) (rest : Bytes) (u : U)
      → P u
      → Held P Q (decode_scalar ops limits callbacks name c rest u)
  unfolding decode_scalar
  decode_scalar-Held name c rest u h =
      if-elim (Held P Q) (c == b'"') (of_text-Held _ name u h) (of_token-Held _ name u h)

  element_of-Held :
      (items fields : Bytes → U → Parsed U) (name : Option Bytes) (s : Bytes) (u : U)
      → Holds P Q items
      → Holds P Q fields
      → P u
      → Held P Q (element_of ops limits callbacks items fields name s u)
  unfolding element_of
  element_of-Held items fields name [] u f g h = at_result (keeps.weaker u h)
  element_of-Held items fields name (c ∷ rest) u f g h =
      if-elim (Held P Q) (c == b'[')
        (after_begin-Held P Q rest _ items f (keeps.begin_array name u h))
        (if-elim (Held P Q) (c == b'{')
          (after_begin-Held P Q rest _ fields g (keeps.begin_object name u h))
          (decode_scalar-Held name c rest u h))

  items_of-Held :
      (element items : Bytes → U → Parsed U) (s : Bytes) (u : U)
      → Holds P Q element
      → Holds P Q items
      → P u
      → Held P Q (items_of ops limits callbacks element items s u)
  unfolding items_of
  items_of-Held element items [] u f g h = at_result (keeps.weaker u h)
  items_of-Held element items (c ∷ rest) u f g h =
      if-elim (Held P Q) (c == b']') (at_result (keeps.end_container u h))
        (after_item-Held P Q items keeps.weaker g (f _ u h))

  after_name-Held :
      (element : Option Bytes → Bytes → U → Parsed U) (fields : Bytes → U → Parsed U)
      (d : Decoded (Bytes × Bytes)) (u : U)
      → ((name : Option Bytes) → Holds P Q (element name))
      → Holds P Q fields
      → P u
      → Held P Q (after_name ops limits callbacks element fields d u)
  unfolding after_name
  after_name-Held element fields (value (name, rest)) u f g h =
      after_item-Held P Q fields keeps.weaker g (f (some name) rest u h)
  after_name-Held element fields (failed code) u f g h = at_result (coded code u h)
  after_name-Held element fields fault u f g h = at_outside

  fields_of-Held :
      (element : Option Bytes → Bytes → U → Parsed U) (fields : Bytes → U → Parsed U) (s : Bytes)
      (u : U)
      → ((name : Option Bytes) → Holds P Q (element name))
      → Holds P Q fields
      → P u
      → Held P Q (fields_of ops limits callbacks element fields s u)
  unfolding fields_of
  fields_of-Held element fields [] u f g h = at_result (keeps.weaker u h)
  fields_of-Held element fields (c ∷ rest) u f g h =
      if-elim (Held P Q) (c == b'}') (at_result (keeps.end_container u h))
        (after_name-Held element fields _ u f g h)

  mutual
    unfolding decode_element

    element-Held :
        (rounds : ℕ) (name : Option Bytes)
        → Holds P Q (decode_element ops limits callbacks rounds name)
    element-Held zero name s u h = at_unfinished
    element-Held (suc rounds) name s u h =
        element_of-Held _ _ name (skip_whitespace s) u (items-Held rounds) (fields-Held rounds) h

    items-Held : (rounds : ℕ) → Holds P Q (decode_items ops limits callbacks rounds)
    items-Held zero s u h = at_unfinished
    items-Held (suc rounds) s u h =
        items_of-Held _ _ (skip_whitespace s) u (element-Held rounds none) (items-Held rounds) h

    fields-Held : (rounds : ℕ) → Holds P Q (decode_fields ops limits callbacks rounds)
    fields-Held zero s u h = at_unfinished
    fields-Held (suc rounds) s u h =
        fields_of-Held _ _ (skip_whitespace s) u (element-Held rounds) (fields-Held rounds) h

module _ {F U : Type 0} (ops : FloatOps F) (callbacks : Callbacks F U) where
  Outcome : (U → Type 0) → (U → Type 0) → Option (Decoding U) → Type 0
  Outcome P Q none = true ≡ true
  Outcome P Q (some d) = Kept P Q (d.code, d.user_data)

  finish-Outcome :
      (P Q : U → Type 0) (keeps : KeepsUntil callbacks P Q) (offset : ℕ) (p : Parsed U)
      → Held P Q p
      → Outcome P Q (finish ops callbacks offset p)
  unfolding finish Outcome
  finish-Outcome P Q keeps offset unfinished h = refl
  finish-Outcome P Q keeps offset outside h = refl
  finish-Outcome P Q keeps offset (result zero rest u) (at_result h) = keeps.end_data u h
  finish-Outcome P Q keeps offset (result (suc code) rest u) (at_result h) = h

  -- If every callback keeps a property of the caller's state as long as it returns 0, and leaves
  -- a weaker one where it returns an error, then a decoding of any text that starts with the first ends
  -- with it if it succeeds, and with the weaker one if not: no callback follows a failed one.
  pub decode_keeps_until :
      (P Q : U → Type 0)
      → KeepsUntil callbacks P Q
      → (s : Bytes) (beyond buffer_length offset : ℕ) (u : U) (d : Decoding U) → P u
      → decode ops callbacks s beyond buffer_length offset u ≡ some d
      → Kept P Q (d.code, d.user_data)
  unfolding decode Outcome
  decode_keeps_until P Q keeps s beyond buffer_length offset u d h e = subst (Outcome P Q) e (
      finish-Outcome P Q keeps offset _ (
        element-Held ops (limits_of buffer_length beyond) callbacks P Q keeps (rounds_for s) none s
          u h))

  either : (P : U → Type 0) (r : ℕ × U) → Kept P P r → P r.1
  either P (zero, u) h = h
  either P (suc code, u) h = h

  -- Whatever property of the caller's state every callback keeps, a decoding of any text that starts
  -- with it ends with it, also where it ends with an error.
  pub decode_keeps :
      (P : U → Type 0)
      → Keeps callbacks P
      → (s : Bytes) (beyond buffer_length offset : ℕ) (u : U) (d : Decoding U) → P u
      → decode ops callbacks s beyond buffer_length offset u ≡ some d
      → P d.user_data
  decode_keeps P keeps s beyond buffer_length offset u d h e =
      either P (d.code, d.user_data)
        (decode_keeps_until P P (until_any P keeps) s beyond buffer_length offset u d h e)

-- ===== src/Json/Decode/Reading/Turns.antt =====
-- The turns of the decoder's loops in KFCJSONCodec.c over the entries that the encoder writes.
use kfcrash.Prelude.{
  ℕ, suc, ◌≤◌, ◌<◌, ◌≡◌, refl, sym, ap, ap₂, subst, ◌∙◌, Bool, false, Option, none, some, ◌∷◌, ◌++◌,
  arith, ◌==◌, if-false, Bytes, length, length-append,
}
use kfcrash.Json.Escape.{escape_loop}
use kfcrash.Json.Number.{FloatOps}
use kfcrash.Json.Encode.Strings.{colon}
use kfcrash.Json.Decode.Scalars.{skip_whitespace}
use kfcrash.Json.Decode.Scalars.Lengths.{length-skip_whitespace}
use kfcrash.Json.Decode.Text.{value, ◌>>=◌}
use kfcrash.Json.Decode.Text.Laws.{decode_string-escaped}
use kfcrash.Json.Decode.{
  Callbacks, Parsed, Limits, after_separator, read_name, expect_colon, after_name, items_of,
  fields_of, decode_element, decode_items, decode_fields,
}
use kfcrash.Json.Decode.Reading.Scalars.{c_string-escaped}
use kfcrash.Json.Decode.Reading.Spaces.{skip_whitespace-black, skip_whitespace-colon}
use kfcrash.Json.Decode.Reading.Trees.{and_then, Ends, after_item-Ends}
use kfcrash.Json.Decode.Reading.Marks.{StartsElement}

module _ {F U : Type 0} (ops : FloatOps F) (limits : Limits) (callbacks : Callbacks F U) where
  items_of-Ends :
      (element items : Bytes → U → Parsed U) (c : ℕ) (s middle end : Bytes) (r : ℕ × U)
      (f : U → ℕ × U) (u : U)
      → c == b']' ≡ false
      → Ends middle r (element (c ∷ s) u)
      → ((u : U) → Ends end (f u) (after_separator (skip_whitespace middle) u items))
      → Ends end (and_then r f) (items_of ops limits callbacks element items (c ∷ s) u)
  unfolding items_of
  items_of-Ends element items c s middle end r f u other h more =
      if-false (Ends end (and_then r f)) {b = c == b']'} _ _ other
        (after_item-Ends middle end f items h more)

  read_name-escaped :
      (pretty : Bool) (name q w : Bytes)
      → escape_loop name ≡ some q
      → length q < limits.name_buffer_length
      → read_name ops limits callbacks b'"' (q ++ b'"' ∷ (colon pretty ++ w))
        ≡ value (name, skip_whitespace w)
  unfolding read_name expect_colon
  read_name-escaped pretty name q w h l =
      let (r, e, same) = skip_whitespace-colon pretty w in
      ap (λ d. d >>= λ (n, s). expect_colon n (skip_whitespace s))
        (decode_string-escaped limits.name_buffer_length name q (colon pretty ++ w) h l)
      ∙ ap (λ k. expect_colon name (skip_whitespace k)) e
      ∙ ap (expect_colon name) (skip_whitespace-black b':' r refl)
      ∙ ap₂ (λ n k. value (n, k)) (c_string-escaped name q h) same

  fields_of-Ends :
      (element : Option Bytes → Bytes → U → Parsed U) (fields : Bytes → U → Parsed U)
      (name s w middle end : Bytes) (r : ℕ × U) (f : U → ℕ × U) (u : U)
      → read_name ops limits callbacks b'"' s ≡ value (name, w)
      → Ends middle r (element (some name) w u)
      → ((u : U) → Ends end (f u) (after_separator (skip_whitespace middle) u fields))
      → Ends end (and_then r f) (fields_of ops limits callbacks element fields (b'"' ∷ s) u)
  unfolding fields_of after_name
  fields_of-Ends element fields name s w middle end r f u e h more =
      subst (λ k. Ends end (and_then r f) (after_name ops limits callbacks element fields k u))
        (sym e) (after_item-Ends middle end f fields h more)

  -- An array's entry.
  pub item-Ends :
      (k : ℕ) (s x middle end : Bytes) (r : ℕ × U) (f : U → ℕ × U) (u : U)
      → skip_whitespace s ≡ x ++ middle
      → StartsElement x
      → ((s' : Bytes)
          → skip_whitespace s' ≡ x ++ middle
          → length s' ≤ length s
          → Ends middle r (decode_element ops limits callbacks k none s' u))
      → ((u : U)
          → Ends end
              (f u)
              (after_separator (skip_whitespace middle) u (decode_items ops limits callbacks k)))
      → Ends end (and_then r f) (decode_items ops limits callbacks (suc k) s u)
  unfolding decode_items
  item-Ends k s x middle end r f u e (c, s', p, black, other) h more =
      let at : skip_whitespace s ≡ c ∷ (s' ++ middle) = e ∙ ap (λ k. k ++ middle) p in
      let element = decode_element ops limits callbacks k none in
      let items = decode_items ops limits callbacks k in
      subst (λ t. Ends end (and_then r f) (items_of ops limits callbacks element items t u))
        (sym at)
        (items_of-Ends element items c (s' ++ middle) middle end r f u other
          (h (c ∷ (s' ++ middle))
            (skip_whitespace-black c (s' ++ middle) black ∙ sym (ap (λ k. k ++ middle) p))
            (omega (arith, ap length at, length-skip_whitespace s)))
          more)

  -- An object's entry.
  pub field-Ends :
      (pretty : Bool) (k : ℕ) (name q s x middle end : Bytes) (r : ℕ × U) (f : U → ℕ × U) (u : U)
      → escape_loop name ≡ some q
      → length q < limits.name_buffer_length
      → skip_whitespace s ≡ b'"' ∷ (q ++ b'"' ∷ (colon pretty ++ (x ++ middle)))
      → StartsElement x
      → ((s' : Bytes)
          → skip_whitespace s' ≡ x ++ middle
          → length s' ≤ length s
          → Ends middle r (decode_element ops limits callbacks k (some name) s' u))
      → ((u : U)
          → Ends end
              (f u)
              (after_separator (skip_whitespace middle) u (decode_fields ops limits callbacks k)))
      → Ends end (and_then r f) (decode_fields ops limits callbacks (suc k) s u)
  unfolding decode_fields
  field-Ends pretty k name q s x middle end r f u hq l e (c, s', p, black, other) h more =
      let element = decode_element ops limits callbacks k in
      let fields = decode_fields ops limits callbacks k in
      let w = x ++ middle in
      let at : w ≡ c ∷ (s' ++ middle) = ap (λ k. k ++ middle) p in
      let behind = q ++ b'"' ∷ (colon pretty ++ w) in
      let same : skip_whitespace w ≡ w =
        ap skip_whitespace at ∙ skip_whitespace-black c (s' ++ middle) black ∙ sym at in
      subst (λ t. Ends end (and_then r f) (fields_of ops limits callbacks element fields t u))
        (sym e)
        (fields_of-Ends element fields name behind w middle end r f u
          (read_name-escaped pretty name q w hq l ∙ ap (λ k. value (name, k)) same)
          (h w same (
            omega (
              arith,
              ap length e,
              length-skip_whitespace s,
              length-append q (b'"' ∷ (colon pretty ++ w)),
              length-append (colon pretty) w,
            )))
          more)

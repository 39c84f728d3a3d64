-- ===== src/Json/Decode/Reading/Elements.antt =====
-- Elements of the encoder's texts in the decoder of KFCJSONCodec.c: an entry, a scalar, a container.
use kfcrash.Prelude.{
  ℕ, suc, ◌+◌, ◌≤◌, ◌≡◌, refl, sym, ap, ap₂, subst, ◌∙◌, Bool, true, false, Option, none, some, [],
  ◌∷◌, ◌++◌, append_assoc, arith, ltb, ◌==◌, if-false, Bytes, length,
}
use kfcrash.Json.Escape.{escape_loop}
use kfcrash.Json.Number.{FloatOps}
use kfcrash.Json.Encode.{opening}
use kfcrash.Json.Encode.Brackets.{ending}
use kfcrash.Json.Encode.Strings.{some-inj, colon, key}
use kfcrash.Json.Encode.Trees.{Tree, Entries, leaf, container, first_after, text_of, entries_text}
use kfcrash.Json.Encode.Trees.Written.{when-eq-some}
use kfcrash.Json.Escape.Laws.{joined-eq-some}
use kfcrash.Json.Decode.Scalars.{Scalar, skip_whitespace}
use kfcrash.Json.Decode.{
  Callbacks, Parsed, Limits, after_separator, element_of, items_of, fields_of, decode_element,
  decode_items, decode_fields,
}
use kfcrash.Json.Decode.Reading.Scalars.{
  HasRoom, ReadableScalar, as_read, may_follow, leaf_text-ReadsAs,
}
use kfcrash.Json.Decode.Reading.Spaces.{skip_whitespace-black, skip_whitespace-StartsBlack}
use kfcrash.Json.Decode.Reading.Trees.{
  ReadableTree, name_in, and_then, begin_of, Ends, reported-Ends, after_begin-Ends,
}
use kfcrash.Json.Decode.Reading.Marks.{StartsElement, close_byte, follows}
use kfcrash.Json.Decode.Reading.Turns.{item-Ends, field-Ends}

module _ {F U : Type 0} (ops : FloatOps F) (limits : Limits) (callbacks : Callbacks F U) where
  -- The loop of a container.
  pub loop : Bool → ℕ → Bytes → U → Parsed U
  loop true = decode_fields ops limits callbacks
  loop false = decode_items ops limits callbacks

  pub loop-closes :
      (object : Bool) (k : ℕ) (s rest : Bytes) (u : U)
      → skip_whitespace s ≡ close_byte object ∷ rest
      → Ends rest (callbacks.on_end_container u) (loop object (suc k) s u)
  unfolding decode_fields decode_items items_of fields_of loop
  loop-closes true k s rest u e =
      subst
        (λ t. Ends rest (callbacks.on_end_container u) (
          fields_of ops limits callbacks (decode_element ops limits callbacks k)
            (decode_fields ops limits callbacks k) t u))
        (sym e) (reported-Ends rest (callbacks.on_end_container u))
  loop-closes false k s rest u e =
      subst
        (λ t. Ends rest (callbacks.on_end_container u) (
          items_of ops limits callbacks (decode_element ops limits callbacks k none)
            (decode_items ops limits callbacks k) t u))
        (sym e) (reported-Ends rest (callbacks.on_end_container u))

  -- An entry of either kind.
  pub entry-Ends :
      (object pretty : Bool) (k : ℕ) (name q s x middle end : Bytes) (r : ℕ × U) (f : U → ℕ × U)
      (u : U)
      → escape_loop name ≡ some q
      → (object ≡ true → HasRoom limits.name_buffer_length name)
      → skip_whitespace s ≡ skip_whitespace (key pretty object q ++ (x ++ middle))
      → StartsElement x
      → ((s' : Bytes)
          → skip_whitespace s' ≡ x ++ middle
          → length s' ≤ length s
          → Ends middle r (decode_element ops limits callbacks k (name_in object name) s' u))
      → ((u : U) → Ends end (f u) (after_separator (skip_whitespace middle) u (loop object k)))
      → Ends end (and_then r f) (loop object (suc k) s u)
  unfolding loop
  entry-Ends true pretty k name q s x middle end r f u hq room e starts h more =
      let w = colon pretty ++ (x ++ middle) in
      field-Ends ops limits callbacks pretty k name q s x middle end r f u hq (room refl q hq)
        (e
          ∙ skip_whitespace-black b'"' (((q ++ (b'"' ∷ [])) ++ colon pretty) ++ (x ++ middle)) refl
          ∙ ap (λ t. b'"' ∷ t)
              (append_assoc (q ++ (b'"' ∷ [])) (colon pretty) (x ++ middle)
                ∙ append_assoc q (b'"' ∷ []) w))
        starts h more
  entry-Ends false pretty k name q s x middle end r f u hq room e (c, s', p, black, other) h more =
      item-Ends ops limits callbacks k s x middle end r f u
        (e ∙ skip_whitespace-StartsBlack x middle (c, s', p, black)) (c, s', p, black, other) h more

  pub text_of-container :
      (pretty : Bool) (level : ℕ) (object : Bool) (es : Entries F) (x : Bytes)
      → text_of ops pretty level (container object es) ≡ some x
      → (it : Bytes) × (entries_text ops pretty (level + 1) true object es ≡ some it)
        × (x ≡ opening object ++ (it ++ ending pretty (first_after true es) level object))
  unfolding text_of
  text_of-container pretty level object es x h =
      let (room, body) = when-eq-some (ltb (level + 1) 200) _ x h in
      let (o, more, ho, hm, split) = joined-eq-some (some (opening object)) _ x body in
      let (it, end, hit, hend, split') =
        joined-eq-some (entries_text ops pretty (level + 1) true object es) _ more hm in
      (
        it,
        hit,
        split
            ∙ ap₂ (λ a b. a ++ b) (sym (some-inj ho))
                (split' ∙ ap (λ z. it ++ z) (sym (some-inj hend))),
      )

  pub text_of-StartsElement :
      (pretty : Bool) (level : ℕ) (t : Tree F) (x : Bytes) (rest : Bytes)
      → text_of ops pretty level t ≡ some x
      → ReadableTree ops limits t
      → follows t rest ≡ true
      → StartsElement x
  unfolding text_of
  text_of-StartsElement pretty level (leaf v) x rest h readable b =
      let (c, s, e, start, read) = leaf_text-ReadsAs ops limits callbacks v x rest h readable b in
      (c, s, e, ground (arith, start), ground (arith, start))
  text_of-StartsElement pretty level (container true es) x rest h readable b =
      let (it, hit, e) = text_of-container pretty level true es x h in (b'{', _, e, refl, refl)
  text_of-StartsElement pretty level (container false es) x rest h readable b =
      let (it, hit, e) = text_of-container pretty level false es x h in (b'[', _, e, refl, refl)

  pub leaf-Ends :
      (pretty : Bool) (level : ℕ) (v : Scalar F) (x rest s : Bytes) (name : Option Bytes) (k : ℕ)
      (u : U)
      → text_of ops pretty level (leaf v) ≡ some x
      → ReadableScalar ops limits.string_buffer_length v
      → may_follow v rest ≡ true
      → skip_whitespace s ≡ x ++ rest
      → Ends rest
          (callbacks.on_scalar name (as_read v) u)
          (decode_element ops limits callbacks (suc k) name s u)
  unfolding text_of decode_element element_of
  leaf-Ends pretty level v x rest s name k u h readable b at =
      let (c, s', e, start, read) = leaf_text-ReadsAs ops limits callbacks v x rest h readable b in
      let heard = Ends rest (callbacks.on_scalar name (as_read v) u) in
      let items = decode_items ops limits callbacks k in
      let fields = decode_fields ops limits callbacks k in
      subst (λ t. heard (element_of ops limits callbacks items fields name t u))
        (sym (at ∙ ap (λ k. k ++ rest) e))
        (if-false heard {b = c == b'['} _ _ (ground (arith, start)) (
          if-false heard {b = c == b'{'} _ _ (ground (arith, start)) (
            subst heard (sym (read name u))
              (reported-Ends rest (callbacks.on_scalar name (as_read v) u)))))

  pub container-Ends :
      (object : Bool) (body rest s : Bytes) (name : Option Bytes) (k : ℕ) (f : U → ℕ × U) (u : U)
      → skip_whitespace s ≡ opening object ++ body
      → ((u : U) → Ends rest (f u) (loop object k body u))
      → Ends rest
          (and_then (begin_of callbacks object name u) f)
          (decode_element ops limits callbacks (suc k) name s u)
  unfolding decode_element element_of loop begin_of
  container-Ends true body rest s name k f u at h =
      let items = decode_items ops limits callbacks k in
      let fields = decode_fields ops limits callbacks k in
      let heard = Ends rest (and_then (callbacks.on_begin_object name u) f) in
      subst (λ t. heard (element_of ops limits callbacks items fields name t u)) (sym at)
        (after_begin-Ends body rest (callbacks.on_begin_object name u) f fields h)
  container-Ends false body rest s name k f u at h =
      let items = decode_items ops limits callbacks k in
      let fields = decode_fields ops limits callbacks k in
      let heard = Ends rest (and_then (callbacks.on_begin_array name u) f) in
      subst (λ t. heard (element_of ops limits callbacks items fields name t u)) (sym at)
        (after_begin-Ends body rest (callbacks.on_begin_array name u) f items h)

-- ===== src/Json/Decode/Reading/Encoded.antt =====
-- The decoder of KFCJSONCodec.c behind its encoder: what `ksjson_decode` reports of a text that was
-- encoded.
use kfcrash.Prelude.{
  ℕ, zero, suc, ◌≡◌, refl, sym, ap, ◌∙◌, Bool, true, false, Option, none, some, List, [], ◌∷◌, ◌++◌,
  append-nil, append_assoc, arith, ◌==◌, if◌then◌else◌, Bytes,
}
use kfcrash.Json.Codes.{json_ok}
use kfcrash.Json.Number.{FloatOps}
use kfcrash.Json.Encode.{Encoder, ◌then◌, begin_encode, end_encode}
use kfcrash.Json.Encode.Strings.{to_text}
use kfcrash.Json.Encode.Trees.{Tree, Entries, leaf, container, no_more, entry, text_of, add_tree}
use kfcrash.Json.Encode.Trees.Written.{encode_tree}
use kfcrash.Json.Events.{Event, scalar, begin_array, begin_object, end_container, end_data, logging}
use kfcrash.Json.Decode.Scalars.{skip_whitespace}
use kfcrash.Json.Decode.{Callbacks, Parsed, limits_of, rounds_for, Decoding, finish, decode}
use kfcrash.Json.Decode.Reading.Trees.{
  ReadableTree, name_in, and_then, replay, replay_entries, Ends, done, stops, begin_of,
}
use kfcrash.Json.Decode.Reading.Scalars.{as_read}
use kfcrash.Json.Decode.Reading.Spaces.{skip_whitespace-StartsBlack}
use kfcrash.Json.Decode.Reading.Marks.{follows}
use kfcrash.Json.Decode.Reading.Elements.{text_of-StartsElement}
use kfcrash.Json.Decode.Reading.Whole.{tree-Ends}

-- What `ksjson_decode` returns after the callbacks for a value: the first code that is not 0.
module _ {F U : Type 0} (callbacks : Callbacks F U) where
  abbrev pub outcome : ℕ → ℕ × U → Decoding U
  outcome offset (zero, u) =
      let (code, u') = callbacks.on_end_data u in
      record { code = code; error_offset = if code == 0 then offset else 0; user_data = u' }
  outcome offset (suc code, u) = record { code = suc code; error_offset = 0; user_data = u }

module _ {F U : Type 0} (ops : FloatOps F) (callbacks : Callbacks F U) where
  finish-Ends :
      (offset : ℕ) (rest : Bytes) {r : ℕ × U} {p : Parsed U}
      → Ends rest r p
      → finish ops callbacks offset p ≡ some (outcome callbacks offset r)
  unfolding finish
  finish-Ends offset rest (done {u}) = refl
  finish-Ends offset rest stops = refl

  decode_encoded :
      (pretty : Bool) (t : Tree F) (text : Bytes) (beyond buffer_length offset : ℕ) (u : U)
      → text_of ops pretty 0 t ≡ some text
      → ReadableTree ops (limits_of buffer_length beyond) t
      → follows t [] ≡ true
      → decode ops callbacks text beyond buffer_length offset u
        ≡ some (outcome callbacks offset (replay callbacks none t u))
  unfolding decode
  decode_encoded pretty t text beyond buffer_length offset u h readable alone =
      let limits = limits_of buffer_length beyond in
      let (c, s, e, black, other) =
        text_of-StartsElement ops limits callbacks pretty 0 t text [] h readable alone in
      let at : skip_whitespace text ≡ text ++ [] =
        ap skip_whitespace (sym (append-nil text))
        ∙ skip_whitespace-StartsBlack text [] (c, s, e, black) in
      finish-Ends offset [] (
        tree-Ends ops limits callbacks pretty 0 t text [] text none (rounds_for text) u h readable
          alone at (omega arith))

  -- A value is encoded, pretty or not, into a text that `ksjson_decode` reports to its callbacks
  -- value by value, in order and under the names that it was encoded with, an unsigned number
  -- that fits `int64_t` as a signed one, up to the first callback that does not return 0. That code
  -- is returned, and the one of `onEndData` where none fails. The value has a text: it nests below level
  -- 200, and its strings hold no control characters but those that have an escape. Its integers
  -- have 64 bits, a `double` of it is printed with a fraction or an exponent that the C library scans
  -- back, and what it escapes to is shorter than a quarter of the buffer for a name, and than the
  -- rest of it for a string. It is no number by itself, since one at the very end of the data is refused.
  pub encode_decode :
      (pretty : Bool) (t : Tree F) (text : Bytes) (beyond buffer_length offset : ℕ) (u : U)
      → text_of ops pretty 0 t ≡ some text
      → ReadableTree ops (limits_of buffer_length beyond) t
      → follows t [] ≡ true
      → (e : Encoder Bytes) × ((add_tree ops [] t then end_encode to_text) (begin_encode pretty [])
          ≡ some (json_ok, e))
        × (decode ops callbacks e.sink beyond buffer_length offset u
            ≡ some (outcome callbacks offset (replay callbacks none t u)))
  encode_decode pretty t text beyond buffer_length offset u h readable alone =
      let (e, called, wrote) = encode_tree ops pretty t text h in
      (
        e,
        called,
        ap (λ s. decode ops callbacks s beyond buffer_length offset u) wrote
            ∙ decode_encoded pretty t text beyond buffer_length offset u h readable alone,
      )

-- The log of a value.
unfoldable begin_event : {F : Type 0} → Bool → Option Bytes → Event F
begin_event true name = begin_object name
begin_event false name = begin_array name

unfoldable mutual
  unfolding begin_event

  pub events : {F : Type 0} → Option Bytes → Tree F → List (Event F)
  events name (leaf s) = scalar name (as_read s) ∷ []
  events name (container object entries) = begin_event object name ∷ events_of object entries

  pub events_of : {F : Type 0} → Bool → Entries F → List (Event F)
  events_of object no_more = end_container ∷ []
  events_of object (entry name t rest) = events (name_in object name) t ++ events_of object rest

mutual
  unfolding replay events begin_event begin_of

  replay-logging :
      {F : Type 0} (name : Option Bytes) (t : Tree F) (log : List (Event F))
      → replay logging name t log ≡ (0, log ++ events name t)
  replay-logging name (leaf s) log = refl
  replay-logging name (container true es) log =
      replay_entries-logging true es (log ++ (begin_object name ∷ []))
      ∙ ap (λ l. (0, l)) (append_assoc log (begin_object name ∷ []) (events_of true es))
  replay-logging name (container false es) log =
      replay_entries-logging false es (log ++ (begin_array name ∷ []))
      ∙ ap (λ l. (0, l)) (append_assoc log (begin_array name ∷ []) (events_of false es))

  replay_entries-logging :
      {F : Type 0} (object : Bool) (es : Entries F) (log : List (Event F))
      → replay_entries logging object es log ≡ (0, log ++ events_of object es)
  replay_entries-logging object no_more log = refl
  replay_entries-logging object (entry name t rest) log =
      ap (λ r. and_then r (replay_entries logging object rest))
        (replay-logging (name_in object name) t log)
      ∙ replay_entries-logging object rest (log ++ events (name_in object name) t)
      ∙ ap (λ l. (0, l)) (append_assoc log (events (name_in object name) t) (events_of object rest))

-- What was encoded, as in `encode_decode`, is decoded with callbacks that accept everything into a log
-- that has exactly the events of the value, in order, and the end of the data, with no error.
pub encode_decode_log :
    {F : Type 0} (ops : FloatOps F) (pretty : Bool) (t : Tree F) (text : Bytes)
    (beyond buffer_length offset : ℕ)
    → text_of ops pretty 0 t ≡ some text
    → ReadableTree ops (limits_of buffer_length beyond) t
    → follows t [] ≡ true
    → (e : Encoder Bytes) × ((add_tree ops [] t then end_encode to_text) (begin_encode pretty [])
        ≡ some (json_ok, e))
      × (decode ops logging e.sink beyond buffer_length offset []
          ≡ some (record {
            code = json_ok;
            error_offset = offset;
            user_data = events none t ++ (end_data ∷ []);
          }))
encode_decode_log ops pretty t text beyond buffer_length offset h readable alone =
    let (e, called, decoded) =
      encode_decode ops logging pretty t text beyond buffer_length offset [] h readable alone in
    (e, called, decoded ∙ ap (λ r. some (outcome logging offset r)) (replay-logging none t []))

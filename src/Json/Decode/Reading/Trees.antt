-- ===== src/Json/Decode/Reading/Trees.antt =====
-- Values read back: `decodeElement` of KFCJSONCodec.c on the texts that the encoder writes for whole
-- values.
use kfcrash.Prelude.{
  ℕ, zero, suc, ◌≡◌, sym, subst, Bool, true, false, Option, none, some, ◌∷◌, ◌==◌, if◌then◌else◌,
  Bytes,
}
use kfcrash.Json.Number.{FloatOps}
use kfcrash.Json.Encode.Trees.{Tree, Entries, leaf, container, no_more, entry}
use kfcrash.Json.Decode.Scalars.{skip_whitespace}
use kfcrash.Json.Decode.{
  Callbacks, Parsed, result, Limits, reported, after_separator, after_item, after_begin,
}
use kfcrash.Json.Decode.Reading.Scalars.{HasRoom, ReadableScalar, as_read}

-- A value that the decoder can give back: its scalars are, and the names in its objects have room.
module _ {F : Type 0} (ops : FloatOps F) (limits : Limits) where
  abbrev mutual
    pub ReadableTree : Tree F → Type 0
    ReadableTree (leaf s) = ReadableScalar ops limits.string_buffer_length s
    ReadableTree (container object entries) = ReadableEntries object entries

    pub ReadableEntries : Bool → Entries F → Type 0
    ReadableEntries object no_more = true ≡ true
    ReadableEntries object (entry name t rest) =
        (object ≡ true → HasRoom limits.name_buffer_length name)
        × ReadableTree t
        × ReadableEntries object rest

-- The name that a callback gets: the elements of an array have none.
abbrev pub name_in : Bool → Bytes → Option Bytes
name_in true name = some name
name_in false name = none

-- The code of a callback, and the callbacks behind it where it is 0.
abbrev pub and_then : {U : Type 0} → ℕ × U → (U → ℕ × U) → ℕ × U
and_then (zero, u) more = more u
and_then (suc code, u) more = (suc code, u)

-- The callbacks for a value, in the order of its text, up to the first that does not return 0.
module _ {F U : Type 0} (callbacks : Callbacks F U) where
  unfoldable pub begin_of : Bool → Option Bytes → U → ℕ × U
  begin_of true name u = callbacks.on_begin_object name u
  begin_of false name u = callbacks.on_begin_array name u

  unfoldable mutual
    unfolding begin_of

    pub replay : Option Bytes → Tree F → U → ℕ × U
    replay name (leaf s) u = callbacks.on_scalar name (as_read s) u
    replay name (container object entries) u =
        and_then (begin_of object name u) (replay_entries object entries)

    -- The entries and the end of their container.
    pub replay_entries : Bool → Entries F → U → ℕ × U
    replay_entries object no_more u = callbacks.on_end_container u
    replay_entries object (entry name t rest) u =
        and_then (replay (name_in object name) t u) (replay_entries object rest)

-- A parse with the outcome of the callbacks, which leaves `rest` where none of them fails.
pub data Ends {U : Type 0} (rest : Bytes) : ℕ × U → Parsed U → Type 0 where
  done : {u : U} → Ends rest (zero, u) (result zero rest u)
  stops : {code : ℕ} {left : Bytes} {u : U} → Ends rest (suc code, u) (result (suc code) left u)

module _ {U : Type 0} where
  pub reported-Ends : (rest : Bytes) (r : ℕ × U) → Ends rest r (reported rest r)
  reported-Ends rest (zero, u) = done
  reported-Ends rest (suc code, u) = stops

  pub after_begin-Ends :
      (rest end : Bytes) (r : ℕ × U) (f : U → ℕ × U) (more : Bytes → U → Parsed U)
      → ((u : U) → Ends end (f u) (more rest u))
      → Ends end (and_then r f) (after_begin rest r more)
  unfolding after_begin
  after_begin-Ends rest end (zero, u) f more h = h u
  after_begin-Ends rest end (suc code, u) f more h = stops

  pub after_item-Ends :
      (middle end : Bytes) {r : ℕ × U} {p : Parsed U} (f : U → ℕ × U) (more : Bytes → U → Parsed U)
      → Ends middle r p
      → ((u : U) → Ends end (f u) (after_separator (skip_whitespace middle) u more))
      → Ends end (and_then r f) (after_item p more)
  unfolding after_item
  after_item-Ends middle end f more (done {u}) h = h u
  after_item-Ends middle end f more stops h = stops

  -- The loop goes on behind the comma, if there is one.
  pub after_separator-Ends :
      (middle end : Bytes) (c : ℕ) (s : Bytes) (r : ℕ × U) (u : U) (more : Bytes → U → Parsed U)
      → skip_whitespace middle ≡ c ∷ s
      → Ends end r (more (if c == b',' then s else c ∷ s) u)
      → Ends end r (after_separator (skip_whitespace middle) u more)
  unfolding after_separator
  after_separator-Ends middle end c s r u more e h =
      subst (λ k. Ends end r (after_separator k u more)) (sym e) h

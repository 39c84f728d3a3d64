-- ===== src/Json/Decode/Reading/Whole.antt =====
-- Whole values read back: `decodeElement` and `ksjson_decode` of KFCJSONCodec.c on the text of a value.
use kfcrash.Prelude.{
  ℕ, zero, suc, ◌+◌, ◌*◌, ◌<◌, ◌≡◌, refl, sym, ap, ◌∙◌, Bool, true, ◌&&◌, Option, some, ◌∷◌, ◌++◌,
  append_assoc, arith, ltb, ◌==◌, if◌then◌else◌, Bytes, length, length-append,
}
use kfcrash.Json.Number.{FloatOps}
use kfcrash.Json.Encode.{opening}
use kfcrash.Json.Encode.Brackets.{ending}
use kfcrash.Json.Encode.Strings.{some-inj, key, line}
use kfcrash.Json.Encode.Trees.{
  Tree, Entries, leaf, container, no_more, entry, first_after, text_of, entries_text,
}
use kfcrash.Json.Decode.Scalars.{skip_whitespace}
use kfcrash.Json.Decode.Scalars.Lengths.{length-skip_whitespace}
use kfcrash.Json.Decode.{Callbacks, Limits, decode_element}
use kfcrash.Json.Decode.Reading.Numbers.{breaks}
use kfcrash.Json.Decode.Reading.Spaces.{entries_text-entry, after_entry}
use kfcrash.Json.Decode.Reading.Trees.{
  ReadableTree, ReadableEntries, name_in, replay, replay_entries, Ends, after_separator-Ends,
}
use kfcrash.Json.Decode.Reading.Marks.{
  close_byte, length-opening, close_byte-black, close_byte-no_comma, entry_front, length-entry,
  length-separated, follows, breaks-follows, skip_whitespace-ending, breaks-ending,
}
use kfcrash.Json.Decode.Reading.Elements.{
  loop, loop-closes, entry-Ends, text_of-container, text_of-StartsElement, leaf-Ends,
  container-Ends,
}

module _ {F U : Type 0} (ops : FloatOps F) (limits : Limits) (callbacks : Callbacks F U)
    (pretty : Bool) where
  mutual
    unfolding replay text_of

    pub tree-Ends :
        (level : ℕ) (t : Tree F) (x rest s : Bytes) (name : Option Bytes) (k : ℕ) (u : U)
        → text_of ops pretty level t ≡ some x
        → ReadableTree ops limits t
        → follows t rest ≡ true
        → skip_whitespace s ≡ x ++ rest
        → 2 * length s < k
        → Ends rest (replay callbacks name t u) (decode_element ops limits callbacks k name s u)
    tree-Ends level t x rest s name zero u h readable b at enough = absurd (omega arith)
    tree-Ends level (leaf v) x rest s name (suc k) u h readable b at enough =
        leaf-Ends ops limits callbacks pretty level v x rest s name k u h readable b at
    tree-Ends level (container object es) x rest s name (suc k) u h readable b at enough =
        let (it, hit, e) = text_of-container ops limits callbacks pretty level object es x h in
        let end = ending pretty (first_after true es) level object in
        let body = (it ++ (end ++ rest)) in
        let opened : skip_whitespace s ≡ opening object ++ body =
          at
          ∙ ap (λ t. t ++ rest) e
          ∙ append_assoc (opening object) (it ++ end) rest
          ∙ ap (λ t. opening object ++ t) (append_assoc it end rest) in
        container-Ends ops limits callbacks object body rest s name k
          (replay_entries callbacks object es) u opened
          (λ u'.
            entries-Ends (level + 1) object es it (end ++ rest) rest body k u' hit readable
              (skip_whitespace-ending pretty (first_after true es) level object rest)
              (breaks-ending pretty (first_after true es) level object rest) refl
              (omega (
                arith,
                ap length opened,
                length-append (opening object) body,
                length-opening object,
                length-skip_whitespace s,
              )))

    pub entries-Ends :
        (level : ℕ) (object : Bool) (es : Entries F) (z tail rest s : Bytes) (k : ℕ) (u : U)
        → entries_text ops pretty level true object es ≡ some z
        → ReadableEntries ops limits object es
        → skip_whitespace tail ≡ close_byte object ∷ rest
        → breaks tail ≡ true
        → skip_whitespace s ≡ skip_whitespace (z ++ tail)
        → 2 * length s + 1 < k
        → Ends rest (replay_entries callbacks object es u) (loop ops limits callbacks object k s u)
    entries-Ends level object es z tail rest s zero u h readable closed b at enough =
        absurd (omega arith)
    entries-Ends level object no_more z tail rest s (suc k) u h readable closed b at enough =
        loop-closes ops limits callbacks object k s rest u
          (at ∙ sym (ap (λ y. skip_whitespace (y ++ tail)) (some-inj h)) ∙ closed)
    entries-Ends level object (entry name t es) z tail rest s (suc k) u h readable closed b at
          enough =
        let (q, x, y, hq, hx, hy, split) =
          entries_text-entry ops pretty level true object name t es z h in
        let (z', c, s', hz, next, same, broken) =
          after_entry ops pretty level object es y tail rest (close_byte object) hy closed
            (close_byte-black object) (close_byte-no_comma object) b in
        let broken_line = pretty && ltb 0 level in
        let front =
          at
          ∙ ap (λ t. skip_whitespace (t ++ tail)) split
          ∙ ap skip_whitespace
              (append_assoc ((line broken_line level ++ key pretty object q) ++ x) y tail)
          ∙ entry_front pretty broken_line object level q x y tail in
        let starts =
          text_of-StartsElement ops limits callbacks pretty level t x (y ++ tail) hx readable.1
            (breaks-follows t (y ++ tail) broken) in
        entry-Ends ops limits callbacks object pretty k name q s x (y ++ tail) rest
          (replay callbacks (name_in object name) t u) (replay_entries callbacks object es) u hq
          readable.0 front starts
          (λ r e l.
            tree-Ends level t x (y ++ tail) r (name_in object name) k u hx readable.1
              (breaks-follows t (y ++ tail) broken) e (omega (arith, l)))
          (λ u'.
            after_separator-Ends (y ++ tail) rest c s' (replay_entries callbacks object es u') u'
              (loop ops limits callbacks object k) next
              (entries-Ends level object es z' tail rest (if c == b',' then s' else c ∷ s') k u' hz
                readable.2 closed b same
                (omega (
                  arith,
                  length-separated c s' (y ++ tail) next,
                  length-entry pretty object s q x (y ++ tail) front starts,
                ))))

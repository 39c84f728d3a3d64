-- ===== src/Json/Encode/Closing.antt =====
-- `ksjson_endEncode` of KFCJSONCodec.c closes what is open, into a sink that accepts every text.
use kfcrash.Prelude.{
  ℕ, zero, suc, ◌-◌, ◌<◌, ◌≡◌, refl, sym, ap, ◌∙◌, Bool, false, Option, some, List, [], ◌∷◌, ◌++◌,
  append-nil, append_assoc, arith, ◌==◌, if-false, Bytes, length, get_elem?, get_or,
}
use kfcrash.Json.Codes.{json_ok}
use kfcrash.Json.Encode.Strings.{to_text, Gives, then-Gives}
use kfcrash.Json.Encode.Brackets.{ending, end_container-Gives}
use kfcrash.Json.Encode.{Encoder, Call, end_container, end_levels, end_encode}

-- The brackets that close so many levels, the innermost first; `first` says that it is empty.
abbrev pub closers : Bool → List Bool → Bool → ℕ → Bytes
closers pretty kinds first zero = []
closers pretty kinds first (suc level) =
    ending pretty first level (get_or kinds (suc level) false) ++ closers pretty kinds false level

get_elem?-in : (xs : List Bool) (i : ℕ) → i < length xs → get_elem? xs i ≡ some (get_or xs i false)
get_elem?-in [] i h = absurd (omega arith)
get_elem?-in (x ∷ xs) zero h = refl
get_elem?-in (x ∷ xs) (suc i) h = get_elem?-in xs i (omega arith)

-- Where a call leaves the encoder: outside every container, with the text added.
abbrev Ends : Call Bytes → Encoder Bytes → Bytes → Type 0
Ends m e text =
    (e' : Encoder Bytes) × Gives m e e' × (e'.container_level ≡ 0) × (e'.sink ≡ e.sink ++ text)

one_less : (level n : ℕ) → level ≡ suc n → level - 1 ≡ n
one_less level n h = omega (arith, h)

end_levels-Ends :
    (n level : ℕ) (first pretty : Bool) (kinds : List Bool) (sink : Bytes)
    → level ≡ n
    → n < length kinds
    → Ends
        (end_levels to_text n)
        (record {
          container_level = level;
          is_object = kinds;
          container_first_entry = first;
          pretty_print = pretty;
          sink = sink;
        })
        (closers pretty kinds first n)
unfolding end_levels
end_levels-Ends zero level first pretty kinds sink h l = (_, refl, h, sym (append-nil sink))
end_levels-Ends (suc n) level first pretty kinds sink h l =
    let e : Encoder Bytes = record {
      container_level = level;
      is_object = kinds;
      container_first_entry = first;
      pretty_print = pretty;
      sink = sink;
    } in
    let kind = get_or kinds (suc n) false in
    let text = ending pretty first (level - 1) kind in
    let closed =
      end_container-Gives kind e (omega (arith, h))
        (ap (get_elem? kinds) h ∙ get_elem?-in kinds (suc n) l) in
    let (e', gives, out, written) =
      end_levels-Ends n (level - 1) false pretty kinds (sink ++ text) (omega (arith, h))
        (omega arith) in
    (
      e',
      if-false (λ (o : Option (ℕ × Encoder Bytes)). o ≡ some (json_ok, e')) {b = level == 0}
          (some (json_ok, e)) _ (ground (arith, h))
          (then-Gives (end_container to_text) (end_levels to_text n) e closed gives),
      out,
      written
          ∙ append_assoc sink text (closers pretty kinds false n)
          ∙ ap (λ k. sink ++ (ending pretty first k kind ++ closers pretty kinds false n))
              (one_less level n h),
    )

-- At any level below the length of `isObject`, `ksjson_endEncode` into a sink that accepts every text
-- succeeds, leaves every container, and adds the closing brackets of all that were open, the innermost
-- first, each of the kind with which its container was begun.
pub end_encode-Ends :
    (e : Encoder Bytes)
    → e.container_level < length e.is_object
    → (e' : Encoder Bytes) × (end_encode to_text e ≡ some (json_ok, e'))
      × (e'.container_level ≡ 0)
      × (e'.sink
          ≡ e.sink ++ closers e.pretty_print e.is_object e.container_first_entry e.container_level)
unfolding end_encode
end_encode-Ends e h =
    end_levels-Ends e.container_level e.container_level e.container_first_entry e.pretty_print
      e.is_object e.sink refl h

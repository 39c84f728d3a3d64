-- ===== src/Json/Decode/Reading/Spaces.antt =====
-- The whitespace and the commas between the entries of a container, which the decoder of
-- KFCJSONCodec.c skips.
use kfcrash.Prelude.{
  ℕ, zero, suc, ◌≡◌, refl, sym, ap, ap₂, ◌∙◌, Bool, true, false, ◌&&◌, some, [], ◌∷◌, ◌++◌, arith,
  ltb, ◌==◌, if◌then◌else◌, if-false, Bytes,
}
use kfcrash.Json.Escape.{escape_loop, joined}
use kfcrash.Json.Escape.Laws.{joined-eq-some}
use kfcrash.Json.Number.{FloatOps}
use kfcrash.Json.Encode.Strings.{some-inj, comma, spaces, line, colon, key}
use kfcrash.Json.Encode.Trees.{Tree, Entries, no_more, entry, lead_text, text_of, entries_text}
use kfcrash.Json.Encode.Trees.Written.{lead_text-eq-some}
use kfcrash.Json.Decode.Scalars.{is_space, skip_whitespace}
use kfcrash.Json.Decode.Reading.Numbers.{breaks}

-- A text that starts with no whitespace.
abbrev pub StartsBlack : Bytes → Type 0
StartsBlack t = (c : ℕ) × (s : Bytes) × (t ≡ c ∷ s) × (is_space c ≡ false)

pub skip_whitespace-black :
    (c : ℕ) (s : Bytes) → is_space c ≡ false → skip_whitespace (c ∷ s) ≡ c ∷ s
unfolding skip_whitespace
skip_whitespace-black c s h = ground (arith, h)

pub skip_whitespace-StartsBlack :
    (t rest : Bytes) → StartsBlack t → skip_whitespace (t ++ rest) ≡ t ++ rest
skip_whitespace-StartsBlack t rest (c, s, e, h) =
    ap (λ k. skip_whitespace (k ++ rest)) e
    ∙ skip_whitespace-black c (s ++ rest) h
    ∙ sym (ap (λ k. k ++ rest) e)

skip_whitespace-spaces : (n : ℕ) (s : Bytes) → skip_whitespace (spaces n ++ s) ≡ skip_whitespace s
unfolding skip_whitespace
skip_whitespace-spaces zero s = refl
skip_whitespace-spaces (suc n) s = skip_whitespace-spaces n s

pub skip_whitespace-line :
    (pretty : Bool) (n : ℕ) (s : Bytes) → skip_whitespace (line pretty n ++ s) ≡ skip_whitespace s
unfolding skip_whitespace
skip_whitespace-line true n s = skip_whitespace-spaces n s
skip_whitespace-line false n s = refl

-- Behind the byte of the colon.
pub skip_whitespace-colon :
    (pretty : Bool) (s : Bytes)
    → (r : Bytes) × (colon pretty ++ s ≡ b':' ∷ r) × (skip_whitespace r ≡ skip_whitespace s)
unfolding skip_whitespace
skip_whitespace-colon true s = (b' ' ∷ s, refl, refl)
skip_whitespace-colon false s = (s, refl, refl)

module _ {F : Type 0} (ops : FloatOps F) (pretty : Bool) where
  -- The parts of an entry's text.
  pub entries_text-entry :
      (level : ℕ) (first object : Bool) (name : Bytes) (t : Tree F) (es : Entries F) (y : Bytes)
      → entries_text ops pretty level first object (entry name t es) ≡ some y
      → (q : Bytes) × (x : Bytes) × (z : Bytes) × (escape_loop name ≡ some q)
        × (text_of ops pretty level t ≡ some x)
        × (entries_text ops pretty level false object es ≡ some z)
        × (y
            ≡ ((comma first ++ (line (pretty && ltb 0 level) level ++ key pretty object q)) ++ x)
              ++ z)
  unfolding entries_text
  entries_text-entry level first object name t es y h =
      let lead = lead_text pretty level first object (escape_loop name) in
      let (lx, z, hlx, hz, split) =
        joined-eq-some (joined lead (text_of ops pretty level t))
          (entries_text ops pretty level false object es) y h in
      let (l, x, hl, hx, split') = joined-eq-some lead (text_of ops pretty level t) lx hlx in
      let (q, hq, el) = lead_text-eq-some pretty level first object (escape_loop name) l hl in
      (q, x, z, hq, hx, hz, split ∙ ap (λ k. k ++ z) (split' ∙ ap (λ k. k ++ x) el))

  -- An entry that is not the first has the text that it has as the first, behind a comma.
  entries_text-comma :
      (level : ℕ) (object : Bool) (name : Bytes) (t : Tree F) (es : Entries F) (y : Bytes)
      → entries_text ops pretty level false object (entry name t es) ≡ some y
      → (z : Bytes) × (y ≡ b',' ∷ z)
        × (entries_text ops pretty level true object (entry name t es) ≡ some z)
  unfolding entries_text
  entries_text-comma level object name t es y h =
      let (q, x, z, hq, hx, hz, split) = entries_text-entry level false object name t es y h in
      (_, split, ap₂ joined (ap₂ joined (ap (lead_text pretty level true object) hq) hx) hz)

  -- Behind an entry: a comma and the other entries, or the end of the container.
  pub after_entry :
      (level : ℕ) (object : Bool) (es : Entries F) (y tail end : Bytes) (close : ℕ)
      → entries_text ops pretty level false object es ≡ some y
      → skip_whitespace tail ≡ close ∷ end
      → is_space close ≡ false
      → close == b',' ≡ false
      → breaks tail ≡ true
      → (z : Bytes) × (c : ℕ) × (s : Bytes) × (entries_text ops pretty level true object es
          ≡ some z)
        × (skip_whitespace (y ++ tail) ≡ c ∷ s)
        × (skip_whitespace (if c == b',' then s else c ∷ s) ≡ skip_whitespace (z ++ tail))
        × (breaks (y ++ tail) ≡ true)
  unfolding entries_text skip_whitespace
  after_entry level object no_more y tail end close h t black other b =
      let nothing = some-inj h in
      (
        [],
        close,
        end,
        refl,
        sym (ap (λ k. skip_whitespace (k ++ tail)) nothing) ∙ t,
        if-false (λ k. skip_whitespace k ≡ skip_whitespace tail) {b = close == b','} end
            (close ∷ end) other (skip_whitespace-black close end black ∙ sym t),
        sym (ap (λ k. breaks (k ++ tail)) nothing) ∙ b,
      )
  after_entry level object (entry name t es) y tail end close h e black other b =
      let (z, p, q) = entries_text-comma level object name t es y h in
      (
        z,
        b',',
        z ++ tail,
        q,
        ap (λ k. skip_whitespace (k ++ tail)) p,
        refl,
        ap (λ k. breaks (k ++ tail)) p,
      )

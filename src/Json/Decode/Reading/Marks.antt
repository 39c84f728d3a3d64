-- ===== src/Json/Decode/Reading/Marks.antt =====
-- What stands around a value in the encoder's texts, for the decoder of KFCJSONCodec.c.
use kfcrash.Prelude.{
  ℕ, ◌≤◌, ◌<◌, ◌≡◌, refl, ap, ◌∙◌, Bool, true, false, not, ◌&&◌, [], ◌∷◌, ◌++◌, append_assoc, arith,
  ◌==◌, if◌then◌else◌, if-elim, Bytes, length, length-append,
}
use kfcrash.Json.Encode.{opening}
use kfcrash.Json.Encode.Brackets.{ending}
use kfcrash.Json.Encode.Strings.{colon, key, line}
use kfcrash.Json.Encode.Trees.{Tree, leaf, container}
use kfcrash.Json.Decode.Scalars.{
  boolean, null, integer, unsigned_integer, floating_point, text, is_space, skip_whitespace,
}
use kfcrash.Json.Decode.Scalars.Lengths.{length-skip_whitespace}
use kfcrash.Json.Decode.Reading.Numbers.{breaks}
use kfcrash.Json.Decode.Reading.Scalars.{may_follow}
use kfcrash.Json.Decode.Reading.Spaces.{
  skip_whitespace-black, skip_whitespace-StartsBlack, skip_whitespace-line,
}

-- A text that starts with no whitespace, and with no bracket that closes.
abbrev pub StartsElement : Bytes → Type 0
StartsElement t = (c : ℕ) × (s : Bytes) × (t ≡ c ∷ s) × (is_space c ≡ false) × (c == b']' ≡ false)

abbrev pub close_byte : Bool → ℕ
close_byte object = if object then b'}' else b']'

-- What follows a value: behind a number, no character of numbers.
abbrev pub follows : {F : Type 0} → Tree F → Bytes → Bool
follows (leaf s) rest = may_follow s rest
follows (container object entries) rest = true

pub breaks-follows :
    {F : Type 0} (t : Tree F) (rest : Bytes) → breaks rest ≡ true → follows t rest ≡ true
breaks-follows (leaf (boolean b)) rest h = refl
breaks-follows (leaf null) rest h = refl
breaks-follows (leaf (integer i)) rest h = h
breaks-follows (leaf (unsigned_integer n)) rest h = h
breaks-follows (leaf (floating_point v)) rest h = h
breaks-follows (leaf (text s)) rest h = refl
breaks-follows (container object entries) rest h = refl

pub skip_whitespace-ending :
    (pretty empty : Bool) (level : ℕ) (object : Bool) (rest : Bytes)
    → skip_whitespace (ending pretty empty level object ++ rest) ≡ close_byte object ∷ rest
unfolding skip_whitespace
skip_whitespace-ending pretty empty level true rest =
    ap skip_whitespace (append_assoc (line (pretty && not empty) level) (b'}' ∷ []) rest)
    ∙ skip_whitespace-line (pretty && not empty) level (b'}' ∷ rest)
skip_whitespace-ending pretty empty level false rest =
    ap skip_whitespace (append_assoc (line (pretty && not empty) level) (b']' ∷ []) rest)
    ∙ skip_whitespace-line (pretty && not empty) level (b']' ∷ rest)

pub breaks-ending :
    (pretty empty : Bool) (level : ℕ) (object : Bool) (rest : Bytes)
    → breaks (ending pretty empty level object ++ rest) ≡ true
breaks-ending true true level true rest = refl
breaks-ending true true level false rest = refl
breaks-ending true false level true rest = refl
breaks-ending true false level false rest = refl
breaks-ending false empty level true rest = refl
breaks-ending false empty level false rest = refl

pub length-opening : (object : Bool) → length (opening object) ≡ 1
length-opening true = refl
length-opening false = refl

pub close_byte-black : (object : Bool) → is_space (close_byte object) ≡ false
close_byte-black true = refl
close_byte-black false = refl

pub close_byte-no_comma : (object : Bool) → close_byte object == b',' ≡ false
close_byte-no_comma true = refl
close_byte-no_comma false = refl

-- What stands in front of an entry's value, without the line break.
pub entry_front :
    (pretty broken object : Bool) (level : ℕ) (q x y tail : Bytes)
    → skip_whitespace (((line broken level ++ key pretty object q) ++ x) ++ (y ++ tail))
      ≡ skip_whitespace (key pretty object q ++ (x ++ (y ++ tail)))
entry_front pretty broken object level q x y tail =
    let l = line broken level in
    let k = key pretty object q in
    ap skip_whitespace (append_assoc (l ++ k) x (y ++ tail) ∙ append_assoc l k (x ++ (y ++ tail)))
    ∙ skip_whitespace-line broken level (k ++ (x ++ (y ++ tail)))

-- An entry takes bytes.
pub length-entry :
    (pretty object : Bool) (s q x middle : Bytes)
    → skip_whitespace s ≡ skip_whitespace (key pretty object q ++ (x ++ middle))
    → StartsElement x
    → length middle < length s
length-entry pretty true s q x middle e (c, s', p, black, other) =
    let behind = ((q ++ (b'"' ∷ [])) ++ colon pretty) ++ (x ++ middle) in
    let at = e ∙ skip_whitespace-black b'"' behind refl in
    omega (
      arith,
      ap length at,
      length-skip_whitespace s,
      length-append x middle,
      ap length p,
      length-append ((q ++ (b'"' ∷ [])) ++ colon pretty) (x ++ middle),
    )
length-entry pretty false s q x middle e (c, s', p, black, other) =
    let at = e ∙ skip_whitespace-StartsBlack x middle (c, s', p, black) in
    omega (arith, ap length at, length-skip_whitespace s, length-append x middle, ap length p)

pub length-separated :
    (c : ℕ) (s middle : Bytes)
    → skip_whitespace middle ≡ c ∷ s
    → length (if c == b',' then s else c ∷ s) ≤ length middle
length-separated c s middle e =
    if-elim (λ t. length t ≤ length middle) (c == b',')
      (omega (arith, ap length e, length-skip_whitespace middle))
      (omega (arith, ap length e, length-skip_whitespace middle))

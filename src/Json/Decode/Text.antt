-- ===== src/Json/Decode/Text.antt =====
-- The strings of the JSON decoder: `writeUTF8` and `decodeString` of KFCJSONCodec.c. A byte of
-- 0x80 or more is a negative `char` on the targets, and as an index it lies outside a table.
pub mod Laws
pub mod Unicode
mod Tests
use kfcrash.Prelude.{
  ℕ, zero, suc, ◌+◌, ◌-◌, ◌*◌, ◌/◌, ◌%◌, ◌^◌, ◌≤◌, ◌<◌, ◌≡◌, refl, sym, ap, ap₂, subst, ◌∙◌, ◌≢◌,
  ◌↔◌, ◌⊎◌, inl, inr, Bool, true, false, not, ◌&&◌, ◌||◌, Option, none, some, List, [], ◌∷◌, ◌++◌,
  map, append-nil, append_assoc, arith, ltb, leb, ◌==◌, if◌then◌else◌, ==_iff, ==_self, Bool-cases,
  Option-cases, Bytes, codes, length, get_elem?, get_or, set, take, drop, replicate, length-append,
  length-set, get_or-set_self, get_or-set_ne, length-drop, length-take, take-append-drop,
  length-replicate,
}
use kfcrash.Json.Codes.{invalid_character, data_too_long, incomplete}

-- What a step of the decoder yields: a value, a result code, or an access outside its object.
pub data Decoded {ℓ} (A : Type ℓ) : Type ℓ where
  value : A → Decoded A
  failed : ℕ → Decoded A
  fault : Decoded A

infixl 5 ◌>>=◌
abbrev pub ◌>>=◌ {ℓ κ} : {A : Type ℓ} {B : Type κ} → Decoded A → (A → Decoded B) → Decoded B
value a >>= f = f a
failed code >>= f = failed code
fault >>= f = fault

-- `g_hexConversion`: `none` is `INV`.
unfoldable pub hex_conversion : ℕ → Option ℕ
hex_conversion c =
    if leb b'0' c && leb c b'9'
    then some (c - b'0')
    else if leb b'A' c && leb c b'F'
    then some (c - b'A' + 10)
    else if leb b'a' c && leb c b'f'
    then some (c - b'a' + 10)
    else none

-- A code unit put together from nybbles; a nybble that is `INV` makes it exceed 0xffff.
abbrev unit_of : Option ℕ → Option ℕ → Option ℕ → Option ℕ → Option ℕ
unit_of (some a) (some b) (some c) (some d) = some (a * 4096 + b * 256 + c * 16 + d)
unit_of _ _ _ _ = none

pub code_unit : ℕ → ℕ → ℕ → ℕ → Decoded (Option ℕ)
unfolding hex_conversion
code_unit a b c d =
    if ltb a 128 && ltb b 128 && ltb c 128 && ltb d 128
    then value (unit_of (hex_conversion a) (hex_conversion b) (hex_conversion c) (hex_conversion d))
    else fault

-- `writeUTF8`: the bytes, or `none` for `KSJSON_ERROR_INVALID_CHARACTER`.
unfoldable pub write_utf8 : ℕ → Option Bytes
write_utf8 c =
    if leb c 0x7f
    then some (c ∷ [])
    else if leb c 0x7ff
    then some ((0xc0 + c / 64) ∷ (0x80 + c % 64) ∷ [])
    else if leb c 0xffff
    then some ((0xe0 + c / 4096) ∷ (0x80 + (c / 64) % 64) ∷ (0x80 + c % 64) ∷ [])
    else if leb c 0x10ffff
    then some (
        (0xf0 + c / 262144)
        ∷ (0x80 + (c / 4096) % 64)
        ∷ (0x80 + (c / 64) % 64)
        ∷ (0x80 + c % 64)
        ∷ [])
    else none

abbrev or_invalid {ℓ} : {A : Type ℓ} → Option A → Decoded A
or_invalid (some a) = value a
or_invalid none = failed invalid_character

abbrev pub is_trail : ℕ → Bool
is_trail u = leb 0xdc00 u && leb u 0xdfff

abbrev pub is_lead : ℕ → Bool
is_lead u = leb 0xd800 u && leb u 0xdbff

-- The code point of a surrogate pair, as the source combines it.
abbrev pub combine : ℕ → ℕ → ℕ
combine lead trail = (lead - 0xd800) * 1024 + (trail - 0xdc00)

-- The trail surrogate behind a lead: `\uXXXX`, and what follows it.
trail_surrogate : ℕ → Bytes → Decoded (ℕ × Bytes)
unfolding code_unit
trail_surrogate lead (s ∷ u ∷ a ∷ b ∷ c ∷ d ∷ rest) =
    if not (s == b'\\') || not (u == b'u')
    then failed invalid_character
    else (code_unit a b c d >>= or_invalid >>= λ trail.
        if is_trail trail then value (combine lead trail, rest) else failed invalid_character)
trail_surrogate lead _ = failed incomplete

after_unit : Bytes → ℕ → Decoded (ℕ × Bytes)
unfolding trail_surrogate
after_unit rest unit =
    if is_trail unit
    then failed invalid_character
    else if is_lead unit
    then trail_surrogate unit rest
    else value (unit, rest)

-- `case 'u'`: the bytes to write, and what is left behind the sequence.
unfoldable pub unicode_escape : Bytes → Decoded (Bytes × Bytes)
unfolding after_unit code_unit write_utf8
unicode_escape (a ∷ b ∷ c ∷ d ∷ rest) =
    code_unit a b c d >>= or_invalid >>= after_unit rest >>= λ (point, rest').
    or_invalid (write_utf8 point) >>= λ text. value (text, rest')
unicode_escape _ = failed incomplete

-- The byte that a one-letter escape stands for.
unfoldable pub simple_escape : ℕ → Option ℕ
simple_escape e =
    if e == b'"' || e == b'\\' || e == b'/'
    then some e
    else if e == b'n'
    then some b'\n'
    else if e == b'r'
    then some b'\r'
    else if e == b't'
    then some b'\t'
    else if e == b'b'
    then some 8
    else if e == b'f'
    then some 12
    else none

abbrev before {ℓ} : {A : Type ℓ} → List A → Decoded (List A) → Decoded (List A)
before a (value b) = value (a ++ b)
before a (failed code) = failed code
before a fault = fault

-- The copying loop. Each round takes a byte at least, so the length of the text is enough rounds.
-- A backslash at the very end makes it read the closing quote.
pub unescape : ℕ → Bytes → Decoded Bytes
unfolding simple_escape unicode_escape
unescape rounds [] = value []
unescape zero (c ∷ rest) = failed incomplete
unescape (suc rounds) (c ∷ []) = value ((if c == b'\\' then b'"' else c) ∷ [])
unescape (suc rounds) (c ∷ e ∷ rest) =
    let plain = before (c ∷ []) (unescape rounds (e ∷ rest)) in
    let unicode = unicode_escape rest >>= λ (text, rest'). before text (unescape rounds rest') in
    let simple = or_invalid (simple_escape e) >>= λ b. before (b ∷ []) (unescape rounds rest) in
    if not (c == b'\\') then plain else if e == b'u' then unicode else simple

-- The scan for the closing quote: the text before it, what follows it, and whether the text holds
-- no backslash. A backslash takes the next byte with it.
abbrev pub Scanned : Type 0
Scanned = Bytes × Bytes × Bool

abbrev scanned_before : Bytes → Bool → Option Scanned → Option Scanned
scanned_before a plain none = none
scanned_before a plain (some (text, rest, fast)) = some (a ++ text, rest, plain && fast)

pub find_close : Bytes → Option Scanned
find_close [] = none
find_close (c ∷ []) = if c == b'"' then some ([], [], true) else none
find_close (c ∷ d ∷ rest) =
    let plain = scanned_before (c ∷ []) true (find_close (d ∷ rest)) in
    let escaped = scanned_before (c ∷ d ∷ []) false (find_close rest) in
    if c == b'"' then some ([], d ∷ rest, true) else if c == b'\\' then escaped else plain

-- Behind the scan.
copy_text : ℕ → Option Scanned → Decoded (Bytes × Bytes)
copy_text dst_length none = failed incomplete
copy_text dst_length (some (text, rest, fast)) =
    if leb dst_length (length text)
    then failed data_too_long
    else if fast
    then value (text, rest)
    else (unescape (length text) text >>= λ copied. value (copied, rest))

-- `decodeString` at a byte `c` with `rest` behind it: what it leaves in the buffer before the
-- final NUL, and where the decoder goes on.
unfoldable pub decode_string : ℕ → ℕ → Bytes → Decoded (Bytes × Bytes)
unfolding find_close copy_text unescape
decode_string dst_length c rest =
    if c == b'"' then copy_text dst_length (find_close rest) else failed invalid_character

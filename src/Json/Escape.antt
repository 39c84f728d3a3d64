-- ===== src/Json/Escape.antt =====
-- Escaping of strings, `appendEscapedString` of KFCJSONCodec.c.
pub mod Laws
use kfcrash.Prelude.{
  ℕ, ◌≡◌, Bool, true, false, not, ◌&&◌, ◌||◌, Option, none, some, List, [], ◌∷◌, ◌++◌, ltb, ◌==◌,
  if◌then◌else◌, Bytes,
}

abbrev pub backslashed : ℕ → Bytes
backslashed c = b'\\' ∷ c ∷ []

-- The work buffer after two writes, unless one was refused.
abbrev pub joined : Option Bytes → Option Bytes → Option Bytes
joined none b = none
joined (some a) none = none
joined (some a) (some b) = some (a ++ b)

-- The `switch` of the second loop, for one byte; `none` is `KSJSON_ERROR_INVALID_CHARACTER`.
unfoldable pub escape_byte : ℕ → Option Bytes
escape_byte c =
    if c == b'\\' || c == b'"'
    then some (backslashed c)
    else if c == 8
    then some (backslashed b'b')
    else if c == 12
    then some (backslashed b'f')
    else if c == b'\n'
    then some (backslashed b'n')
    else if c == b'\r'
    then some (backslashed b'r')
    else if c == b'\t'
    then some (backslashed b't')
    else if ltb c b' '
    then none
    else some (c ∷ [])

-- The second loop.
unfoldable pub escape_loop : Bytes → Option Bytes
unfolding escape_byte
escape_loop [] = some []
escape_loop (c ∷ rest) = joined (escape_byte c) (escape_loop rest)

abbrev pub is_plain : ℕ → Bool
is_plain c = not (c == b'\\') && not (c == b'"') && not (ltb c b' ')

-- The first loop: the plain bytes that it copies, and what is left.
pub copy_plain : Bytes → Bytes × Bytes
copy_plain [] = ([], [])
copy_plain (c ∷ rest) =
    let (plain, left) = copy_plain rest in if is_plain c then (c ∷ plain, left) else ([], c ∷ rest)

-- What `appendEscapedString` has in its work buffer at the end.
unfoldable pub escaped_portion : Bytes → Option Bytes
unfolding copy_plain escape_loop
escaped_portion s = let (plain, left) = copy_plain s in joined (some plain) (escape_loop left)

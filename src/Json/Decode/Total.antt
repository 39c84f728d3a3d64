-- ===== src/Json/Decode/Total.antt =====
-- The decoder ends: each element takes a byte at least, so the rounds given are enough.
use kfcrash.Prelude.{
  ℕ, zero, suc, ◌+◌, ◌*◌, ◌≤◌, ◌<◌, ◌≡◌, refl, ◌≢◌, inl, inr, Bool, true, false, Option, none, some,
  [], ◌∷◌, arith, ◌==◌, if◌then◌else◌, Bool-cases, Bytes, codes, length,
}
use kfcrash.Json.Number.{FloatOps}
use kfcrash.Json.Decode.Text.{Decoded, value, failed, fault, ◌>>=◌, decode_string}
use kfcrash.Json.Decode.Text.Laws.{decode_string-length}
use kfcrash.Json.Decode.Scalars.{Token, skip_whitespace, is_digit}
use kfcrash.Json.Decode.Scalars.Lengths.{
  length-skip_whitespace, Taken, took, refused, Taken-if, Taken-when, read_number-Taken,
  read_negative-Taken, read_word-Taken,
}
use kfcrash.Json.Decode.{
  Callbacks, Parsed, result, outside, unfinished, Limits, after_separator, after_item, after_begin,
  expect_colon, read_name, of_text, of_token, read_token, decode_scalar, element_of, items_of,
  after_name, fields_of, decode_element, decode_items, decode_fields, rounds_for,
}

-- Not without a result, and after a success fewer than `n` bytes are left.
data Fine {U : Type 0} (n : ℕ) : Parsed U → Type 0 where
  ok : {rest : Bytes} {u : U} → length rest < n → Fine n (result zero rest u)
  stopped : {code : ℕ} {rest : Bytes} {u : U} → Fine n (result (suc code) rest u)
  out : Fine n outside

Fine-le : {U : Type 0} {m n : ℕ} {p : Parsed U} → m ≤ n → Fine m p → Fine n p
Fine-le h (ok l) = ok (omega arith)
Fine-le h stopped = stopped
Fine-le h out = out

Fine-if :
    {U : Type 0} {n : ℕ} (b : Bool) {p q : Parsed U}
    → Fine n p
    → Fine n q
    → Fine n (if b then p else q)
Fine-if true f g = f
Fine-if false f g = g

Fine-ends : {U : Type 0} {n : ℕ} {p : Parsed U} → Fine n p → p ≢ unfinished
Fine-ends (ok l) e = absurd (cc)
Fine-ends stopped e = absurd (cc)
Fine-ends out e = absurd (cc)

Fine-left :
    {U : Type 0} {n : ℕ} {p : Parsed U} {rest : Bytes} {u : U}
    → Fine n p
    → p ≡ result 0 rest u
    → length rest < n
Fine-left (ok l) e = ground arith
Fine-left stopped e = absurd (cc)
Fine-left out e = absurd (cc)

-- A loop that is fine on every text below `n` bytes, and one that is up to `n` bytes.
abbrev FineBelow : {U : Type 0} → ℕ → (Bytes → U → Parsed U) → Type 0
FineBelow {U} n k = (s : Bytes) (u : U) → length s < n → Fine (length s) (k s u)

abbrev FineUpTo : {U : Type 0} → ℕ → (Bytes → U → Parsed U) → Type 0
FineUpTo {U} n k = (s : Bytes) (u : U) → length s ≤ n → Fine (length s) (k s u)

module _ {U : Type 0} where
  reported-Fine :
      {n : ℕ} (rest : Bytes) (r : ℕ × U) → length rest < n → Fine n (result r.0 rest r.1)
  reported-Fine rest (zero, u) h = ok h
  reported-Fine rest (suc code, u) h = stopped

  after_separator-Fine :
      (n : ℕ) (s : Bytes) (u : U) (more : Bytes → U → Parsed U)
      → FineBelow n more
      → length s < n
      → Fine n (after_separator s u more)
  unfolding after_separator
  after_separator-Fine n [] u more f h = stopped
  after_separator-Fine n (c ∷ rest) u more f h = elim (Bool-cases (c == b',')) [
    | inl comma ↦ rw comma (Fine-le (omega arith) (f rest u (omega arith)))
    | inr none' ↦ rw none' (Fine-le (omega arith) (f (c ∷ rest) u h))
  ]

  after_item-Fine :
      (n : ℕ) {p : Parsed U} (more : Bytes → U → Parsed U)
      → Fine n p
      → FineBelow n more
      → Fine n (after_item p more)
  unfolding after_item
  after_item-Fine n more (ok {rest} {u} h) f =
      after_separator-Fine n (skip_whitespace rest) u more f
        (omega (arith, length-skip_whitespace rest))
  after_item-Fine n more stopped f = stopped
  after_item-Fine n more out f = out

  after_begin-Fine :
      (n : ℕ) (rest : Bytes) (r : ℕ × U) (more : Bytes → U → Parsed U)
      → FineBelow n more
      → length rest < n
      → Fine n (after_begin rest r more)
  unfolding after_begin
  after_begin-Fine n rest (zero, u) more f h = Fine-le (omega arith) (f rest u h)
  after_begin-Fine n rest (suc code, u) more f h = stopped

expect_colon-length :
    (name s : Bytes) {n left : Bytes}
    → expect_colon name s ≡ value (n, left)
    → length left ≤ length s
unfolding expect_colon
expect_colon-length name [] h = absurd (cc)
expect_colon-length name (c ∷ rest) h = ground (arith, length-skip_whitespace rest)

module _ {F U : Type 0} (ops : FloatOps F) (limits : Limits) (callbacks : Callbacks F U) where
  failed-Fine : (n code : ℕ) (u : U) → 0 < n → Fine n (result code [] u)
  failed-Fine n zero u h = ok h
  failed-Fine n (suc code) u h = stopped

  of_text-Fine :
      (n : ℕ) (d : Decoded (Bytes × Bytes)) (name : Option Bytes) (u : U)
      → 0 < n
      → ((t rest : Bytes) → d ≡ value (t, rest) → length rest < n)
      → Fine n (of_text ops limits callbacks d name u)
  unfolding of_text
  of_text-Fine n (value (t, rest)) name u p h = reported-Fine rest _ (h t rest refl)
  of_text-Fine n (failed code) name u p h = failed-Fine n code u p
  of_text-Fine n fault name u p h = out

  of_token-Fine :
      (n : ℕ) {t : Token F} (name : Option Bytes) (u : U)
      → Taken n t
      → Fine (suc n) (of_token ops limits callbacks t name u)
  unfolding of_token
  of_token-Fine n name u (took {s} {left} h) = reported-Fine left _ (omega arith)
  of_token-Fine n name u (refused {code}) = failed-Fine (suc n) code u (omega arith)

  read_token-Taken :
      (c : ℕ) (rest : Bytes) → Taken (length rest) (read_token ops limits callbacks c rest)
  unfolding read_token
  read_token-Taken c rest =
      let n = limits.string_buffer_length in
      Taken-if (c == b'f') (read_word-Taken (codes "alse") _ rest) (
        Taken-if (c == b't') (read_word-Taken (codes "rue") _ rest) (
          Taken-if (c == b'n') (read_word-Taken (codes "ull") _ rest) (
            Taken-if (c == b'-') (read_negative-Taken ops n limits.beyond rest) (
              Taken-when (is_digit c) (λ digit. read_number-Taken ops n false c rest digit)
                refused))))

  decode_scalar-Fine :
      (name : Option Bytes) (c : ℕ) (rest : Bytes) (u : U)
      → Fine (suc (length rest)) (decode_scalar ops limits callbacks name c rest u)
  unfolding decode_scalar
  decode_scalar-Fine name c rest u =
      Fine-if (c == b'"')
        (of_text-Fine _ (decode_string limits.string_buffer_length c rest) name u (omega arith)
          (λ t r e. omega (arith, decode_string-length limits.string_buffer_length c rest e)))
        (of_token-Fine _ name u (read_token-Taken c rest))

  element_of-Fine :
      (n : ℕ) (items fields : Bytes → U → Parsed U) (name : Option Bytes) (s : Bytes) (u : U)
      → FineBelow n items
      → FineBelow n fields
      → length s ≤ n
      → Fine n (element_of ops limits callbacks items fields name s u)
  unfolding element_of
  element_of-Fine n items fields name [] u f g h = stopped
  element_of-Fine n items fields name (c ∷ rest) u f g h =
      Fine-if (c == b'[') (after_begin-Fine n rest _ items f h) (
        Fine-if (c == b'{') (after_begin-Fine n rest _ fields g h)
          (Fine-le h (decode_scalar-Fine name c rest u)))

  items_of-Fine :
      (n : ℕ) (element items : Bytes → U → Parsed U) (s : Bytes) (u : U)
      → FineUpTo n element
      → FineBelow n items
      → length s ≤ n
      → Fine n (items_of ops limits callbacks element items s u)
  unfolding items_of
  items_of-Fine n element items [] u f g h = stopped
  items_of-Fine n element items (c ∷ rest) u f g h =
      Fine-if (c == b']') (reported-Fine rest _ h)
        (after_item-Fine n items (Fine-le h (f (c ∷ rest) u h)) g)

  named-length :
      (m : ℕ) (d : Decoded (Bytes × Bytes)) {name left : Bytes}
      → ((t r : Bytes) → d ≡ value (t, r) → length r < m)
      → (d >>= λ (t, r). expect_colon t (skip_whitespace r)) ≡ value (name, left)
      → length left < m
  named-length m (value (t, r)) h e =
      omega
        (arith, h t r refl, length-skip_whitespace r, expect_colon-length t (skip_whitespace r) e)
  named-length m (failed code) h e = absurd (cc)
  named-length m fault h e = absurd (cc)

  read_name-length :
      (c : ℕ) (rest : Bytes) {name left : Bytes}
      → read_name ops limits callbacks c rest ≡ value (name, left)
      → length left < length rest
  unfolding read_name
  read_name-length c rest h =
      named-length (length rest) (decode_string limits.name_buffer_length c rest)
        (λ t r e. decode_string-length limits.name_buffer_length c rest e) h

  after_name-Fine :
      (n : ℕ) (element : Option Bytes → Bytes → U → Parsed U) (fields : Bytes → U → Parsed U)
      (d : Decoded (Bytes × Bytes)) (u : U)
      → 0 < n
      → ((name : Option Bytes) → FineUpTo n (element name))
      → FineBelow n fields
      → ((name left : Bytes) → d ≡ value (name, left) → length left ≤ n)
      → Fine n (after_name ops limits callbacks element fields d u)
  unfolding after_name
  after_name-Fine n element fields (value (name, left)) u p f g h =
      let short = h name left refl in
      after_item-Fine n fields (Fine-le short (f (some name) left u short)) g
  after_name-Fine n element fields (failed code) u p f g h = failed-Fine n code u p
  after_name-Fine n element fields fault u p f g h = out

  fields_of-Fine :
      (n : ℕ) (element : Option Bytes → Bytes → U → Parsed U) (fields : Bytes → U → Parsed U)
      (s : Bytes) (u : U)
      → ((name : Option Bytes) → FineUpTo n (element name))
      → FineBelow n fields
      → length s ≤ n
      → Fine n (fields_of ops limits callbacks element fields s u)
  unfolding fields_of
  fields_of-Fine n element fields [] u f g h = stopped
  fields_of-Fine n element fields (c ∷ rest) u f g h =
      Fine-if (c == b'}') (reported-Fine rest _ h) (
        after_name-Fine n element fields (read_name ops limits callbacks c rest) u (omega arith) f g
          (λ t r e. omega (arith, read_name-length c rest e)))

  mutual
    unfolding decode_element

    element-Fine :
        (rounds : ℕ) (name : Option Bytes) (s : Bytes) (u : U)
        → 2 * length s < rounds
        → Fine (length s) (decode_element ops limits callbacks rounds name s u)
    element-Fine zero name s u h = absurd (omega arith)
    element-Fine (suc rounds) name s u h =
        element_of-Fine (length s) (decode_items ops limits callbacks rounds)
          (decode_fields ops limits callbacks rounds) name (skip_whitespace s) u
          (λ t v l. items-Fine rounds t v (omega arith))
          (λ t v l. fields-Fine rounds t v (omega arith)) (length-skip_whitespace s)

    items-Fine :
        (rounds : ℕ) (s : Bytes) (u : U)
        → 2 * length s + 1 < rounds
        → Fine (length s) (decode_items ops limits callbacks rounds s u)
    items-Fine zero s u h = absurd (omega arith)
    items-Fine (suc rounds) s u h =
        items_of-Fine (length s) (decode_element ops limits callbacks rounds none)
          (decode_items ops limits callbacks rounds) (skip_whitespace s) u
          (λ t v l. element-Fine rounds none t v (omega arith))
          (λ t v l. items-Fine rounds t v (omega arith)) (length-skip_whitespace s)

    fields-Fine :
        (rounds : ℕ) (s : Bytes) (u : U)
        → 2 * length s + 1 < rounds
        → Fine (length s) (decode_fields ops limits callbacks rounds s u)
    fields-Fine zero s u h = absurd (omega arith)
    fields-Fine (suc rounds) s u h =
        fields_of-Fine (length s) (decode_element ops limits callbacks rounds)
          (decode_fields ops limits callbacks rounds) (skip_whitespace s) u
          (λ name t v l. element-Fine rounds name t v (omega arith))
          (λ t v l. fields-Fine rounds t v (omega arith)) (length-skip_whitespace s)

  -- Whatever the text and the callbacks do, `decodeElement` ends within the rounds given: it does
  -- not run out of them, and after a success less of the text is left than before.
  pub decode_element_ends :
      (name : Option Bytes) (s : Bytes) (u : U)
      → let p = decode_element ops limits callbacks (rounds_for s) name s u in
        (p ≢ unfinished) × ((rest : Bytes) (u' : U) → p ≡ result 0 rest u' → length rest < length s)
  decode_element_ends name s u =
      let f = element-Fine (rounds_for s) name s u (omega arith) in
      (Fine-ends f, λ rest u' e. Fine-left f e)

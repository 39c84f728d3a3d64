-- ===== src/Json/Decode/Reading/Scalars.antt =====
-- Scalars read back: the cases of `decodeElement` of KFCJSONCodec.c that are no container, on what the
-- encoder writes for a scalar.
use kfcrash.Prelude.{
  ℕ, suc, ◌≤◌, ◌<◌, ◌≡◌, refl, sym, ap, subst, ◌∙◌, Bool, true, false, not, ◌&&◌, Option, none,
  some, [], ◌∷◌, ◌++◌, append-nil, append_assoc, arith, ltb, leb, ◌==◌, if◌then◌else◌, if-true,
  if-false, Bytes, codes, length, drop, length-append,
}
use kfcrash.Prelude.Int.{ℤ, pos, negsuc}
use kfcrash.Json.Codes.{c_string}
use kfcrash.Json.Escape.{escape_byte, escape_loop}
use kfcrash.Json.Escape.Laws.{joined-eq-some}
use kfcrash.Json.Number.{FloatOps, print_u64, print_i64, format_double}
use kfcrash.Json.Number.Decimal.{IsInt64, format_i64_fits, format_u64_fits}
use kfcrash.Json.Encode.Leaves.{leaf_text, formatted, in_quotes}
use kfcrash.Json.Encode.Strings.{some-inj, quoted}
use kfcrash.Json.Decode.Text.{decode_string}
use kfcrash.Json.Decode.Text.Laws.{decode_string-escaped}
use kfcrash.Json.Decode.Scalars.{
  Scalar, boolean, null, integer, unsigned_integer, floating_point, text, Token, token, ullong_max,
  llong_max, is_digit, is_space, read_word, is_prefix, read_number, read_negative,
}
use kfcrash.Json.Decode.{Callbacks, Limits, reported, of_text, of_token, read_token, decode_scalar}
use kfcrash.Json.Decode.Reading.Numbers.{
  breaks, StartsWithDigit, print_u64-StartsWithDigit, read_unsigned, read_negative-print,
  read_negative-digit,
}
use kfcrash.Json.Decode.Reading.Fractions.{all_fp, all_digits, read_fraction}

-- The text of a `double` that is read back as the value: a fraction or an exponent, behind a sign or not,
-- that has room in the buffer and that the C library scans as the value.
pub data IsFraction {F : Type 0} (ops : FloatOps F) (room : ℕ) (v : F) : Bytes → Type 0 where
  positive :
      {t : Bytes}
      → StartsWithDigit t
      → all_fp t ≡ true
      → all_digits t ≡ false
      → length t < room
      → ops.scan t ≡ v
      → IsFraction ops room v t
  negative :
      {t : Bytes}
      → StartsWithDigit t
      → all_fp t ≡ true
      → all_digits t ≡ false
      → length t < room
      → ops.negate (ops.scan t) ≡ v
      → IsFraction ops room v (b'-' ∷ t)

-- A string whose escaped form has room.
abbrev pub HasRoom : ℕ → Bytes → Type 0
HasRoom room s = (e : Bytes) → escape_loop s ≡ some e → length e < room

-- A scalar that the decoder can give back.
abbrev pub ReadableScalar : {F : Type 0} → FloatOps F → ℕ → Scalar F → Type 0
ReadableScalar ops room (boolean b) = true ≡ true
ReadableScalar ops room null = true ≡ true
ReadableScalar ops room (integer i) = IsInt64 i
ReadableScalar ops room (unsigned_integer n) = n ≤ ullong_max
ReadableScalar ops room (floating_point v) =
    (t : Bytes) → formatted (format_double ops 64 v) ≡ some t → IsFraction ops room v t
ReadableScalar ops room (text s) = HasRoom room s

-- As what the decoder reports it: an unsigned number that fits `int64_t` as a signed one.
abbrev pub as_read : {F : Type 0} → Scalar F → Scalar F
as_read (unsigned_integer n) = if leb n llong_max then integer (pos n) else unsigned_integer n
as_read s = s

-- What may follow: behind a number, no character of numbers.
abbrev pub may_follow : {F : Type 0} → Scalar F → Bytes → Bool
may_follow (integer i) rest = breaks rest
may_follow (unsigned_integer n) rest = breaks rest
may_follow (floating_point v) rest = breaks rest
may_follow s rest = true

-- A byte that begins a scalar.
abbrev pub begins : ℕ → Bool
begins c =
    not (is_space c)
    && (not (c == b'[') && (not (c == b'{') && (not (c == b']') && not (c == b'}'))))

pub c_string-escaped : (s e : Bytes) → escape_loop s ≡ some e → c_string s ≡ s
unfolding escape_loop escape_byte
c_string-escaped [] e h = refl
c_string-escaped (c ∷ s) e h =
    let (x, y, p, q, split) = joined-eq-some (escape_byte c) (escape_loop s) e h in
    if-false (λ t. t ≡ c ∷ s) {b = c == 0} _ _ (ground (arith, p))
      (ap (λ t. c ∷ t) (c_string-escaped s y q))

is_prefix-append : (w s : Bytes) → is_prefix w (w ++ s) ≡ true
unfolding is_prefix
is_prefix-append [] s = refl
is_prefix-append (c ∷ w) s = ground (arith, is_prefix-append w s)

drop-append : (w s : Bytes) → drop (length w) (w ++ s) ≡ s
drop-append [] s = refl
drop-append (c ∷ w) s = drop-append w s

read_word-append :
    {F : Type 0} (w : Bytes) (v : Scalar F) (s : Bytes) → read_word w v (w ++ s) ≡ token v s
unfolding read_word
read_word-append w v s =
    if-false (λ t. t ≡ token v s) {b = ltb (length (w ++ s)) (length w)} _ _
      (ground (arith, length-append w s))
      (if-true (λ t. t ≡ token v s) {b = is_prefix w (w ++ s)} _ _ (is_prefix-append w s)
        (ap (token v) (drop-append w s)))

module _ {F U : Type 0} (ops : FloatOps F) (limits : Limits) (callbacks : Callbacks F U) where
  read_token-digit :
      (d : ℕ) (s : Bytes)
      → is_digit d ≡ true
      → read_token ops limits callbacks d s
        ≡ read_number ops limits.string_buffer_length false (d ∷ s)
  unfolding read_token
  read_token-digit d s h =
      let number = read_number ops limits.string_buffer_length false (d ∷ s) in
      let Same = λ (t : Token F). t ≡ number in
      if-false Same {b = d == b'f'} _ _ (ground (arith, h)) (
        if-false Same {b = d == b't'} _ _ (ground (arith, h)) (
          if-false Same {b = d == b'n'} _ _ (ground (arith, h)) (
            if-false Same {b = d == b'-'} _ _ (ground (arith, h))
              (if-true Same {b = is_digit d} _ _ h refl))))

  decode_scalar-token :
      (v : Scalar F) (c : ℕ) (s rest : Bytes) (name : Option Bytes) (u : U)
      → c == b'"' ≡ false
      → read_token ops limits callbacks c s ≡ token v rest
      → decode_scalar ops limits callbacks name c s u ≡ reported rest (callbacks.on_scalar name v u)
  unfolding decode_scalar of_token
  decode_scalar-token v c s rest name u other h =
      if-false (λ p. p ≡ reported rest (callbacks.on_scalar name v u)) {b = c == b'"'} _ _ other
        (ap (λ k. of_token ops limits callbacks k name u) h)

  -- The text of a scalar with what follows: the decoder reports the value and goes on behind it.
  abbrev pub ReadsAs : Scalar F → Bytes → Bytes → Type 0
  ReadsAs v t rest =
      (c : ℕ) × (s : Bytes) × (t ≡ c ∷ s)
      × (begins c ≡ true)
      × ((name : Option Bytes) (u : U)
          → decode_scalar ops limits callbacks name c (s ++ rest) u
            ≡ reported rest (callbacks.on_scalar name v u))

  number-ReadsAs :
      (v : Scalar F) (t rest : Bytes)
      → StartsWithDigit t
      → read_number ops limits.string_buffer_length false (t ++ rest) ≡ token v rest
      → ReadsAs v t rest
  number-ReadsAs v t rest (d, s, e, digit) h =
      let read = read_number ops limits.string_buffer_length false in
      (
        d,
        s,
        e,
        ground (arith, digit),
        λ name u.
            decode_scalar-token v d (s ++ rest) rest name u (ground (arith, digit))
              (read_token-digit d (s ++ rest) digit ∙ sym (ap (λ k. read (k ++ rest)) e) ∙ h),
      )

  minus-ReadsAs :
      (v : Scalar F) (t rest : Bytes)
      → read_negative ops limits.string_buffer_length limits.beyond (t ++ rest) ≡ token v rest
      → ReadsAs v (b'-' ∷ t) rest
  unfolding read_token
  minus-ReadsAs v t rest h =
      (b'-', t, refl, refl, λ name u. decode_scalar-token v b'-' (t ++ rest) rest name u refl h)

  word-ReadsAs :
      (v : Scalar F) (c : ℕ) (w rest : Bytes)
      → begins c ≡ true
      → c == b'"' ≡ false
      → read_token ops limits callbacks c (w ++ rest) ≡ read_word w v (w ++ rest)
      → ReadsAs v (c ∷ w) rest
  word-ReadsAs v c w rest b other h = (
    c,
    w,
    refl,
    b,
    λ name u. decode_scalar-token v c (w ++ rest) rest name u other (h ∙ read_word-append w v rest),
  )

  integer-ReadsAs :
      (i : ℤ) (rest : Bytes)
      → IsInt64 i
      → breaks rest ≡ true
      → ReadsAs (integer i) (print_i64 i) rest
  unfolding print_i64
  integer-ReadsAs (pos n) rest h b =
      number-ReadsAs (integer (pos n)) (print_u64 n) rest
        (subst StartsWithDigit (append-nil (print_u64 n))
          (print_u64-StartsWithDigit n [] (omega (arith, h))))
        (read_unsigned ops limits.string_buffer_length n rest (omega (arith, h)) b
          ∙ if-true (λ (v : Scalar F). token v rest ≡ token (integer (pos n)) rest)
              {b = leb n llong_max} _ _ (ground (arith, h)) refl)
  integer-ReadsAs (negsuc n) rest h b =
      minus-ReadsAs (integer (negsuc n)) (print_u64 (suc n)) rest (
        read_negative-print ops limits.string_buffer_length limits.beyond n rest (omega (arith, h))
          b)

  unsigned-ReadsAs :
      (n : ℕ) (rest : Bytes)
      → n ≤ ullong_max
      → breaks rest ≡ true
      → ReadsAs (as_read (unsigned_integer n)) (print_u64 n) rest
  unsigned-ReadsAs n rest h b =
      number-ReadsAs _ (print_u64 n) rest
        (subst StartsWithDigit (append-nil (print_u64 n)) (print_u64-StartsWithDigit n [] h))
        (read_unsigned ops limits.string_buffer_length n rest h b)

  fraction-ReadsAs :
      (v : F) (t rest : Bytes)
      → IsFraction ops limits.string_buffer_length v t
      → breaks rest ≡ true
      → ReadsAs (floating_point v) t rest
  fraction-ReadsAs v t rest (positive first fp other room same) b =
      number-ReadsAs (floating_point v) t rest first (
        read_fraction ops limits.string_buffer_length false t rest fp other room b
        ∙ ap (λ k. token (floating_point k) rest) same)
  fraction-ReadsAs v (c ∷ t) rest (negative (d, s, e, digit) fp other room same) b =
      minus-ReadsAs (floating_point v) t rest (
        read_negative-digit ops limits.string_buffer_length limits.beyond (t ++ rest)
          (d, s ++ rest, ap (λ k. k ++ rest) e, digit)
        ∙ read_fraction ops limits.string_buffer_length true t rest fp other room b
        ∙ ap (λ k. token (floating_point k) rest) same)

  text-ReadsAs :
      (s e rest : Bytes)
      → escape_loop s ≡ some e
      → length e < limits.string_buffer_length
      → ReadsAs (text s) (quoted e) rest
  unfolding decode_scalar of_text
  text-ReadsAs s e rest h l = (
    b'"',
    e ++ (b'"' ∷ []),
    refl,
    refl,
    λ name u.
        ap
          (λ k.
            of_text ops limits callbacks (decode_string limits.string_buffer_length b'"' k) name u)
          (append_assoc e (b'"' ∷ []) rest)
        ∙ ap (λ k. of_text ops limits callbacks k name u)
            (decode_string-escaped limits.string_buffer_length s e rest h l)
        ∙ ap (λ k. reported rest (callbacks.on_scalar name (text k) u)) (c_string-escaped s e h),
  )

  quotes-ReadsAs :
      (s t rest : Bytes) (o : Option Bytes)
      → escape_loop s ≡ o
      → HasRoom limits.string_buffer_length s
      → in_quotes o ≡ some t
      → ReadsAs (text s) t rest
  quotes-ReadsAs s t rest none h room f = absurd (cc)
  quotes-ReadsAs s t rest (some e) h room f =
      subst (λ k. ReadsAs (text s) k rest) (some-inj f) (text-ReadsAs s e rest h (room e h))

  -- Each scalar that the encoder writes is read back.
  pub leaf_text-ReadsAs :
      (s : Scalar F) (t rest : Bytes)
      → leaf_text ops s ≡ some t
      → ReadableScalar ops limits.string_buffer_length s
      → may_follow s rest ≡ true
      → ReadsAs (as_read s) t rest
  unfolding read_token
  leaf_text-ReadsAs (boolean true) t rest f h b =
      subst (λ k. ReadsAs (boolean true) k rest) (some-inj f)
        (word-ReadsAs (boolean true) b't' (codes "rue") rest refl refl refl)
  leaf_text-ReadsAs (boolean false) t rest f h b =
      subst (λ k. ReadsAs (boolean false) k rest) (some-inj f)
        (word-ReadsAs (boolean false) b'f' (codes "alse") rest refl refl refl)
  leaf_text-ReadsAs null t rest f h b =
      subst (λ k. ReadsAs null k rest) (some-inj f)
        (word-ReadsAs null b'n' (codes "ull") rest refl refl refl)
  leaf_text-ReadsAs (integer i) t rest f h b =
      subst (λ k. ReadsAs (integer i) k rest)
        (some-inj (sym (ap formatted (format_i64_fits i h)) ∙ f)) (integer-ReadsAs i rest h b)
  leaf_text-ReadsAs (unsigned_integer n) t rest f h b =
      subst (λ k. ReadsAs (as_read (unsigned_integer n)) k rest)
        (some-inj (sym (ap formatted (format_u64_fits n)) ∙ f)) (unsigned-ReadsAs n rest h b)
  leaf_text-ReadsAs (floating_point v) t rest f h b = fraction-ReadsAs v t rest (h t f) b
  leaf_text-ReadsAs (text s) t rest f h b = quotes-ReadsAs s t rest (escape_loop s) refl h f

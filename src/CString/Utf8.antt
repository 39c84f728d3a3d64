-- ===== src/CString/Utf8.antt =====
-- `kfcstring_isNullTerminatedUTF8String` of KFCString.c, and what it recognises.
use kfcrash.Prelude.{
  ℕ, zero, suc, ◌+◌, ◌/◌, ◌%◌, ◌≤◌, ◌<◌, ◌≡◌, refl, sym, ap, subst, ◌∙◌, ◌↔◌, ◌⊎◌, Bool, true,
  false, not, ◌&&◌, ◌||◌, [], ◌∷◌, ◌++◌, append_assoc, arith, ltb, leb, ◌==◌, if◌then◌else◌, inl,
  inr, Bool-cases, if-true, if-false, Bytes, length, take, drop, length-append, length-take,
  take-append-drop,
}

-- `g_printableControlChars`
abbrev pub printable_control : ℕ → Bool
printable_control c = c == b'\t' || c == b'\n' || c == b'\r'

-- `g_continuationByteCount`
abbrev pub continuation_byte_count : ℕ → ℕ
continuation_byte_count i =
    if ltb i 0x20
    then 1
    else if ltb i 0x30
    then 2
    else if ltb i 0x38
    then 3
    else if ltb i 0x3c
    then 4
    else if ltb i 0x3e
    then 5
    else 0

-- `(b & 0xc0) == 0x80` for each of so many bytes; not, if there are fewer.
abbrev pub continues : ℕ → Bytes → Bool
continues zero s = true
continues (suc n) [] = false
continues (suc n) (b ∷ s) = (b / 64) % 4 == 2 && continues n s

-- What the tests of the loop tell of a byte; `lead n` announces so many bytes.
pub data Class : Type 0 where
  nul : Class
  single : Class
  lead : ℕ → Class
  invalid : Class

pub classify : ℕ → Class
classify c =
    if c == 0
    then nul
    else if (c / 128) % 2 == 1
    then (if not ((c / 64) % 4 == 3) then invalid else lead (continuation_byte_count (c % 64)))
    else if ltb c 0x20 && not (printable_control c)
    then invalid
    else single

-- What the loop does behind a byte of a class; `scan` is the rest of the loop, at a number of bytes
-- behind.
after_class : (ℕ → Bytes → Bool) → Class → ℕ → ℕ → Bytes → Bool
after_class scan nul min_length behind rest = leb min_length behind
after_class scan single min_length behind rest = scan (behind + 1) rest
after_class scan (lead n) min_length behind rest =
    if n == 0 || leb (length rest + 1) n
    then false
    else if continues n rest
    then scan (behind + 1 + n) (drop n rest)
    else false
after_class scan invalid min_length behind rest = false

-- The loop, with the number of bytes behind; each turn takes a byte at least, so as many rounds as
-- there are bytes are enough.
pub scan_text : ℕ → ℕ → ℕ → Bytes → Bool
unfolding classify after_class
scan_text zero min_length behind s = false
scan_text (suc rounds) min_length behind [] = false
scan_text (suc rounds) min_length behind (c ∷ rest) =
    after_class (scan_text rounds min_length) (classify c) min_length behind rest

-- On the `maxLength` bytes of the memory.
pub is_null_terminated_utf8_string : Bytes → ℕ → Bool
unfolding scan_text
is_null_terminated_utf8_string memory min_length = scan_text (length memory) min_length 0 memory

-- Numbers that are bytes.
pub data Octets : Bytes → Type 0 where
  no_bytes : Octets []
  byte : (c : ℕ) {s : Bytes} → c < 256 → Octets s → Octets (c ∷ s)

-- How many trail bytes a lead byte announces, by the number of ones that it starts with.
pub data LeadByte (c : ℕ) : ℕ → Type 0 where
  two_ones : 0xc0 ≤ c → c < 0xe0 → LeadByte c 1
  three_ones : 0xe0 ≤ c → c < 0xf0 → LeadByte c 2
  four_ones : 0xf0 ≤ c → c < 0xf8 → LeadByte c 3
  five_ones : 0xf8 ≤ c → c < 0xfc → LeadByte c 4
  six_ones : 0xfc ≤ c → c < 0xfe → LeadByte c 5

-- Trail bytes: each starts with a one and a zero.
pub data TrailBytes : ℕ → Bytes → Type 0 where
  no_trail : TrailBytes 0 []
  trail_byte :
      {n : ℕ} (b : ℕ) {s : Bytes}
      → 0x80 ≤ b
      → b < 0xc0
      → TrailBytes n s
      → TrailBytes (suc n) (b ∷ s)

-- A text: the characters of ASCII from the space on, a tab, a line feed, a carriage return, and lead
-- bytes with as many trail bytes as they announce.
abbrev pub IsPlain : ℕ → Type 0
IsPlain c = ((0x20 ≤ c) × (c < 0x80)) ⊎ (c ≡ 9) ⊎ (c ≡ 10) ⊎ (c ≡ 13)

pub data Characters : Bytes → Type 0 where
  done : Characters []
  plain : (c : ℕ) {s : Bytes} → IsPlain c → Characters s → Characters (c ∷ s)
  wide :
      (c n : ℕ) (trail : Bytes) {s : Bytes}
      → LeadByte c n
      → TrailBytes n trail
      → Characters s
      → Characters (c ∷ (trail ++ s))

TrailBytes-continues :
    (n : ℕ) {t : Bytes} → TrailBytes n t → (length t ≡ n) × (continues n t ≡ true)
TrailBytes-continues _ no_trail = (refl, refl)
TrailBytes-continues _ (trail_byte {n} b low high t) =
    let (len, go) = TrailBytes-continues n t in (omega (arith, len), ground (arith, low, high, go))

continues-TrailBytes :
    (n : ℕ) (t : Bytes) → Octets t → length t ≡ n → continues n t ≡ true → TrailBytes n t
continues-TrailBytes zero [] o l h = no_trail
continues-TrailBytes zero (b ∷ t) o l h = absurd (omega (arith, l))
continues-TrailBytes (suc n) [] o l h = absurd (omega (arith, l))
continues-TrailBytes (suc n) _ (byte b {s = t} small o) l h =
    trail_byte b (ground (arith, h, small)) (ground (arith, h, small))
      (continues-TrailBytes n t o (omega (arith, l)) (ground (arith, h)))

LeadByte-count :
    (c n : ℕ) → LeadByte c n → (0xc0 ≤ c) × (c < 0xfe) × (n ≡ continuation_byte_count (c % 64))
LeadByte-count c _ (two_ones l h) = ground (arith, l, h)
LeadByte-count c _ (three_ones l h) = ground (arith, l, h)
LeadByte-count c _ (four_ones l h) = ground (arith, l, h)
LeadByte-count c _ (five_ones l h) = ground (arith, l, h)
LeadByte-count c _ (six_ones l h) = ground (arith, l, h)

count-LeadByte : (c : ℕ) → 0xc0 ≤ c → c < 0xfe → LeadByte c (continuation_byte_count (c % 64))
count-LeadByte c low high = elim (Bool-cases (ltb c 0xe0)) [
  | inl h0 ↦
      let e : 1 ≡ continuation_byte_count (c % 64) = ground (arith, low, high, h0) in
      subst (LeadByte c) e (two_ones low (ground (arith, h0)))
  | inr h0 ↦ elim (Bool-cases (ltb c 0xf0)) [
    | inl h1 ↦
        let e : 2 ≡ continuation_byte_count (c % 64) = ground (arith, low, high, h0, h1) in
        subst (LeadByte c) e (three_ones (ground (arith, h0)) (ground (arith, h1)))
    | inr h1 ↦ elim (Bool-cases (ltb c 0xf8)) [
      | inl h2 ↦
          let e : 3 ≡ continuation_byte_count (c % 64) = ground (arith, low, high, h0, h1, h2) in
          subst (LeadByte c) e (four_ones (ground (arith, h1)) (ground (arith, h2)))
      | inr h2 ↦ elim (Bool-cases (ltb c 0xfc)) [
        | inl h3 ↦
            let e : 4 ≡ continuation_byte_count (c % 64) =
              ground (arith, low, high, h0, h1, h2, h3) in
            subst (LeadByte c) e (five_ones (ground (arith, h2)) (ground (arith, h3)))
        | inr h3 ↦
            let e : 5 ≡ continuation_byte_count (c % 64) =
              ground (arith, low, high, h0, h1, h2, h3) in
            subst (LeadByte c) e (six_ones (ground (arith, h3)) high)
      ]
    ]
  ]
]

continues-append :
    (n : ℕ) (t s : Bytes) → length t ≡ n → continues n t ≡ true → continues n (t ++ s) ≡ true
continues-append zero t s l h = refl
continues-append (suc n) [] s l h = absurd (omega arith)
continues-append (suc n) (b ∷ t) s l h = ground (arith, continues-append n t s (omega arith))

drop-append : (n : ℕ) (t s : Bytes) → length t ≡ n → drop n (t ++ s) ≡ s
drop-append zero [] s l = refl
drop-append zero (b ∷ t) s l = absurd (omega arith)
drop-append (suc n) [] s l = absurd (omega arith)
drop-append (suc n) (b ∷ t) s l = drop-append n t s (omega arith)

classify-plain : (c : ℕ) → IsPlain c → classify c ≡ single
unfolding classify
classify-plain c p = ground arith

classify-wide : (c : ℕ) → 0xc0 ≤ c → c < 0xfe → classify c ≡ lead (continuation_byte_count (c % 64))
unfolding classify
classify-wide c low high = ground arith

count-positive : (c : ℕ) → 0xc0 ≤ c → c < 0xfe → 0 < continuation_byte_count (c % 64)
count-positive c low high = ground arith

-- A text with a NUL behind it is found.
scan_text_complete :
    (rounds min_length behind : ℕ) (s rest : Bytes)
    → Characters s
    → length s < rounds
    → min_length ≤ behind + length s
    → scan_text rounds min_length behind (s ++ (0 ∷ rest)) ≡ true
unfolding scan_text
scan_text_complete zero m b s rest t l h = absurd (omega arith)
scan_text_complete (suc r) m b _ rest done l h = ground arith
scan_text_complete (suc r) m b _ rest (plain c {s = s} p t) l h =
    ap (λ k. after_class (scan_text r m) k m b (s ++ (0 ∷ rest))) (classify-plain c p)
    ∙ scan_text_complete r m (b + 1) s rest t (omega arith) (omega arith)
scan_text_complete (suc r) m b _ rest (wide c n trail {s = s} first behind t) l h =
    let (low, high, e) = LeadByte-count c n first in
    let (len, cont) = TrailBytes-continues n behind in
    let more = s ++ (0 ∷ rest) in
    let sizes = length-append trail s in
    let ih =
      scan_text_complete r m (b + 1 + n) s rest t (omega (arith, sizes, len))
        (omega (arith, sizes, len)) in
    ap (λ k. after_class (scan_text r m) k m b ((trail ++ s) ++ (0 ∷ rest)))
      (classify-wide c low high ∙ ap lead (sym e))
    ∙ ap (after_class (scan_text r m) (lead n) m b) (append_assoc trail s (0 ∷ rest))
    ∙ if-false (λ t. t ≡ true) {b = n == 0 || leb (length (trail ++ more) + 1) n} false _
        (ground (arith, count-positive c low high, e, length-append trail more, len))
        (if-true (λ t. t ≡ true) {b = continues n (trail ++ more)} _ false
          (continues-append n trail more len cont)
          (ap (scan_text r m (b + 1 + n)) (drop-append n trail more len) ∙ ih))

Octets-drop : (n : ℕ) (s : Bytes) → Octets s → Octets (drop n s)
Octets-drop zero s h = h
Octets-drop (suc n) [] h = h
Octets-drop (suc n) _ (byte c {s = s} l h) = Octets-drop n s h

Octets-take : (n : ℕ) (s : Bytes) → Octets s → Octets (take n s)
Octets-take zero s h = no_bytes
Octets-take (suc n) [] h = h
Octets-take (suc n) _ (byte c {s = s} l h) = byte c l (Octets-take n s h)

classify-nul : (c : ℕ) → classify c ≡ nul → c ≡ 0
unfolding classify
classify-nul c h = ground arith

classify-single : (c : ℕ) → c < 256 → classify c ≡ single → IsPlain c
unfolding classify
classify-single c l h = ground arith

classify-lead :
    (c n : ℕ) → c < 256 → classify c ≡ lead n → (0xc0 ≤ c) × (n ≡ continuation_byte_count (c % 64))
unfolding classify
classify-lead c n l h = ground arith

count-below : (c : ℕ) → 0xc0 ≤ c → c < 256 → 0 < continuation_byte_count (c % 64) → c < 0xfe
count-below c low l h = ground arith

if-else-true : (b x : Bool) → (if b then false else x) ≡ true → (b ≡ false) × (x ≡ true)
if-else-true true x h = absurd (cc)
if-else-true false x h = (refl, h)

if-then-true : (b x : Bool) → (if b then x else false) ≡ true → (b ≡ true) × (x ≡ true)
if-then-true true x h = (refl, h)
if-then-true false x h = absurd (cc)

continues-take : (n : ℕ) (s : Bytes) → continues n s ≡ true → continues n (take n s) ≡ true
continues-take zero s h = refl
continues-take (suc n) [] h = h
continues-take (suc n) (b ∷ s) h = ground (arith, continues-take n s)

-- A text in front of a NUL, with so many bytes before it that there are as many as asked for.
abbrev pub Terminated : ℕ → ℕ → Bytes → Type 0
Terminated min_length behind memory =
    (s : Bytes) × (rest : Bytes) × (memory ≡ s ++ (0 ∷ rest))
    × Characters s
    × (min_length ≤ behind + length s)

after_class-Terminated :
    (scan : ℕ → Bytes → Bool) (k : Class) (m b c : ℕ) (rest : Bytes)
    → ((b' : ℕ) (s : Bytes) → Octets s → scan b' s ≡ true → Terminated m b' s)
    → c < 256
    → Octets rest
    → classify c ≡ k
    → after_class scan k m b rest ≡ true
    → Terminated m b (c ∷ rest)
unfolding after_class
after_class-Terminated scan nul m b c rest ih l o k h =
    ([], rest, ap (λ d. d ∷ rest) (classify-nul c k), done, ground (arith, h))
after_class-Terminated scan single m b c rest ih l o k h =
    let (s, rest', e, t, enough) = ih (b + 1) rest o h in
    (c ∷ s, rest', ap (λ r. c ∷ r) e, plain c (classify-single c l k) t, omega arith)
after_class-Terminated scan (lead n) m b c rest ih l o k h =
    let (low, count) = classify-lead c n l k in
    let (fits, h') = if-else-true (n == 0 || leb (length rest + 1) n) _ h in
    let (cont, h'') = if-then-true (continues n rest) _ h' in
    let (s, rest', e, t, enough) = ih (b + 1 + n) (drop n rest) (Octets-drop n rest o) h'' in
    let room : n ≤ length rest = ground (arith, fits) in
    let some' : 0 < n = ground (arith, fits) in
    let len : length (take n rest) ≡ n = omega (arith, length-take n rest) in
    (
      c ∷ (take n rest ++ s),
      rest',
      ap (λ r. c ∷ r)
          (sym (take-append-drop n rest)
            ∙ ap (λ r. take n rest ++ r) e
            ∙ sym (append_assoc (take n rest) s (0 ∷ rest'))),
      wide c n (take n rest)
          (subst (LeadByte c) (sym count)
            (count-LeadByte c low (count-below c low l (omega (arith, count)))))
          (continues-TrailBytes n (take n rest) (Octets-take n rest o) len
            (continues-take n rest cont))
          t,
      omega (arith, length-append (take n rest) s),
    )
after_class-Terminated scan invalid m b c rest ih l o k h = absurd (cc)

scan_text-Terminated :
    (rounds m b : ℕ) (memory : Bytes)
    → Octets memory
    → scan_text rounds m b memory ≡ true
    → Terminated m b memory
unfolding scan_text
scan_text-Terminated zero m b memory o h = absurd (cc)
scan_text-Terminated (suc r) m b [] o h = absurd (cc)
scan_text-Terminated (suc r) m b _ (byte c {s = rest} l o) h =
    after_class-Terminated (scan_text r m) (classify c) m b c rest (scan_text-Terminated r m) l o
      refl h

-- On bytes, the test says yes just if the memory starts with a text that a NUL ends and that has the
-- length asked for at least. A text is made of ASCII characters from the space on, tabs, line feeds and
-- carriage returns, and lead bytes from 0xc0 to 0xfd, each with one trail byte less than it starts with
-- ones.
pub is_null_terminated_utf8_string_iff :
    (memory : Bytes) (min_length : ℕ)
    → Octets memory
    → (is_null_terminated_utf8_string memory min_length ≡ true) ↔ Terminated min_length 0 memory
unfolding is_null_terminated_utf8_string
is_null_terminated_utf8_string_iff memory m o = (
  scan_text-Terminated (length memory) m 0 memory o,
  λ (s, rest, e, t, enough).
      subst (λ r. scan_text (length r) m 0 r ≡ true) (sym e)
        (scan_text_complete (length (s ++ (0 ∷ rest))) m 0 s rest t
          (omega (arith, length-append s (0 ∷ rest))) enough),
)

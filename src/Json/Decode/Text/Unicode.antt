-- ===== src/Json/Decode/Text/Unicode.antt =====
-- `\u` escapes: the UTF-8 that `writeUTF8` makes of a code point, and of a surrogate pair.
use kfcrash.Prelude.{
  ℕ, ◌+◌, ◌-◌, ◌*◌, ◌/◌, ◌%◌, ◌≤◌, ◌<◌, ◌≡◌, ◌≢◌, ◌⊎◌, refl, inl, inr, true, false, Option, none,
  some, [], ◌∷◌, arith, leb, Bool-cases, Bytes,
}
use kfcrash.Json.Decode.Text.{
  value, code_unit, write_utf8, is_lead, is_trail, combine, unicode_escape,
}

-- The code point of a sequence of the length that its first byte tells, by the definition of UTF-8.
abbrev pub utf8_point : Bytes → ℕ
utf8_point (a ∷ []) = a
utf8_point (a ∷ b ∷ []) = (a - 0xc0) * 64 + (b - 0x80)
utf8_point (a ∷ b ∷ c ∷ []) = (a - 0xe0) * 4096 + (b - 0x80) * 64 + (c - 0x80)
utf8_point (a ∷ b ∷ c ∷ d ∷ []) =
    (a - 0xf0) * 262144 + (b - 0x80) * 4096 + (c - 0x80) * 64 + (d - 0x80)
utf8_point _ = 0

-- The sequences of UTF-8 of the shortest form, up to 0x10ffff: the first byte says how long a sequence
-- is, each byte behind it is a continuation byte, and a longer sequence than needed is ruled out by the
-- first byte or the one behind it.
abbrev pub IsSequence : Bytes → Type 0
IsSequence (a ∷ []) = a < 0x80
IsSequence (a ∷ b ∷ []) = (0xc2 ≤ a) × (a < 0xe0) × (0x80 ≤ b) × (b < 0xc0)
IsSequence (a ∷ b ∷ c ∷ []) =
    (0xe0 ≤ a)
    × (a < 0xf0)
    × (0x80 ≤ b)
    × (b < 0xc0)
    × ((0xe1 ≤ a) ⊎ (0xa0 ≤ b))
    × (0x80 ≤ c)
    × (c < 0xc0)
IsSequence (a ∷ b ∷ c ∷ d ∷ []) =
    (0xf0 ≤ a)
    × (a ≤ 0xf4)
    × (0x80 ≤ b)
    × (b < 0xc0)
    × ((0xf1 ≤ a) ⊎ (0x90 ≤ b))
    × ((a < 0xf4) ⊎ (b < 0x90))
    × (0x80 ≤ c)
    × (c < 0xc0)
    × (0x80 ≤ d)
    × (d < 0xc0)
IsSequence _ = ⊥

-- Sequences that stand for no half of a surrogate pair.
abbrev pub NoSurrogate : Bytes → Type 0
NoSurrogate (a ∷ b ∷ c ∷ []) = (a ≢ 0xed) ⊎ (b < 0xa0)
NoSurrogate _ = true ≡ true

abbrev pub IsScalarValue : ℕ → Type 0
IsScalarValue c = (c < 0xd800) ⊎ (0xe000 ≤ c)

three_shortest : (c : ℕ) → 0x800 ≤ c → (0xe1 ≤ 0xe0 + c / 4096) ⊎ (0xa0 ≤ 0x80 + c / 64 % 64)
three_shortest c low = elim (Bool-cases (leb 0x1000 c)) [
  | inl far ↦ let h : 0x1000 ≤ c = ground (arith, far) in inl (omega (arith, h))
  | inr near ↦ let h : c < 0x1000 = ground (arith, near) in inr (omega (arith, low, h))
]

four_shortest : (c : ℕ) → 0x10000 ≤ c → (0xf1 ≤ 0xf0 + c / 262144) ⊎ (0x90 ≤ 0x80 + c / 4096 % 64)
four_shortest c low = elim (Bool-cases (leb 0x40000 c)) [
  | inl far ↦ let h : 0x40000 ≤ c = ground (arith, far) in inl (omega (arith, h))
  | inr near ↦ let h : c < 0x40000 = ground (arith, near) in inr (omega (arith, low, h))
]

four_last : (c : ℕ) → c ≤ 0x10ffff → (0xf0 + c / 262144 < 0xf4) ⊎ (0x80 + c / 4096 % 64 < 0x90)
four_last c high = elim (Bool-cases (leb 0x100000 c)) [
  | inl far ↦ let h : 0x100000 ≤ c = ground (arith, far) in inr (omega (arith, high, h))
  | inr near ↦ let h : c < 0x100000 = ground (arith, near) in inl (omega (arith, h))
]

three_no_half :
    (c : ℕ) → c ≤ 0xffff → IsScalarValue c → (0xe0 + c / 4096 ≢ 0xed) ⊎ (0x80 + c / 64 % 64 < 0xa0)
three_no_half c high (inr far) = inl (λ e. omega (arith, e, far))
three_no_half c high (inl near) = elim (Bool-cases (leb 0xd000 c)) [
  | inl far ↦ let h : 0xd000 ≤ c = ground (arith, far) in inr (omega (arith, near, h))
  | inr less ↦ let h : c < 0xd000 = ground (arith, less) in inl (λ e. omega (arith, h, e))
]

-- Of a code point up to 0x10ffff `writeUTF8` writes a UTF-8 sequence of the shortest form that stands
-- for it; and if the code point is no half of a surrogate pair, the sequence is well-formed UTF-8.
pub write_utf8_point :
    (c : ℕ)
    → c ≤ 0x10ffff
    → (t : Bytes) × (write_utf8 c ≡ some t)
      × IsSequence t
      × (utf8_point t ≡ c)
      × (IsScalarValue c → NoSurrogate t)
unfolding write_utf8
write_utf8_point c h = elim (Bool-cases (leb c 0x7f)) [
  | inl one ↦ rw one (c ∷ [], refl, ground arith, refl, λ s. refl)
  | inr over ↦ elim (Bool-cases (leb c 0x7ff)) [
    | inl two ↦ rw (over, two) (_, refl, ground arith, omega arith, λ s. refl)
    | inr over' ↦ elim (Bool-cases (leb c 0xffff)) [
      | inl three ↦
          let low : 0x800 ≤ c = ground (arith, over') in
          let high : c ≤ 0xffff = ground (arith, three) in
          rw (over, over', three)
            (
              _,
              refl,
              (
                omega arith,
                omega (arith, high),
                omega arith,
                omega arith,
                three_shortest c low,
                omega arith,
                omega arith,
              ),
              omega arith,
              three_no_half c high,
            )
      | inr over'' ↦
          let four : leb c 0x10ffff ≡ true = ground arith in
          let low : 0x10000 ≤ c = ground (arith, over'') in
          rw (over, over', over'', four)
            (
              _,
              refl,
              (
                omega arith,
                omega (arith, h),
                omega arith,
                omega arith,
                four_shortest c low,
                four_last c h,
                omega arith,
                omega arith,
                omega arith,
                omega arith,
              ),
              omega arith,
              λ s. refl,
            )
    ]
  ]
]

-- The code point of a surrogate pair, by the definition of UTF-16.
abbrev pub utf16_point : ℕ → ℕ → ℕ
utf16_point lead trail = 0x10000 + (lead - 0xd800) * 1024 + (trail - 0xdc00)

abbrev IsNybble : Option ℕ → Type 0
IsNybble none = Unit
IsNybble (some n) = n < 16

combine-le :
    (lead trail : ℕ) → is_lead lead ≡ true → is_trail trail ≡ true → combine lead trail ≤ 0x10ffff
combine-le lead trail l t =
    let high : lead ≤ 0xdbff = ground arith in
    let low : trail ≤ 0xdfff = ground arith in omega arith

-- A surrogate pair becomes the UTF-8 of a code point that is 0x10000 below the one that the pair
-- stands for.
pub unicode_escape_pair :
    (a b c d lead a' b' c' d' trail : ℕ) (rest : Bytes)
    → code_unit a b c d ≡ value (some lead)
    → code_unit a' b' c' d' ≡ value (some trail)
    → is_lead lead ≡ true
    → is_trail trail ≡ true
    → (t : Bytes) × (unicode_escape (a ∷ b ∷ c ∷ d ∷ b'\\' ∷ b'u' ∷ a' ∷ b' ∷ c' ∷ d' ∷ rest)
        ≡ value (t, rest))
      × IsSequence t
      × (utf8_point t + 0x10000 ≡ utf16_point lead trail)
unfolding unicode_escape
unicode_escape_pair a b c d lead a' b' c' d' trail rest h h' l t =
    let other : is_trail lead ≡ false = ground (arith, l) in
    let (text, w, s, p, no_half) =
      write_utf8_point (combine lead trail) (combine-le lead trail l t) in
    (text, rw (h, other, l) (rw (h', t) (rw w)), s, omega (arith, p))

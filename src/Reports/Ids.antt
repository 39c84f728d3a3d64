-- ===== src/Reports/Ids.antt =====
-- The identifiers of reports in KFCrashReportStoreC.c. An `int64_t` is its 64 bits.
use kfcrash.Prelude.{
  ℕ, zero, suc, ◌+◌, ◌-◌, ◌*◌, ◌%◌, ◌^◌, ◌≤◌, ◌<◌, ◌≡◌, refl, ◌∙◌, ◌⊎◌, inl, inr, arith,
}

-- The fields of `struct tm` that are read: seconds, minutes, hours, day of the year from 0, and years
-- from 1900.
pub record Moment : Type 0 where
  pub tm_sec : ℕ
  pub tm_min : ℕ
  pub tm_hour : ℕ
  pub tm_yday : ℕ
  pub tm_year : ℕ

-- `g_nextUniqueIDHigh` and `g_nextUniqueIDLow`
pub record Counter : Type 0 where
  pub high : ℕ
  pub low : ℕ

unfoldable pub get_next_unique_id : Counter → ℕ × Counter
get_next_unique_id c = ((c.high + c.low) % 2 ^ 64, record c { low = (c.low + 1) % 2 ^ 32 })

abbrev pub base_id : Moment → ℕ
base_id t =
    t.tm_sec
    + t.tm_min * 61
    + t.tm_hour * 61 * 60
    + t.tm_yday * 61 * 60 * 24
    + t.tm_year * 61 * 60 * 24 * 366

unfoldable pub initialize_ids : Moment → Counter
initialize_ids t =
    let base = (base_id t * 2 ^ 23) % 2 ^ 64 in
    record { high = base - base % 2 ^ 32; low = base % 2 ^ 32 }

-- The counter after `n` identifiers.
abbrev pub after_ids : ℕ → Counter → Counter
after_ids zero c = c
after_ids (suc n) c = after_ids n (get_next_unique_id c).1

-- What `gmtime_r` gives, up to the year 30000.
pub record IsMoment (t : Moment) : Type 0 where
  pub sec : t.tm_sec ≤ 60
  pub min : t.tm_min < 60
  pub hour : t.tm_hour < 24
  pub yday : t.tm_yday < 366
  pub year : t.tm_year < 28100

-- The earlier of two moments.
abbrev pub Before : Moment → Moment → Type 0
Before a b =
    (a.tm_year < b.tm_year)
    ⊎ ((a.tm_year ≡ b.tm_year)
        × ((a.tm_yday < b.tm_yday)
            ⊎ ((a.tm_yday ≡ b.tm_yday)
                × ((a.tm_hour < b.tm_hour)
                    ⊎ ((a.tm_hour ≡ b.tm_hour)
                        × ((a.tm_min < b.tm_min)
                            ⊎ ((a.tm_min ≡ b.tm_min) × (a.tm_sec < b.tm_sec))))))))

base_id-Before : (a b : Moment) → IsMoment a → Before a b → base_id a < base_id b
base_id-Before a b m (inl h) = omega (arith, m.sec, m.min, m.hour, m.yday)
base_id-Before a b m (inr (y, inl h)) = omega (arith, m.sec, m.min, m.hour)
base_id-Before a b m (inr (y, inr (d, inl h))) = omega (arith, m.sec, m.min)
base_id-Before a b m (inr (y, inr (d, inr (o, inl h)))) = omega (arith, m.sec)
base_id-Before a b m (inr (y, inr (d, inr (o, inr (n, h))))) = omega arith

base_id_bound : (t : Moment) → IsMoment t → base_id t < 2 ^ 40
base_id_bound t m = omega (arith, m.sec, m.min, m.hour, m.yday, m.year)

after_ids_high : (n : ℕ) (c : Counter) → (after_ids n c).high ≡ c.high
unfolding get_next_unique_id
after_ids_high zero c = refl
after_ids_high (suc n) c = after_ids_high n (get_next_unique_id c).1

after_ids_low : (n : ℕ) (c : Counter) → c.low + n < 2 ^ 32 → (after_ids n c).low ≡ c.low + n
unfolding get_next_unique_id
after_ids_low zero c h = omega arith
after_ids_low (suc n) c h = after_ids_low n (get_next_unique_id c).1 (omega arith) ∙ omega arith

low_bits : (b n : ℕ) → n < 2 ^ 23 → (b * 2 ^ 23) % 2 ^ 64 % 2 ^ 32 + n < 2 ^ 32
low_bits b n h = omega arith

-- The identifier after `n` others of a launch at `t`.
abbrev pub nth_id : ℕ → Moment → ℕ
nth_id n t = (get_next_unique_id (after_ids n (initialize_ids t))).0

nth_id_lem : (n : ℕ) (t : Moment) → IsMoment t → n < 2 ^ 23 → nth_id n t ≡ base_id t * 2 ^ 23 + n
unfolding get_next_unique_id initialize_ids
nth_id_lem n t m h =
    let low : (initialize_ids t).low + n < 2 ^ 32 = low_bits (base_id t) n h in
    omega (
      arith,
      after_ids_high n (initialize_ids t),
      after_ids_low n (initialize_ids t) low,
      base_id_bound t m,
    )

nth_id_range : (n : ℕ) (t : Moment) → IsMoment t → n < 2 ^ 23 → nth_id n t < 2 ^ 63
nth_id_range n t m h = omega (arith, nth_id_lem n t m h, base_id_bound t m)

-- Of two launches whose clock shows a valid date before the year 30000, the second later by a second at
-- least, any of the first 2^23 identifiers of the earlier one is below each of the
-- first 2^23 of the later one; those of one launch count up by 1 from the identifier that
-- its date gives, and all of them are non-negative as an `int64_t`.
pub launches_in_order :
    (a b : Moment) (i j : ℕ)
    → IsMoment a
    → IsMoment b
    → Before a b
    → i < 2 ^ 23
    → j < 2 ^ 23
    → (nth_id i a < nth_id j b)
      × (nth_id i a ≡ base_id a * 2 ^ 23 + i)
      × (nth_id j b ≡ base_id b * 2 ^ 23 + j)
      × (nth_id j b < 2 ^ 63)
launches_in_order a b i j ma mb before hi hj = (
  omega (arith, nth_id_lem i a ma hi, nth_id_lem j b mb hj, base_id-Before a b ma before),
  nth_id_lem i a ma hi,
  nth_id_lem j b mb hj,
  nth_id_range j b mb hj,
)

-- ===== src/Fixer/Dates.antt =====
-- Dates as texts, KFCDate.c. A negative `time_t` is later than the clock, as an unsigned number.
use kfcrash.Prelude.{
  ℕ, ◌+◌, ◌-◌, ◌/◌, ◌%◌, Option, none, some, [], ◌∷◌, ◌++◌, ltb, if◌then◌else◌, Bytes, codes,
  length, take, replicate,
}
use kfcrash.Prelude.Int.{ℤ, pos, negsuc}
use kfcrash.Json.Number.{print_u64}

-- `struct tm`, with years from 1900 and months from 0.
pub record BrokenDown : Type 0 where
  pub tm_sec : ℕ
  pub tm_min : ℕ
  pub tm_hour : ℕ
  pub tm_mday : ℕ
  pub tm_mon : ℕ
  pub tm_year : ℕ

-- `gmtime_r`, and what `gettimeofday` shows: `ksdate_seconds` and `ksdate_microseconds`.
pub record Clock : Type 0 where
  pub gmtime : ℕ → Option BrokenDown
  pub seconds : ℕ
  pub microseconds : ℕ

-- `"%04d"` and its like.
abbrev padded : ℕ → ℕ → Bytes
padded width n = let digits = print_u64 n in replicate (width - length digits) b'0' ++ digits

date_text : BrokenDown → Bytes
date_text t =
    padded 4 (t.tm_year + 1900)
    ++ (b'-' ∷ padded 2 (t.tm_mon + 1))
    ++ (b'-' ∷ padded 2 t.tm_mday)
    ++ (b'T' ∷ padded 2 t.tm_hour)
    ++ (b':' ∷ padded 2 t.tm_min)
    ++ (b':' ∷ padded 2 t.tm_sec)

-- `snprintf` cuts the text off for the buffer.
unfoldable pub utc_string_from_timestamp : Clock → ℤ → ℕ → Bytes
unfolding date_text print_u64
utc_string_from_timestamp clock (negsuc n) buffer_size = []
utc_string_from_timestamp clock (pos n) buffer_size =
    if ltb clock.seconds n then [] else (elim (clock.gmtime n) [
      | none ↦ []
      | some t ↦ take (buffer_size - 1) (date_text t ++ codes "Z")
    ])

unfoldable pub utc_string_from_microseconds : Clock → ℤ → ℕ → Bytes
unfolding date_text print_u64
utc_string_from_microseconds clock (negsuc n) buffer_size = []
utc_string_from_microseconds clock (pos n) buffer_size =
    if ltb clock.microseconds n then [] else (elim (clock.gmtime (n / 1000000)) [
      | none ↦ []
      | some t ↦
          take (buffer_size - 1) (date_text t ++ (b'.' ∷ padded 6 (n % 1000000)) ++ codes "Z")
    ])

-- ===== src/Sessions/State.antt =====
-- `KFCrash_AppState` and the globals of Monitors/KFCrashMonitor_AppState.c, with what the monitor
-- needs of the C library: floating point arithmetic, the clock and the file system.
use kfcrash.Prelude.{
  ℕ, ◌+◌, ◌-◌, ◌%◌, ◌^◌, Bool, true, false, ◌&&◌, Option, [], ◌∷◌, ltb, ◌==◌, if◌then◌else◌, Bytes,
}
use kfcrash.Prelude.Int.{ℤ, pos, negsuc}
use kfcrash.Json.Number.{FloatOps}

-- `double` as a type `F`; `reading n` is the time at the n-th call of `gettimeofday`.
pub record Times (F : Type 0) : Type 0 where
  pub floats : FloatOps F
  pub nought : F
  pub plus : F → F → F
  pub minus : F → F → F
  pub of_int : ℤ → F
  pub of_nat : ℕ → F
  pub reading : ℕ → F

-- The file system at a path, NULL included: `open` for reading, `ksfu_readEntireFile`, `open` with
-- truncation, and `ksfu_writeBytesToFD`.
pub record Files (W : Type 0) : Type 0 where
  pub can_read : Option Bytes → W → Bool
  pub read_entire : Option Bytes → ℕ → W → Option Bytes
  pub create : Option Bytes → W → Option W
  pub append : Option Bytes → Bytes → W → Bool × W

-- An `int` is its 32 bits.
pub record AppState (F : Type 0) : Type 0 where
  pub active_duration_since_last_crash : F
  pub background_duration_since_last_crash : F
  pub launches_since_last_crash : ℕ
  pub sessions_since_last_crash : ℕ
  pub active_duration_since_launch : F
  pub background_duration_since_launch : F
  pub sessions_since_launch : ℕ
  pub crashed_last_launch : Bool
  pub crashed_this_launch : Bool
  pub app_state_transition_time : F
  pub application_is_active : Bool
  pub application_is_in_foreground : Bool

-- `memset(&g_state, 0, sizeof(g_state))`
abbrev pub zero_app : {F : Type 0} → Times F → AppState F
zero_app times = record {
  active_duration_since_last_crash = times.nought;
  background_duration_since_last_crash = times.nought;
  launches_since_last_crash = 0;
  sessions_since_last_crash = 0;
  active_duration_since_launch = times.nought;
  background_duration_since_launch = times.nought;
  sessions_since_launch = 0;
  crashed_last_launch = false;
  crashed_this_launch = false;
  app_state_transition_time = times.nought;
  application_is_active = false;
  application_is_in_foreground = false;
}

-- `g_state`, `g_isEnabled` and `g_stateFilePath`; how often the clock was read; the file system;
-- and whether an access went outside an array or through NULL.
pub record Globals (F W : Type 0) : Type 0 where
  pub app : AppState F
  pub is_enabled : Bool
  pub state_file_path : Option Bytes
  pub ticks : ℕ
  pub files : W
  pub fault : Bool

-- `(int)value` of an `int64_t`
abbrev pub to_int : ℤ → ℕ
to_int (pos n) = n % 2 ^ 32
to_int (negsuc n) = 2 ^ 32 - 1 - n % 2 ^ 32

-- The value of an `int`.
abbrev pub signed : ℕ → ℤ
signed n = if ltb n (2 ^ 31) then pos n else negsuc (2 ^ 32 - 1 - n)

-- `++` of an `int`; past INT_MAX, which C leaves open, it wraps around.
abbrev pub increment : ℕ → ℕ
increment n = (n + 1) % 2 ^ 32

abbrev pub int_max : ℕ
int_max = 2 ^ 31 - 1

-- `strcmp(s, t) == 0`
abbrev pub same : Bytes → Bytes → Bool
same [] [] = true
same [] (d ∷ t) = false
same (c ∷ s) [] = false
same (c ∷ s) (d ∷ t) = c == d && same s t

-- ===== src/Sessions/Tests.antt =====
-- Runs of the application state monitor: a `double` is a number of ticks, and the file system is the
-- text of one file.
use kfcrash.Prelude.{
  ℕ, ◌+◌, ◌-◌, ◌*◌, ◌≡◌, refl, true, false, none, some, List, [], ◌∷◌, ◌++◌, arith, ◌==◌,
  if◌then◌else◌, Bytes, codes,
}
use kfcrash.Prelude.Int.{ℤ, pos, negsuc}
use kfcrash.Json.Number.{FloatOps, print_u64, format_i64, format_double}
use kfcrash.Json.Escape.{escaped_portion}
use kfcrash.Json.Decode.{decode}
use kfcrash.Json.Encode.{
  add_integer_element, add_boolean_element, add_floating_point_element, begin_object, end_encode,
  begin_encode,
}
use kfcrash.Sessions.State.{Times, Files, Globals, zero_app}
use kfcrash.Sessions.Storage.{load_state, save_state, on_scalar}
use kfcrash.Sessions.Storage.Loading.{live, Fits, load_state-live}
use kfcrash.Sessions.Notify.{
  Notice, active, in_foreground, crash, event, run, set_enabled, initialize, notify_app_crash,
}
use kfcrash.Sessions.Notify.Totals.{InStep, totals-InStep}
use kfcrash.Sessions.Notify.Counts.{Counted, counters, run_counts, run_disabled}

abbrev of_digits : ℕ → Bytes → ℕ
of_digits n [] = n
of_digits n (c ∷ s) = if c == b'.' then n else of_digits (10 * n + (c - b'0')) s

abbrev whole_floats : FloatOps ℕ
whole_floats = record {
  is_nan = λ v. false;
  is_inf = λ v. false;
  is_positive = λ v. true;
  near_single = λ v. true;
  print_single = print_u64;
  print_double = print_u64;
  print_tenths = λ v. print_u64 v ++ codes ".0";
  scan = of_digits 0;
  negate = λ v. v;
}

abbrev of_integer : ℤ → ℕ
of_integer (pos n) = n
of_integer (negsuc n) = 0

-- The clock moves on by 10 at each reading.
abbrev ticking : Times ℕ
ticking = record {
  floats = whole_floats;
  nought = 0;
  plus = λ a b. a + b;
  minus = λ a b. a - b;
  of_int = of_integer;
  of_nat = λ n. n;
  reading = λ n. 10 * n;
}

abbrev one_file : Files Bytes
one_file = record {
  can_read = λ path w. true;
  read_entire = λ path limit w. some w;
  create = λ path w. some [];
  append = λ path text w. (true, w ++ text);
}

-- The globals before the application state monitor has run, over a state file.
abbrev fresh : Bytes → Globals ℕ Bytes
fresh file = record {
  app = zero_app ticking;
  is_enabled = false;
  state_file_path = none;
  ticks = 0;
  files = file;
  fault = false;
}

abbrev crashed_file : Bytes
crashed_file =
    codes
      "{\"version\":1,\"crashedLastLaunch\":true,\"launchesSinceLastCrash\":4,\"activeDurationSinceLastCrash\":25.0}"

-- The state file of a launch that crashed, loaded.
abbrev behind_a_crash : Globals ℕ Bytes
behind_a_crash = record (fresh crashed_file) {
  app = record (zero_app ticking) {
    active_duration_since_last_crash = 25;
    launches_since_last_crash = 4;
    crashed_last_launch = true;
  };
  state_file_path = some (codes "state");
  ticks = 1;
}

initialize_crashed :
    initialize ticking one_file (codes "state") (fresh crashed_file) ≡ behind_a_crash
unfolding initialize load_state decode on_scalar
initialize_crashed = refl

-- A crash is on file for the next launch.
saved_crash :
    (notify_app_crash ticking one_file (record behind_a_crash { is_enabled = true })).files
    ≡ codes
        "{\n    \"version\": 1,\n    \"crashedLastLaunch\": true,\n    \"activeDurationSinceLastCrash\": 25.0,\n    \"backgroundDurationSinceLastCrash\": 10.0,\n    \"launchesSinceLastCrash\": 4,\n    \"sessionsSinceLastCrash\": 0\n}"
unfolding notify_app_crash save_state add_integer_element add_boolean_element
    add_floating_point_element begin_object end_encode begin_encode format_i64 format_double
    escaped_portion
saved_crash = refl

abbrev day : List Notice
day = active true ∷ event ∷ active false ∷ in_foreground false ∷ in_foreground true ∷ crash ∷ []

load_state-live_example :
    let g' = (load_state ticking one_file (fresh crashed_file)).1 in
    (live ticking g'.app ≡ live ticking (fresh crashed_file).app)
    × Fits g'.app
    × (g'.is_enabled ≡ false)
    × (g'.state_file_path ≡ none)
    × (g'.ticks ≡ 0)
    × (g'.files ≡ crashed_file)
load_state-live_example =
    load_state-live ticking one_file (fresh crashed_file) (omega arith, omega arith)

totals-InStep_example :
    InStep (run ticking one_file day (set_enabled ticking one_file true behind_a_crash)).app
totals-InStep_example = totals-InStep ticking one_file behind_a_crash refl refl day

run_counts_example :
    Counted 1 true
      (counters behind_a_crash.app)
      (counters (run ticking one_file day (record behind_a_crash { is_enabled = true })).app)
run_counts_example =
    run_counts ticking one_file day (record behind_a_crash { is_enabled = true }) refl

run_disabled_example : run ticking one_file day behind_a_crash ≡ behind_a_crash
run_disabled_example = run_disabled ticking one_file day behind_a_crash refl

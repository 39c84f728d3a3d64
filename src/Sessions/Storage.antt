-- ===== src/Sessions/Storage.antt =====
-- The state file of Monitors/KFCrashMonitor_AppState.c: the callbacks that take a decoded file into
-- `g_state`, `loadState`, and `saveState`.
pub mod Laws
pub mod Loading
use kfcrash.Prelude.{
  ℕ, ◌+◌, ◌-◌, ◌^◌, Bool, true, false, Option, none, some, [], ◌∷◌, leb, ◌==◌, if◌then◌else◌, Bytes,
  codes,
}
use kfcrash.Prelude.Int.{ℤ, pos, negsuc}
use kfcrash.Json.Codes.{json_ok, invalid_data, cannot_add_data}
use kfcrash.Json.Encode.{
  Encoder, Call, ◌then◌, begin_encode, begin_object, add_integer_element, add_boolean_element,
  add_floating_point_element, end_encode,
}
use kfcrash.Json.Decode.Scalars.{
  Scalar, boolean, null, integer, unsigned_integer, floating_point, text,
}
use kfcrash.Json.Decode.{Callbacks, Decoding, decode}
use kfcrash.Sessions.State.{Times, Files, AppState, Globals, to_int, signed, int_max, same}

abbrev pub format_version : ℕ
format_version = 1

abbrev pub version_key : Bytes
version_key = codes "version"

abbrev pub crashed_key : Bytes
crashed_key = codes "crashedLastLaunch"

abbrev pub active_key : Bytes
active_key = codes "activeDurationSinceLastCrash"

abbrev pub background_key : Bytes
background_key = codes "backgroundDurationSinceLastCrash"

abbrev pub launches_key : Bytes
launches_key = codes "launchesSinceLastCrash"

abbrev pub sessions_key : Bytes
sessions_key = codes "sessionsSinceLastCrash"

module _ {F : Type 0} (times : Times F) where
  pub on_boolean_element : Bytes → Bool → AppState F → ℕ × AppState F
  on_boolean_element name value app =
      (json_ok, if same name crashed_key then record app { crashed_last_launch = value } else app)

  pub on_floating_point_element : Bytes → F → AppState F → ℕ × AppState F
  on_floating_point_element name value app =
      let app' =
        if same name active_key
        then record app { active_duration_since_last_crash = value }
        else app in
      (
        json_ok,
        if same name background_key
            then record app' { background_duration_since_last_crash = value }
            else app',
      )

  -- `value == kFormatVersion`
  is_version : ℤ → Bool
  is_version (pos n) = n == format_version
  is_version (negsuc n) = false

  pub on_integer_element : Bytes → ℤ → AppState F → ℕ × AppState F
  unfolding is_version on_floating_point_element
  on_integer_element name value app =
      if same name version_key
      then (if is_version value
          then on_floating_point_element name (times.of_int value) app
          else (invalid_data, app))
      else if same name launches_key
      then on_floating_point_element name (times.of_int value)
          (record app { launches_since_last_crash = to_int value })
      else if same name sessions_key
      then on_floating_point_element name (times.of_int value)
          (record app { sessions_since_last_crash = to_int value })
      else on_floating_point_element name (times.of_int value) app

  pub on_unsigned_integer_element : Bytes → ℕ → AppState F → ℕ × AppState F
  unfolding on_floating_point_element
  on_unsigned_integer_element name value app =
      if same name version_key
      then (if value == format_version
          then on_floating_point_element name (times.of_nat value) app
          else (invalid_data, app))
      else if same name launches_key
      then (if leb value int_max
          then on_floating_point_element name (times.of_nat value)
              (record app { launches_since_last_crash = value })
          else (invalid_data, app))
      else if same name sessions_key
      then (if leb value int_max
          then on_floating_point_element name (times.of_nat value)
              (record app { sessions_since_last_crash = value })
          else (invalid_data, app))
      else on_floating_point_element name (times.of_nat value) app

  -- A name is NULL for the whole text and in an array, and `strcmp` does not take NULL: then the
  -- state is `none`.
  named :
      (Bytes → AppState F → ℕ × AppState F)
      → Option Bytes
      → Option (AppState F)
      → ℕ × Option (AppState F)
  named f (some name) (some app) = let (code, app') = f name app in (code, some app')
  named f none app = (invalid_data, none)
  named f (some name) none = (invalid_data, none)

  unfoldable pub on_scalar : Option Bytes → Scalar F → Option (AppState F) → ℕ × Option (AppState F)
  unfolding on_boolean_element on_integer_element on_unsigned_integer_element named
      on_floating_point_element
  on_scalar name (boolean b) = named (λ n. on_boolean_element n b) name
  on_scalar name (integer i) = named (λ n. on_integer_element n i) name
  on_scalar name (unsigned_integer u) = named (λ n. on_unsigned_integer_element n u) name
  on_scalar name (floating_point v) = named (λ n. on_floating_point_element n v) name
  on_scalar name null = λ app. (json_ok, app)
  on_scalar name (text s) = λ app. (json_ok, app)

  abbrev pub callbacks : Callbacks F (Option (AppState F))
  callbacks = record {
    on_scalar = on_scalar;
    on_begin_array = λ name app. (json_ok, app);
    on_begin_object = λ name app. (json_ok, app);
    on_end_container = λ app. (json_ok, app);
    on_end_data = λ app. (json_ok, app);
  }

module _ {F W : Type 0} (times : Times F) (system : Files W) where
  -- `g_state` keeps what was taken before an error.
  taken : Globals F W → ℕ → Option (AppState F) → Bool × Globals F W
  taken g code none = (false, record g { fault = true })
  taken g code (some app) = (code == json_ok, record g { app = app })

  loaded : Globals F W → Option (Decoding (Option (AppState F))) → Bool × Globals F W
  unfolding taken
  loaded g none = (false, record g { fault = true })
  loaded g (some d) = taken g d.code d.user_data

  -- `ksfu_readEntireFile` puts a NUL behind the data.
  load_text : Globals F W → Option Bytes → Bool × Globals F W
  unfolding loaded
  load_text g none = (false, g)
  load_text g (some content) =
      loaded g (decode times.floats (callbacks times) content 0 1000 0 (some g.app))

  unfoldable pub load_state : Globals F W → Bool × Globals F W
  unfolding load_text
  load_state g =
      if system.can_read g.state_file_path g.files
      then load_text g (system.read_entire g.state_file_path 50000 g.files)
      else (false, g)

  pub add_json_data : Option Bytes → Bytes → W → ℕ × W
  add_json_data path bytes w =
      let (success, w') = system.append path bytes w in
      (if success then json_ok else cannot_add_data, w')

  -- The calls of `saveState`; `goto done` at the first that fails.
  pub write_state : Option Bytes → AppState F → Call W
  unfolding add_json_data
  write_state path app =
      let add = add_json_data path in
      begin_object add none
      then add_integer_element add (some version_key) (pos format_version)
      then add_boolean_element add (some crashed_key) app.crashed_this_launch
      then add_floating_point_element add times.floats (some active_key)
          app.active_duration_since_last_crash
      then add_floating_point_element add times.floats (some background_key)
          app.background_duration_since_last_crash
      then add_integer_element add (some launches_key) (signed app.launches_since_last_crash)
      then add_integer_element add (some sessions_key) (signed app.sessions_since_last_crash)
      then end_encode add

  written : Globals F W → Option (ℕ × Encoder W) → Bool × Globals F W
  written g none = (false, record g { fault = true })
  written g (some (code, e)) = (code == json_ok, record g { files = e.sink })

  save_to : Globals F W → Option W → Bool × Globals F W
  unfolding written write_state
  save_to g none = (false, g)
  save_to g (some w) = written g (write_state g.state_file_path g.app (begin_encode true w))

  unfoldable pub save_state : Globals F W → Bool × Globals F W
  unfolding save_to
  save_state g = save_to g (system.create g.state_file_path g.files)

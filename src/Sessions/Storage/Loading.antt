-- ===== src/Sessions/Storage/Loading.antt =====
-- `loadState` of Monitors/KFCrashMonitor_AppState.c, whatever the file holds.
use kfcrash.Prelude.{
  ℕ, ◌^◌, ◌<◌, ◌≡◌, refl, inl, inr, Bool, true, false, Option, none, some, arith, leb, ◌==◌,
  if◌then◌else◌, Bool-cases, if-elim, if-true, if-false, Bytes,
}
use kfcrash.Prelude.Int.{ℤ, pos, negsuc}
use kfcrash.Json.Codes.{invalid_data}
use kfcrash.Json.Decode.Scalars.{
  Scalar, boolean, null, integer, unsigned_integer, floating_point, text,
}
use kfcrash.Json.Decode.{Decoding}
use kfcrash.Json.Decode.Kept.{Keeps, decode_keeps}
use kfcrash.Sessions.State.{Times, Files, AppState, Globals, to_int, int_max, same}
use kfcrash.Sessions.Storage.{
  on_scalar, on_boolean_element, on_floating_point_element, on_integer_element,
  on_unsigned_integer_element, named, is_version, callbacks, load_state, load_text, loaded, taken,
  launches_key, sessions_key, active_key, background_key, version_key, format_version,
}

-- Without the five fields that a state file may set.
abbrev pub live : {F : Type 0} → Times F → AppState F → AppState F
live times app = record app {
  active_duration_since_last_crash = times.nought;
  background_duration_since_last_crash = times.nought;
  launches_since_last_crash = 0;
  sessions_since_last_crash = 0;
  crashed_last_launch = false;
}

-- Both counts are 32 bits.
abbrev pub Fits : {F : Type 0} → AppState F → Type 0
Fits app = (app.launches_since_last_crash < 2 ^ 32) × (app.sessions_since_last_crash < 2 ^ 32)

to_int-fits : (i : ℤ) → to_int i < 2 ^ 32
to_int-fits (pos n) = omega arith
to_int-fits (negsuc n) = omega arith

module _ {F : Type 0} (times : Times F) (base : AppState F) where
  Good : AppState F → Type 0
  Good app = (live times app ≡ live times base) × Fits app

  on_floating-Good :
      (name : Bytes) (v : F) (app : AppState F)
      → Good app
      → Good (on_floating_point_element times name v app).1
  unfolding on_floating_point_element Good
  on_floating-Good name v app h =
      let h' =
        if-elim Good (same name active_key)
          {x = record app { active_duration_since_last_crash = v }} {y = app} h h in
      if-elim Good (same name background_key) h' h'

  on_boolean-Good :
      (name : Bytes) (v : Bool) (app : AppState F)
      → Good app
      → Good (on_boolean_element times name v app).1
  unfolding on_boolean_element Good
  on_boolean-Good name v app h = if-elim Good (same name _) h h

  GoodAfter : ℕ × AppState F → Type 0
  GoodAfter r = Good r.1

  launches-Good :
      (n : ℕ) (app : AppState F)
      → n < 2 ^ 32
      → Good app
      → Good (record app { launches_since_last_crash = n })
  unfolding Good
  launches-Good n app fits (same', (a, b)) = (same', (fits, b))

  sessions-Good :
      (n : ℕ) (app : AppState F)
      → n < 2 ^ 32
      → Good app
      → Good (record app { sessions_since_last_crash = n })
  unfolding Good
  sessions-Good n app fits (same', (a, b)) = (same', (a, fits))

  on_integer-Good :
      (name : Bytes) (i : ℤ) (app : AppState F)
      → Good app
      → Good (on_integer_element times name i app).1
  unfolding on_integer_element GoodAfter
  on_integer-Good name i app h =
      let other = on_floating-Good name (times.of_int i) app h in
      if-elim GoodAfter (same name version_key) (if-elim GoodAfter (is_version times i) other h) (
        if-elim GoodAfter (same name launches_key)
          (on_floating-Good name _ _ (launches-Good (to_int i) app (to_int-fits i) h))
          (if-elim GoodAfter (same name sessions_key)
            (on_floating-Good name _ _ (sessions-Good (to_int i) app (to_int-fits i) h)) other))

  -- What is taken where `n` passes the test against INT_MAX.
  bounded-Good :
      (n : ℕ) (app : AppState F) (x : ℕ × AppState F)
      → (n < 2 ^ 32 → GoodAfter x)
      → Good app
      → GoodAfter (if leb n int_max then x else (invalid_data, app))
  unfolding GoodAfter
  bounded-Good n app x f h = elim (Bool-cases (leb n int_max)) [
    | inl e ↦ if-true GoodAfter _ _ e (f (ground (arith, e)))
    | inr e ↦ if-false GoodAfter _ _ e h
  ]

  on_unsigned-Good :
      (name : Bytes) (n : ℕ) (app : AppState F)
      → Good app
      → Good (on_unsigned_integer_element times name n app).1
  unfolding on_unsigned_integer_element GoodAfter
  on_unsigned-Good name n app h =
      let other = on_floating-Good name (times.of_nat n) app h in
      if-elim GoodAfter (same name version_key) (if-elim GoodAfter (n == format_version) other h) (
        if-elim GoodAfter (same name launches_key)
          (bounded-Good n app _ (λ fits. on_floating-Good name _ _ (launches-Good n app fits h)) h)
          (if-elim GoodAfter (same name sessions_key)
            (bounded-Good n app _ (λ fits. on_floating-Good name _ _ (sessions-Good n app fits h))
              h)
            other))

  data Taken : Option (AppState F) → Type 0 where
    gone : Taken none
    kept : {app : AppState F} → Good app → Taken (some app)

  named-Taken :
      (f : Bytes → AppState F → ℕ × AppState F)
      → ((n : Bytes) (app : AppState F) → Good app → Good (f n app).1)
      → (name : Option Bytes) (o : Option (AppState F)) → Taken o
      → Taken (named times f name o).1
  unfolding named
  named-Taken f good (some name) (some app) (kept h) = kept (good name app h)
  named-Taken f good none (some app) h = gone
  named-Taken f good none none h = gone
  named-Taken f good (some name) none h = gone

  on_scalar-Taken :
      (name : Option Bytes) (s : Scalar F) (o : Option (AppState F))
      → Taken o
      → Taken (on_scalar times name s o).1
  unfolding on_scalar
  on_scalar-Taken name (boolean b) o h = named-Taken _ (λ n. on_boolean-Good n b) name o h
  on_scalar-Taken name (integer i) o h = named-Taken _ (λ n. on_integer-Good n i) name o h
  on_scalar-Taken name (unsigned_integer u) o h = named-Taken _ (λ n. on_unsigned-Good n u) name o h
  on_scalar-Taken name (floating_point v) o h = named-Taken _ (λ n. on_floating-Good n v) name o h
  on_scalar-Taken name null o h = h
  on_scalar-Taken name (text s) o h = h

  callbacks-Keeps : Keeps (callbacks times) Taken
  callbacks-Keeps = record {
    scalar = on_scalar-Taken;
    begin_array = λ name u h. h;
    begin_object = λ name u h. h;
    end_container = λ u h. h;
    end_data = λ u h. h;
  }

module _ {F W : Type 0} (times : Times F) (system : Files W) where
  GoodLoad : Globals F W → Bool × Globals F W → Type 0
  GoodLoad g r =
      Good times g.app r.1.app
      × (r.1.is_enabled ≡ g.is_enabled)
      × (r.1.state_file_path ≡ g.state_file_path)
      × (r.1.ticks ≡ g.ticks)
      × (r.1.files ≡ g.files)

  unchanged :
      (g : Globals F W)
      → Fits g.app
      → (fault : Bool) → GoodLoad g (false, record g { fault = fault })
  unfolding GoodLoad Good
  unchanged g fits fault = ((refl, fits), refl, refl, refl, refl)

  taken-Good :
      (g : Globals F W) (code : ℕ) (o : Option (AppState F))
      → Fits g.app
      → Taken times g.app o
      → GoodLoad g (taken times system g code o)
  unfolding taken GoodLoad
  taken-Good g code none fits gone = unchanged g fits true
  taken-Good g code (some app) fits (kept h) = (h, refl, refl, refl, refl)

  loaded-Good :
      (g : Globals F W) (o : Option (Decoding (Option (AppState F))))
      → Fits g.app
      → ((d : Decoding (Option (AppState F))) → o ≡ some d → Taken times g.app d.user_data)
      → GoodLoad g (loaded times system g o)
  unfolding loaded
  loaded-Good g none fits t = unchanged g fits true
  loaded-Good g (some d) fits t = taken-Good g d.code d.user_data fits (t d refl)

  self-Good : (g : Globals F W) → Fits g.app → Good times g.app g.app
  unfolding Good
  self-Good g fits = (refl, fits)

  load_text-Good :
      (g : Globals F W) (o : Option Bytes) → Fits g.app → GoodLoad g (load_text times system g o)
  unfolding load_text
  load_text-Good g none fits = unchanged g fits g.fault
  load_text-Good g (some content) fits = loaded-Good g _ fits (λ d e.
      decode_keeps times.floats (callbacks times) (Taken times g.app) (callbacks-Keeps times g.app)
        content 0 1000 0 (some g.app) d (kept (self-Good g fits)) e)

  load_state-Good : (g : Globals F W) → Fits g.app → GoodLoad g (load_state times system g)
  unfolding load_state
  load_state-Good g fits =
      if-elim (GoodLoad g) (system.can_read g.state_file_path g.files) (load_text-Good g _ fits)
        (unchanged g fits g.fault)

  -- From a state whose two saved counts are `int`s, whatever the state file holds, and also where
  -- loading it fails, `loadState` sets no field of the state but the five that are saved, leaves the
  -- other globals but for a fault, and both counts are `int`s again.
  pub load_state-live :
      (g : Globals F W)
      → Fits g.app
      → let g' = (load_state times system g).1 in
        (live times g'.app ≡ live times g.app)
        × Fits g'.app
        × (g'.is_enabled ≡ g.is_enabled)
        × (g'.state_file_path ≡ g.state_file_path)
        × (g'.ticks ≡ g.ticks)
        × (g'.files ≡ g.files)
  unfolding GoodLoad Good
  load_state-live g fits =
      let ((same', f), on, path, ticks, files) = load_state-Good g fits in
      (same', f, on, path, ticks, files)

-- ===== src/Sessions/Notify.antt =====
-- The operations of Monitors/KFCrashMonitor_AppState.c that the application's life cycle calls,
-- and the monitor's own two.
pub mod Totals
pub mod Counts
use kfcrash.Prelude.{
  List, [], ◌∷◌, ℕ, ◌+◌, Bool, true, false, not, Option, some, none, Bytes, if◌then◌else◌,
}
use kfcrash.Sessions.State.{Times, Files, AppState, Globals, zero_app, increment}
use kfcrash.Sessions.Storage.{load_state, save_state}

-- What reaches the monitor while it runs; an event asks it for its totals.
pub data Notice : Type 0 where
  active : Bool → Notice
  in_foreground : Bool → Notice
  terminate : Notice
  crash : Notice
  event : Notice

module _ {F W : Type 0} (times : Times F) (system : Files W) where
  pub get_current_time : Globals F W → F × Globals F W
  get_current_time g = (times.reading g.ticks, record g { ticks = g.ticks + 1 })

  pub time_since : F → Globals F W → F × Globals F W
  unfolding get_current_time
  time_since time g = let (now, g') = get_current_time g in (times.minus now time, g')

  set_transition_time : Globals F W → Globals F W
  unfolding get_current_time
  set_transition_time g =
      let (now, g') = get_current_time g in
      record g' { app = record g'.app { app_state_transition_time = now } }

  pub add_active : F → AppState F → AppState F
  add_active duration app = record app {
    active_duration_since_launch = times.plus app.active_duration_since_launch duration;
    active_duration_since_last_crash = times.plus app.active_duration_since_last_crash duration;
  }

  pub add_background : F → AppState F → AppState F
  add_background duration app = record app {
    background_duration_since_launch = times.plus app.background_duration_since_launch duration;
    background_duration_since_last_crash =
        times.plus app.background_duration_since_last_crash duration;
  }

  pub count_session : AppState F → AppState F
  count_session app = record app {
    sessions_since_last_crash = increment app.sessions_since_last_crash;
    sessions_since_launch = increment app.sessions_since_launch;
  }

  pub add_duration : F → AppState F → AppState F
  unfolding add_active add_background
  add_duration duration app =
      if app.application_is_active
      then add_active duration app
      else if not app.application_is_in_foreground
      then add_background duration app
      else app

  pub update_app_state : Globals F W → Globals F W
  unfolding time_since set_transition_time add_duration
  update_app_state g =
      let (duration, g₁) = time_since g.app.app_state_transition_time g in
      let g₂ = set_transition_time g₁ in record g₂ { app = add_duration duration g₂.app }

  unfoldable pub initialize : Bytes → Globals F W → Globals F W
  unfolding set_transition_time
  initialize path g =
      let (ok, g') =
        load_state times system
          (set_transition_time (record g { state_file_path = some path; app = zero_app times })) in
      g'

  pub forget_crash : AppState F → AppState F
  forget_crash app =
      if app.crashed_last_launch
      then record app {
        active_duration_since_last_crash = times.nought;
        background_duration_since_last_crash = times.nought;
        launches_since_last_crash = 0;
        sessions_since_last_crash = 0;
      }
      else app

  pub begin_launch : AppState F → AppState F
  unfolding forget_crash
  begin_launch app =
      let app' = forget_crash (record app {
        sessions_since_launch = 1;
        active_duration_since_launch = times.nought;
        background_duration_since_launch = times.nought;
      }) in
      record app' {
        crashed_this_launch = false;
        launches_since_last_crash = increment app'.launches_since_last_crash;
        sessions_since_last_crash = increment app'.sessions_since_last_crash;
        application_is_in_foreground = true;
      }

  unfoldable pub reset : Globals F W → Bool × Globals F W
  unfolding begin_launch
  reset g =
      if g.is_enabled
      then save_state times system (record g { app = begin_launch g.app })
      else (false, g)

  unfoldable pub notify_obj_c_load : Globals F W → Globals F W
  unfolding set_transition_time
  notify_obj_c_load g = set_transition_time (record g {
    app = record (zero_app times) {
      application_is_in_foreground = false;
      application_is_active = true;
    };
  })

  unfoldable pub notify_app_active : Bool → Globals F W → Globals F W
  unfolding set_transition_time time_since add_active
  notify_app_active is_active g =
      let g₁ = record g { app = record g.app { application_is_active = is_active } } in
      let (duration, g₂) = time_since g₁.app.app_state_transition_time g₁ in
      if g.is_enabled
      then (if is_active
          then set_transition_time g₁
          else record g₂ { app = add_active duration g₂.app })
      else g

  saved : Globals F W → Globals F W
  saved g = let (ok, g') = save_state times system g in g'

  unfoldable pub notify_app_in_foreground : Bool → Globals F W → Globals F W
  unfolding set_transition_time time_since add_background count_session saved
  notify_app_in_foreground is_in_foreground g =
      let g₁ = record g {
        app = record g.app { application_is_in_foreground = is_in_foreground };
      } in
      let (duration, g₂) = time_since g₁.app.app_state_transition_time g₁ in
      if g.is_enabled
      then (if is_in_foreground
          then record g₂ { app = count_session (add_background duration g₂.app) }
          else saved (set_transition_time g₁))
      else g

  unfoldable pub notify_app_terminate : Globals F W → Globals F W
  unfolding update_app_state saved
  notify_app_terminate g = if g.is_enabled then saved (update_app_state g) else g

  unfoldable pub notify_app_crash : Globals F W → Globals F W
  unfolding update_app_state saved
  notify_app_crash g =
      let g' = update_app_state g in
      if g.is_enabled
      then saved (record g' { app = record g'.app { crashed_this_launch = true } })
      else g

  -- `atomic_compare_exchange_strong` against the opposite value.
  unfoldable pub set_enabled : Bool → Globals F W → Globals F W
  unfolding reset
  set_enabled true g = elim (g.is_enabled) [
    | true ↦ g
    | false ↦ let (ok, g') = reset (record g { is_enabled = true }) in g'
  ]
  set_enabled false g = elim (g.is_enabled) [ true ↦ record g { is_enabled = false } | false ↦ g ]

  -- The fields of the event are those of `g_state`; `old` is what the event held before.
  unfoldable pub add_contextual_info_to_event : AppState F → Globals F W → AppState F × Globals F W
  unfolding update_app_state
  add_contextual_info_to_event old g =
      let g' = update_app_state g in if g.is_enabled then (g'.app, g') else (old, g)

  pub notify : Notice → Globals F W → Globals F W
  notify (active b) g = notify_app_active b g
  notify (in_foreground b) g = notify_app_in_foreground b g
  notify terminate g = notify_app_terminate g
  notify crash g = notify_app_crash g
  notify event g = (add_contextual_info_to_event g.app g).1

  pub run : List Notice → Globals F W → Globals F W
  unfolding notify
  run [] g = g
  run (n ∷ ns) g = run ns (notify n g)

-- ===== src/Sessions/Notify/Totals.antt =====
-- The totals of Monitors/KFCrashMonitor_AppState.c over any sequence of notifications.
use kfcrash.Prelude.{if-elim, ◌≡◌, refl, sym, ap, subst, true, false, not, List, [], ◌∷◌}
use kfcrash.Sessions.State.{Times, Files, AppState, Globals, increment}
use kfcrash.Sessions.Storage.Laws.{save_state_memory}
use kfcrash.Sessions.Notify.{
  Notice, active, in_foreground, terminate, crash, event, notify, run, saved, add_duration,
  add_active, add_background, count_session, update_app_state, set_transition_time, time_since,
  get_current_time, notify_app_active, notify_app_in_foreground, notify_app_terminate,
  notify_app_crash, add_contextual_info_to_event, set_enabled, reset, begin_launch, forget_crash,
}

-- The totals since the launch are those since the last crash.
pub record InStep {F : Type 0} (app : AppState F) : Type 0 where
  pub active : app.active_duration_since_last_crash ≡ app.active_duration_since_launch
  pub background : app.background_duration_since_last_crash ≡ app.background_duration_since_launch
  pub sessions : app.sessions_since_last_crash ≡ app.sessions_since_launch

module _ {F W : Type 0} (times : Times F) (system : Files W) where
  add_active-InStep :
      (d : F) (app : AppState F) → InStep app → InStep (add_active times system d app)
  unfolding add_active
  add_active-InStep d app h = record {
    active = rw h.active;
    background = h.background;
    sessions = h.sessions;
  }

  add_background-InStep :
      (d : F) (app : AppState F) → InStep app → InStep (add_background times system d app)
  unfolding add_background
  add_background-InStep d app h = record {
    active = h.active;
    background = rw h.background;
    sessions = h.sessions;
  }

  count_session-InStep : (app : AppState F) → InStep app → InStep (count_session times system app)
  unfolding count_session
  count_session-InStep app h = record {
    active = h.active;
    background = h.background;
    sessions = ap increment h.sessions;
  }

  add_duration-InStep :
      (d : F) (app : AppState F) → InStep app → InStep (add_duration times system d app)
  unfolding add_duration
  add_duration-InStep d app h =
      if-elim InStep app.application_is_active (add_active-InStep d app h)
        (if-elim InStep (not app.application_is_in_foreground) (add_background-InStep d app h) h)

  update_app_state-InStep :
      (g : Globals F W) → InStep g.app → InStep (update_app_state times system g).app
  unfolding update_app_state set_transition_time time_since get_current_time
  update_app_state-InStep g h =
      add_duration-InStep _ _
        (record { active = h.active; background = h.background; sessions = h.sessions })

  saved-InStep : (g : Globals F W) → InStep g.app → InStep (saved times system g).app
  unfolding saved
  saved-InStep g h = subst InStep (sym (save_state_memory times system g).app) h

  AppInStep : Globals F W → Type 0
  AppInStep g = InStep g.app

  notify-InStep :
      (n : Notice) (g : Globals F W) → InStep g.app → InStep (notify times system n g).app
  unfolding notify notify_app_active notify_app_in_foreground notify_app_terminate notify_app_crash
      add_contextual_info_to_event set_transition_time time_since get_current_time AppInStep
  notify-InStep (active true) g h =
      if-elim AppInStep g.is_enabled
        (record { active = h.active; background = h.background; sessions = h.sessions }) h
  notify-InStep (active false) g h =
      if-elim AppInStep g.is_enabled
        (add_active-InStep _ _
          (record { active = h.active; background = h.background; sessions = h.sessions }))
        h
  notify-InStep (in_foreground true) g h =
      if-elim AppInStep g.is_enabled
        (count_session-InStep _ (
          add_background-InStep _ _
            (record { active = h.active; background = h.background; sessions = h.sessions })))
        h
  notify-InStep (in_foreground false) g h =
      if-elim AppInStep g.is_enabled
        (saved-InStep _
          (record { active = h.active; background = h.background; sessions = h.sessions }))
        h
  notify-InStep terminate g h =
      if-elim AppInStep g.is_enabled (saved-InStep _ (update_app_state-InStep g h)) h
  notify-InStep crash g h =
      let h' = update_app_state-InStep g h in
      if-elim AppInStep g.is_enabled
        (saved-InStep _
          (record { active = h'.active; background = h'.background; sessions = h'.sessions }))
        h
  notify-InStep event g h =
      if-elim (λ (p : AppState F × Globals F W). InStep (p.1.app)) g.is_enabled
        (update_app_state-InStep g h) h

  pub run-InStep :
      (ns : List Notice) (g : Globals F W) → InStep g.app → InStep (run times system ns g).app
  unfolding run
  run-InStep [] g h = h
  run-InStep (n ∷ ns) g h = run-InStep ns (notify times system n g) (notify-InStep n g h)

  begin_launch-InStep :
      (app : AppState F) → app.crashed_last_launch ≡ true → InStep (begin_launch times system app)
  unfolding begin_launch forget_crash
  begin_launch-InStep app h =
      rw (h, forget_crash) record { active = refl; background = refl; sessions = refl }

  set_enabled-InStep :
      (g : Globals F W)
      → g.is_enabled ≡ false
      → g.app.crashed_last_launch ≡ true
      → InStep (set_enabled times system true g).app
  unfolding set_enabled reset
  set_enabled-InStep g off crashed = rw off (
      subst InStep (sym (save_state_memory times system _).app) (begin_launch-InStep g.app crashed))

  -- Once the monitor of a launch behind a crash is enabled, its totals since the last crash are
  -- those since the launch, whatever notifications follow: active time, background time and
  -- sessions.
  pub totals-InStep :
      (g : Globals F W)
      → g.is_enabled ≡ false
      → g.app.crashed_last_launch ≡ true
      → (ns : List Notice) → InStep (run times system ns (set_enabled times system true g)).app
  totals-InStep g off crashed ns = run-InStep ns _ (set_enabled-InStep g off crashed)

-- ===== src/Sessions/Notify/Counts.antt =====
-- The counters and the crash flag of Monitors/KFCrashMonitor_AppState.c over any sequence of
-- notifications, and a monitor that is off.
use kfcrash.Prelude.{
  if-false, ℕ, ◌+◌, ◌%◌, ◌^◌, ◌≡◌, refl, sym, ap, subst, ◌∙◌, Bool, true, false, not, ◌||◌, List,
  [], ◌∷◌, arith, if-elim, if-true,
}
use kfcrash.Sessions.State.{Times, Files, AppState, Globals}
use kfcrash.Sessions.Storage.Laws.{save_state_memory}
use kfcrash.Sessions.Notify.{
  Notice, active, in_foreground, terminate, crash, event, notify, run, saved, add_duration,
  add_active, add_background, count_session, update_app_state, set_transition_time, time_since,
  get_current_time, notify_app_active, notify_app_in_foreground, notify_app_terminate,
  notify_app_crash, add_contextual_info_to_event,
}

-- The sessions that a notification begins, and whether it is a crash.
abbrev pub sessions_of : Notice → ℕ
sessions_of (in_foreground true) = 1
sessions_of n = 0

abbrev pub is_crash : Notice → Bool
is_crash crash = true
is_crash n = false

abbrev pub foregrounds : List Notice → ℕ
foregrounds [] = 0
foregrounds (n ∷ ns) = sessions_of n + foregrounds ns

abbrev pub has_crash : List Notice → Bool
has_crash [] = false
has_crash (n ∷ ns) = is_crash n || has_crash ns

-- The fields that count, and the two flags.
pub record Counters : Type 0 where
  pub since_launch : ℕ
  pub since_crash : ℕ
  pub launches : ℕ
  pub crashed_this : Bool
  pub crashed_last : Bool

abbrev pub counters : {F : Type 0} → AppState F → Counters
counters app = record {
  since_launch = app.sessions_since_launch;
  since_crash = app.sessions_since_last_crash;
  launches = app.launches_since_last_crash;
  crashed_this = app.crashed_this_launch;
  crashed_last = app.crashed_last_launch;
}

-- From one state to another, with so many sessions begun, and a crash or none.
pub record Counted (sessions : ℕ) (crashed : Bool) (a b : Counters) : Type 0 where
  pub since_launch : b.since_launch % 2 ^ 32 ≡ (a.since_launch + sessions) % 2 ^ 32
  pub since_crash : b.since_crash % 2 ^ 32 ≡ (a.since_crash + sessions) % 2 ^ 32
  pub launches : b.launches ≡ a.launches
  pub crashed_this : b.crashed_this ≡ (crashed || a.crashed_this)
  pub crashed_last : b.crashed_last ≡ a.crashed_last

module _ {F W : Type 0} (times : Times F) (system : Files W) where
  Step : ℕ → Bool → Counters → Globals F W → Type 0
  Step sessions crashed a g = Counted sessions crashed a (counters g.app) × (g.is_enabled ≡ true)

  saved-Step :
      (n : ℕ) (b : Bool) (a : Counters) (g : Globals F W)
      → Step n b a g
      → Step n b a (saved times system g)
  unfolding saved Step
  saved-Step n b a g (c, on) =
      let same = save_state_memory times system g in
      (subst (λ app. Counted n b a (counters app)) (sym same.app) c, same.is_enabled ∙ on)

  still : (a : Counters) → Counted 0 false a a
  still a = record {
    since_launch = omega arith;
    since_crash = omega arith;
    launches = refl;
    crashed_this = refl;
    crashed_last = refl;
  }

  counters-add_duration :
      (d : F) (app : AppState F) → counters (add_duration times system d app) ≡ counters app
  unfolding add_duration add_active add_background
  counters-add_duration d app =
      let same = λ (a : AppState F). counters a ≡ counters app in
      if-elim same app.application_is_active refl
        (if-elim same (not app.application_is_in_foreground) refl refl)

  counters-update_app_state :
      (g : Globals F W) → counters (update_app_state times system g).app ≡ counters g.app
  unfolding update_app_state set_transition_time time_since get_current_time
  counters-update_app_state g = counters-add_duration _ _

  crash-Counted : (a b : Counters) → b ≡ a → Counted 0 true a (record b { crashed_this = true })
  crash-Counted a b e =
      subst (λ c. Counted 0 true a (record c { crashed_this = true })) (sym e)
        (record {
          since_launch = omega arith;
          since_crash = omega arith;
          launches = refl;
          crashed_this = refl;
          crashed_last = refl;
        })

  notify-Step :
      (n : Notice) (g : Globals F W)
      → g.is_enabled ≡ true
      → Step (sessions_of n) (is_crash n) (counters g.app) (notify times system n g)
  unfolding notify notify_app_active notify_app_in_foreground notify_app_terminate notify_app_crash
      add_contextual_info_to_event set_transition_time time_since get_current_time Step add_active
      add_background count_session
  notify-Step (active true) g on = if-true (Step _ _ _) _ _ on (still _, on)
  notify-Step (active false) g on = if-true (Step _ _ _) _ _ on (still _, on)
  notify-Step (in_foreground true) g on = if-true (Step _ _ _) _ _ on (
    record {
      since_launch = omega arith;
      since_crash = omega arith;
      launches = refl;
      crashed_this = refl;
      crashed_last = refl;
    },
    on,
  )
  notify-Step (in_foreground false) g on =
      if-true (Step _ _ _) _ _ on (saved-Step _ _ _ _ (still _, on))
  notify-Step terminate g on = if-true (Step _ _ _) _ _ on (
      saved-Step _ _ _ _ (
        subst (Counted 0 false (counters g.app)) (sym (counters-update_app_state g)) (still _),
        on,
      ))
  notify-Step crash g on =
      if-true (Step _ _ _) _ _ on
        (saved-Step _ _ _ _ (crash-Counted _ _ (counters-update_app_state g), on))
  notify-Step event g on =
      if-true (λ (p : AppState F × Globals F W). Step 0 false (counters g.app) p.1) _ _ on
        (subst (Counted 0 false (counters g.app)) (sym (counters-update_app_state g)) (still _), on)

  or-shuffle : (b c x y z : Bool) → y ≡ (b || x) → z ≡ (c || y) → z ≡ ((b || c) || x)
  or-shuffle b c x y z h k = ground (arith, h, k)

  Counted-trans :
      (n m : ℕ) (b c : Bool) (x y z : Counters)
      → Counted n b x y
      → Counted m c y z
      → Counted (n + m) (b || c) x z
  Counted-trans n m b c x y z h k = record {
    since_launch = omega (arith, h.since_launch, k.since_launch);
    since_crash = omega (arith, h.since_crash, k.since_crash);
    launches = k.launches ∙ h.launches;
    crashed_this = or-shuffle b c _ _ _ h.crashed_this k.crashed_this;
    crashed_last = k.crashed_last ∙ h.crashed_last;
  }

  -- While the monitor is enabled, any sequence of notifications adds its changes to the foreground
  -- to both counts of sessions, modulo 2^32; it leaves the number of launches and the flag for the
  -- last launch, and this launch has crashed just if it had or a crash is among them.
  pub run_counts :
      (ns : List Notice) (g : Globals F W)
      → g.is_enabled ≡ true
      → Counted
          (foregrounds ns)
          (has_crash ns)
          (counters g.app)
          (counters (run times system ns g).app)
  unfolding run Step
  run_counts [] g on = still _
  run_counts (n ∷ ns) g on =
      let (c, on') = notify-Step n g on in
      Counted-trans _ _ _ _ _ _ _ c (run_counts ns (notify times system n g) on')

  notify_off : (n : Notice) (g : Globals F W) → g.is_enabled ≡ false → notify times system n g ≡ g
  unfolding notify notify_app_active notify_app_in_foreground notify_app_terminate notify_app_crash
      add_contextual_info_to_event
  notify_off (active b) g off = if-false (λ g'. g' ≡ g) _ _ off refl
  notify_off (in_foreground b) g off = if-false (λ g'. g' ≡ g) _ _ off refl
  notify_off terminate g off = if-false (λ g'. g' ≡ g) _ _ off refl
  notify_off crash g off = if-false (λ g'. g' ≡ g) _ _ off refl
  notify_off event g off = if-false (λ (p : AppState F × Globals F W). p.1 ≡ g) _ _ off refl

  -- A monitor that is not enabled ignores every notification: nothing is changed, and neither the
  -- clock nor the file system is touched.
  pub run_disabled :
      (ns : List Notice) (g : Globals F W) → g.is_enabled ≡ false → run times system ns g ≡ g
  unfolding run
  run_disabled [] g off = refl
  run_disabled (n ∷ ns) g off =
      ap (run times system ns) (notify_off n g off) ∙ run_disabled ns g off

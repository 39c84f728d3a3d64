-- ===== src/Monitor/Switches.antt =====
-- Monitors that are a switch each, and an event callback, for the tests.
use kfcrash.Prelude.{
  ℕ, refl, Bool, true, false, [], ◌∷◌, arith, ◌&&◌, ◌||◌, ◌==◌, if◌then◌else◌, codes,
}
use kfcrash.Monitor.Api.{Context, MonitorApis, MonitorLaws, Leaves}

-- Which monitors are on.
abbrev pub Switches : Type 0
Switches = ℕ → Bool

-- Monitor 7 is unsafe under the debugger, which is attached. Monitor 9 stays on once it is on, as the
-- one of KFCrashMonitor_Zombie.c does.
abbrev pub switches : MonitorApis Switches
switches = record {
  init = λ m w. w;
  debugger_unsafe = λ m w. m == 7;
  set_enabled = λ m b w k. if k == m then b || (m == 9 && w m) else w k;
  is_enabled = λ m w. w m;
  add_contextual_info_to_event = λ m c w. (c, w);
  notify_post_system_enable = λ m w. w;
  is_being_traced = λ w. true;
  generate_id = λ w. (codes "id", w);
  suspend_environment = λ w. (5 ∷ 6 ∷ [], w);
  resume_environment = λ threads w. w;
}

pub switches_laws : MonitorLaws switches
switches_laws = record {
  others = λ m k b w n. ground arith;
  flags_kept = λ m k b w. refl;
  notify_keeps = λ m k w. refl;
}

abbrev pub all_off : Switches
all_off m = false

pub switches_leave :
    (m : ℕ) (c : Context) (w : Switches) → Leaves c (switches.add_contextual_info_to_event m c w).0
switches_leave m c w = (refl, refl)

-- What the event callback of KFCrashC.c does to the handler's context when it writes a report.
abbrev pub write_report : Context → Switches → Context × Switches
write_report c w = (
  record c {
    requirements = record c.requirements { async_safety_because_threads_suspended = false };
    suspended_threads = [];
  },
  w,
)

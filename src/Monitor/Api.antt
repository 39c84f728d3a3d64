-- ===== src/Monitor/Api.antt =====
-- What a monitor is to the handler: its function table, and the event context that is passed about
-- (include/KFCrashMonitorAPI.h, KFCrashMonitorContext.h, KFCrashExceptionHandlingRequirements.h).
use kfcrash.Prelude.{ℕ, Bool, false, ◌||◌, List, [], Bytes, ◌≡◌, ◌≢◌}

-- `KFCrash_ExceptionHandlingRequirements`, a bit field for each flag.
pub record Requirements : Type 0 where
  pub should_record_all_threads : Bool
  pub should_write_report : Bool
  pub is_fatal : Bool
  pub async_safety : Bool
  pub async_safety_because_threads_suspended : Bool
  pub crashed_during_exception_handling : Bool
  pub should_exit_immediately : Bool

abbrev pub requires_async_safety : Requirements → Bool
requires_async_safety r = r.async_safety || r.async_safety_because_threads_suspended

abbrev pub no_requirements : Requirements
no_requirements = record {
  should_record_all_threads = false;
  should_write_report = false;
  is_fatal = false;
  async_safety = false;
  async_safety_because_threads_suspended = false;
  crashed_during_exception_handling = false;
  should_exit_immediately = false;
}

-- The fields of `KFCrash_MonitorContext` that the handler itself reads or writes.
-- `suspended_threads` is the array with its count; empty stands for NULL with count 0.
pub record Context : Type 0 where
  pub event_id : Bytes
  pub is_heap_allocated : Bool
  pub requirements : Requirements
  pub thread_handler_index : ℕ
  pub suspended_threads : List ℕ

-- What `memset` and `calloc` leave.
abbrev pub zero_context : Context
zero_context = record {
  event_id = [];
  is_heap_allocated = false;
  requirements = no_requirements;
  thread_handler_index = 0;
  suspended_threads = [];
}

-- The functions behind each `KFCrashMonitorAPI *`, over the state `W` of all that is outside
-- the handler. A pointer is a number, and 0 is NULL.
pub record MonitorApis (W : Type 0) : Type 0 where
  pub init : ℕ → W → W
  -- the flag `KFCrashMonitorFlagDebuggerUnsafe` of what `monitorFlags` returns
  pub debugger_unsafe : ℕ → W → Bool
  pub set_enabled : ℕ → Bool → W → W
  pub is_enabled : ℕ → W → Bool
  pub add_contextual_info_to_event : ℕ → Context → W → Context × W
  pub notify_post_system_enable : ℕ → W → W
  -- `ksdebug_isBeingTraced`
  pub is_being_traced : W → Bool
  -- `ksid_generate`, `ksmc_suspendEnvironment` and `ksmc_resumeEnvironment`
  pub generate_id : W → Bytes × W
  pub suspend_environment : W → List ℕ × W
  pub resume_environment : List ℕ → W → W

-- What the registry relies on: the flags of a monitor stay, a call to one monitor leaves the others
-- as they are, and the notification turns none on or off. Not that a monitor which is told to be
-- disabled is: `setEnabled` of KFCrashMonitor_Zombie.c turns itself on again.
pub record MonitorLaws {W : Type 0} (api : MonitorApis W) : Type 0 where
  pub others :
      (m k : ℕ) (b : Bool) (w : W)
      → m ≢ k
      → api.is_enabled k (api.set_enabled m b w) ≡ api.is_enabled k w
  pub flags_kept :
      (m k : ℕ) (b : Bool) (w : W)
      → api.debugger_unsafe k (api.set_enabled m b w) ≡ api.debugger_unsafe k w
  pub notify_keeps :
      (m k : ℕ) (w : W) → api.is_enabled k (api.notify_post_system_enable m w) ≡ api.is_enabled k w

-- A monitor that adds to the event, or the event callback, leaves alone where the context is kept and
-- which thread it is for. `onExceptionEvent` of KFCrashC.c changes the requirements and the suspended
-- threads.
abbrev pub Leaves : Context → Context → Type 0
Leaves c c' =
    (c'.is_heap_allocated ≡ c.is_heap_allocated)
    × (c'.thread_handler_index ≡ c.thread_handler_index)

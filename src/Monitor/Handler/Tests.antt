-- ===== src/Monitor/Handler/Tests.antt =====
-- The handler's theorems at concrete inputs.
use kfcrash.Prelude.{◌≡◌, refl, ◌≢◌, true, false, none, some, [], arith, replicate}
use kfcrash.Monitor.Api.{Requirements, Context, Leaves, no_requirements, zero_context}
use kfcrash.Monitor.Switches.{Switches, switches, switches_leave, all_off, write_report}
use kfcrash.Monitor.Handler.{
  State, ContextRef, proceed, exited, initial_state, notify_exception, handle_exception, call_event,
  begin_handling_exception, is_thread_already_handling_an_exception, scan_threads,
}
use kfcrash.Monitor.Handler.Decision.{IsSized, is_handling, Given}
use kfcrash.Monitor.Handler.Decision.Nested.{recrash, nested_exceptions}
use kfcrash.Monitor.Handler.Table.{IsIdle, handle-notify, notify_full_table}

abbrev idle : State Switches
idle = initial_state switches zero_context zero_context [] all_off

idle-IsSized : IsSized idle
idle-IsSized = record { table = refl; contexts = refl }

abbrev fatal : Requirements
fatal = record no_requirements { is_fatal = true; should_record_all_threads = true }

idle_free : is_handling switches 4 5 idle ≡ false
unfolding begin_handling_exception is_thread_already_handling_an_exception scan_threads
idle_free = refl

-- With the event callback set.
abbrev installed : State Switches
installed = record idle { on_exception_event = some write_report }

write_report_leaves :
    (c : Context) (w : Switches) → Leaves c (call_event switches (some write_report) c w).0
unfolding call_event
write_report_leaves c w = (refl, refl)

installed-IsSized : IsSized installed
installed-IsSized = record { table = refl; contexts = refl }

nested_exceptions_example :
    (ref1 : ContextRef) × (s1 : State Switches) × (notify_exception switches 4 5 fatal idle
      ≡ proceed ref1 false s1)
    × Given switches 0 fatal ref1 s1
    × (ref2 : ContextRef) × (s2 : State Switches) × (notify_exception switches 4 4 fatal s1
        ≡ proceed ref2 false s2)
    × Given switches 1 (recrash fatal) ref2 s2
    × (ref1 ≢ ref2)
    × (notify_exception switches 4 4 fatal s2 ≡ exited)
nested_exceptions_example =
    nested_exceptions switches 4 5 4 4 fatal fatal fatal idle idle-IsSized (omega arith) idle_free
      refl

handle-notify_example :
    (ref : ContextRef) × (s1 : State Switches) × (s2 : State Switches) × (notify_exception switches
        4 5 fatal installed
      ≡ proceed ref false s1)
    × (handle_exception switches (some ref) s1 ≡ some s2)
    × IsIdle switches switches_leave s2
handle-notify_example =
    handle-notify switches switches_leave 4 5 fatal installed installed-IsSized refl
      write_report_leaves (refl, refl)

abbrev crowded : State Switches
crowded = record installed {
  handling_exception_index = 200;
  threads_handling_exceptions = replicate 200 3;
}

crowded_free : is_handling switches 4 5 crowded ≡ false
unfolding begin_handling_exception is_thread_already_handling_an_exception scan_threads
crowded_free = refl

notify_full_table_example :
    (ref : ContextRef) × (s' : State Switches) × (notify_exception switches 4 5 fatal crowded
      ≡ proceed ref false s')
    × (handle_exception switches (some ref) s' ≡ none)
notify_full_table_example =
    notify_full_table switches switches_leave 4 5 fatal crowded
      (record { table = refl; contexts = refl }) refl write_report_leaves refl crowded_free

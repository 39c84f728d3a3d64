-- ===== src/Monitor/Handler/Decision.antt =====
-- Which procedure `notifyException` chooses, and what the chosen context holds.
pub mod Nested
use kfcrash.Prelude.{
  ℕ, zero, suc, ◌-◌, ◌≤◌, ◌<◌, ◌≡◌, refl, ap, ◌∙◌, inl, inr, Bool, true, false, not, ◌&&◌, ◌||◌,
  none, some, List, [], ◌∷◌, arith, ltb, ◌==◌, Bool-cases, length, get_or, set, take, length-append,
  length-set, get_or-set_self, get_or-set_ne,
}
use kfcrash.Monitor.Api.{Requirements, requires_async_safety, Context, MonitorApis}
use kfcrash.Monitor.Handler.{
  ContextRef, async_safe, heap, exit_immediately, State, exited, proceed, scan_threads,
  is_thread_already_handling_an_exception, conservative, deref, load, store,
  begin_handling_exception, get_next_monitor_context, prepare, give_context, notify_exception,
}

-- A table of the fixed size, and two contexts for async-safe handling.
pub record IsSized {W : Type 0} (s : State W) : Type 0 where
  pub table : length s.threads_handling_exceptions ≡ 200
  pub contexts : length s.async_safe_context ≡ 2

-- The scan finds a thread that stands among the entries it reads.
pub scan_threads_found :
    (threads : List ℕ) (n i offending t : ℕ)
    → i < n
    → i < length threads
    → get_or threads i 0 ≡ t
    → scan_threads (take n threads) offending t ≡ true
unfolding scan_threads
scan_threads_found [] n i offending t h l e = absurd (omega arith)
scan_threads_found (x ∷ xs) zero i offending t h l e = absurd (omega arith)
scan_threads_found (x ∷ xs) (suc n) zero offending t h l e = ground arith
scan_threads_found (x ∷ xs) (suc n) (suc i) offending t h l e =
    ground (arith, scan_threads_found xs n i offending t (omega arith) (omega arith) e)

module _ {W : Type 0} (apis : MonitorApis W) where
  -- The requirements of a context with such suspended threads.
  abbrev pub with_suspended : Requirements → List ℕ → Requirements
  with_suspended r threads = record {
    should_record_all_threads = r.should_record_all_threads;
    should_write_report = r.should_write_report;
    is_fatal = r.is_fatal;
    async_safety = r.async_safety;
    async_safety_because_threads_suspended =
        r.async_safety_because_threads_suspended
        || (r.should_record_all_threads && not (length threads == 0));
    crashed_during_exception_handling = r.crashed_during_exception_handling;
    should_exit_immediately = r.should_exit_immediately;
  }

  -- Giving out a context touches nothing that the decision reads.
  pub give_context-keeps :
      (index : ℕ) (r : Requirements) (s : State W)
      → let s' = (give_context apis index r s).1 in
        (s'.threads_handling_exceptions ≡ s.threads_handling_exceptions)
        × (s'.handling_exception_index ≡ s.handling_exception_index)
        × (s'.crashed_during_exception_handling ≡ s.crashed_during_exception_handling)
        × (s'.is_handling_fatal_exception ≡ s.is_handling_fatal_exception)
        × (s'.monitors ≡ s.monitors)
        × (length s'.async_safe_context ≡ length s.async_safe_context)
        × (s'.initialized ≡ s.initialized)
        × (s'.on_exception_event ≡ s.on_exception_event)
  unfolding give_context get_next_monitor_context store
  give_context-keeps index r s = elim (Bool-cases (requires_async_safety r)) [
    | inl safe ↦ rw safe (refl, refl, refl, refl, refl, length-set _ _ _, refl, refl)
    | inr unsafe ↦ rw unsafe (refl, refl, refl, refl, refl, refl, refl, refl)
  ]

  -- The context that was given out is there, for this exception: its entry in the table, and what was
  -- asked for, with the mark of suspended threads if all are to be recorded and some were suspended.
  pub record Given (index : ℕ) (r : Requirements) (ref : ContextRef) (s : State W) : Type 0 where
    pub context : Context
    pub loaded : load ref s ≡ some context
    pub handler : context.thread_handler_index ≡ index
    pub requirements : context.requirements ≡ with_suspended r context.suspended_threads
    pub suspended :
        r.should_record_all_threads ≡ true
        → (w : W) × (context.suspended_threads ≡ (apis.suspend_environment w).0)

  abbrev pub InRange : ContextRef → State W → Type 0
  InRange (async_safe i) s = i < length s.async_safe_context
  InRange (heap i) s = i < length s.blocks
  InRange exit_immediately s = Unit

  pub load-store :
      (ref : ContextRef) (c : Context) (s : State W) (w : W)
      → InRange ref s
      → load ref (record (store ref c s) { world = w }) ≡ some c
  unfolding load store
  load-store (async_safe i) c s w h = ap some (get_or-set_self s.async_safe_context i c _ h)
  load-store (heap i) c s w h = get_or-set_self s.blocks i (some c) none h
  load-store exit_immediately c s w h = refl

  get_next_monitor_context-InRange :
      (r : Requirements) (s : State W)
      → IsSized s
      → let (ref, s') = get_next_monitor_context apis r s in InRange ref s'
  unfolding get_next_monitor_context
  get_next_monitor_context-InRange r s v = elim (Bool-cases (requires_async_safety r)) [
    | inl safe ↦ rw safe (omega (arith, v.contexts))
    | inr unsafe ↦ rw unsafe (omega (arith, length-append s.blocks))
  ]

  prepare-requirements :
      (index : ℕ) (r : Requirements) (c : Context) (w : W)
      → let c' = (prepare apis index r c w).0 in
        c'.requirements ≡ with_suspended r c'.suspended_threads
  unfolding prepare
  prepare-requirements index r c w = elim (Bool-cases r.should_record_all_threads) [
    | inl all ↦ rw all refl
    | inr few ↦ elim (Bool-cases r.async_safety_because_threads_suspended) [
      | inl before ↦ rw (few, before) refl
      | inr not_yet ↦ rw (few, not_yet) refl
    ]
  ]

  prepare-suspended :
      (index : ℕ) (r : Requirements) (c : Context) (w : W)
      → r.should_record_all_threads ≡ true
      → (prepare apis index r c w).0.suspended_threads ≡ (apis.suspend_environment w).0
  unfolding prepare
  prepare-suspended index r c w all = rw all refl

  Given-prepare :
      (index : ℕ) (r : Requirements) (c : Context) (w : W) (ref : ContextRef) (s : State W)
      → load ref s ≡ some (prepare apis index r c w).0
      → Given index r ref s
  unfolding prepare
  Given-prepare index r c w ref s h = record {
    context = (prepare apis index r c w).0;
    loaded = h;
    handler = ground arith;
    requirements = prepare-requirements index r c w;
    suspended = λ e. (w, prepare-suspended index r c w e);
  }

  pub give_context-Given :
      (index : ℕ) (r : Requirements) (s : State W)
      → IsSized s
      → let (ref, s') = give_context apis index r s in Given index r ref s'
  unfolding give_context
  give_context-Given index r s v =
      let (ref, s') = get_next_monitor_context apis r s in
      let c = deref (load ref s') in
      Given-prepare index r c s'.world _ _ (
        load-store ref (prepare apis index r c s'.world).0 s' _
          (get_next_monitor_context-InRange r s v))

  -- The state in which `notifyException` decides, and the one with the flags that it then sets.
  abbrev pub Flagged : ℕ → Bool → Requirements → State W → State W
  Flagged t crashed r s =
      let s1 = (begin_handling_exception t s).1 in
      record s1 {
        crashed_during_exception_handling = s1.crashed_during_exception_handling || crashed;
        is_handling_fatal_exception = s1.is_handling_fatal_exception || r.is_fatal;
      }

  -- Whether `notifyException` finds the thread, or the one that raised, already handling.
  abbrev pub is_handling : ℕ → ℕ → State W → Bool
  is_handling t offending s =
      let (index, s1) = begin_handling_exception t s in
      is_thread_already_handling_an_exception s1.threads_handling_exceptions index offending t

  pub Flagged-IsSized :
      (t : ℕ) (crashed : Bool) (r : Requirements) (s : State W)
      → IsSized s
      → IsSized (Flagged t crashed r s)
  unfolding begin_handling_exception
  Flagged-IsSized t crashed r s v = record {
    table =
        ground
          (arith, length-set s.threads_handling_exceptions s.handling_exception_index t, v.table);
    contexts = v.contexts;
  }

  pub notify_first :
      (t offending : ℕ) (r : Requirements) (s : State W)
      → s.handling_exception_index ≤ 200
      → is_handling t offending s ≡ false
      → let (ref, s') = give_context apis s.handling_exception_index r (Flagged t false r s) in
        notify_exception apis t offending r s ≡ proceed ref s.is_handling_fatal_exception s'
  unfolding notify_exception begin_handling_exception
  notify_first t offending r s h n =
      let small : ltb 200 s.handling_exception_index ≡ false = ground arith in rw (n, small)

  pub notify_again :
      (t offending : ℕ) (r : Requirements) (s : State W)
      → s.handling_exception_index ≤ 200
      → is_handling t offending s ≡ true
      → s.crashed_during_exception_handling ≡ false
      → let r' = conservative r in
        let (ref, s') = give_context apis s.handling_exception_index r' (Flagged t true r' s) in
        notify_exception apis t offending r s ≡ proceed ref false s'
  unfolding notify_exception begin_handling_exception
  notify_again t offending r s h n c =
      let small : ltb 200 s.handling_exception_index ≡ false = ground arith in rw (n, small, c)

  pub notify_third :
      (t offending : ℕ) (r : Requirements) (s : State W)
      → s.handling_exception_index ≤ 200
      → is_handling t offending s ≡ true
      → s.crashed_during_exception_handling ≡ true
      → notify_exception apis t offending r s ≡ exited
  unfolding notify_exception begin_handling_exception
  notify_third t offending r s h n c =
      let small : ltb 200 s.handling_exception_index ≡ false = ground arith in rw (n, small, c)

  -- A thread that stands in the table before the entry of the new exception is found.
  pub is_handling-found :
      (t offending i : ℕ) (s : State W)
      → IsSized s
      → i < s.handling_exception_index
      → i < 200
      → get_or s.threads_handling_exceptions i 0 ≡ t
      → is_handling t offending s ≡ true
  unfolding begin_handling_exception is_thread_already_handling_an_exception
  is_handling-found t offending i s v h small e = elim (Bool-cases (ltb j 200)) [
    | inl room ↦ rw room (
        scan_threads_found (set threads j t) _ i offending t (ground arith)
          (omega (arith, length-set threads j t, v.table))
          (get_or-set_ne threads j i t 0 (λ q. omega arith) ∙ e))
    | inr over ↦
        rw over
          (scan_threads_found threads _ i offending t (ground arith) (omega (arith, v.table)) e)
  ]
    where
      open s use {threads_handling_exceptions as threads, handling_exception_index as j}

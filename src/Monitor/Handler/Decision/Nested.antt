-- ===== src/Monitor/Handler/Decision/Nested.antt =====
-- Exceptions of one thread inside one another: crash, recrash, exit.
use kfcrash.Prelude.{
  ℕ, ◌+◌, ◌%◌, ◌≤◌, ◌<◌, ◌≡◌, refl, sym, ap, subst, ◌∙◌, ◌≢◌, inl, inr, Bool, true, false, ◌||◌,
  arith, ltb, if◌then◌else◌, Bool-cases, length, get_or, get_or-set_self, get_or-set_ne,
}
use kfcrash.Monitor.Api.{Requirements, requires_async_safety, MonitorApis}
use kfcrash.Monitor.Handler.{
  ContextRef, async_safe, heap, State, store, exited, proceed, conservative,
  begin_handling_exception, get_next_monitor_context, give_context, notify_exception,
}
use kfcrash.Monitor.Handler.Decision.{
  IsSized, Given, Flagged, Flagged-IsSized, is_handling, notify_first, notify_again, notify_third,
  is_handling-found, give_context-keeps, give_context-Given,
}

places-ne :
    (safe : Bool) (k n : ℕ)
    → (if safe then async_safe (k % 2) else heap n) ≢ async_safe ((if safe then k + 1 else k) % 2)
places-ne true k n e = absurd (ground arith)
places-ne false k n e = absurd (cc)

-- The requirements of a crash in a handler.
abbrev pub recrash : Requirements → Requirements
recrash r = record {
  should_record_all_threads = false;
  should_write_report = r.should_write_report;
  is_fatal = true;
  async_safety = true;
  async_safety_because_threads_suspended = r.async_safety_because_threads_suspended;
  crashed_during_exception_handling = true;
  should_exit_immediately = r.should_exit_immediately;
}

module _ {W : Type 0} (apis : MonitorApis W) where
  -- Which context is given out next.
  pub give_context_place :
      (index : ℕ) (r : Requirements) (s : State W)
      → let (ref, s') = give_context apis index r s in
        let k = s.async_safe_context_index in
        let safe = requires_async_safety r in
        (ref ≡ (if safe then async_safe (k % 2) else heap (length s.blocks)))
        × (s'.async_safe_context_index ≡ (if safe then k + 1 else k))
  unfolding give_context get_next_monitor_context store
  give_context_place index r s = elim (Bool-cases (requires_async_safety r)) [
    | inl safe ↦ rw safe (refl, refl)
    | inr unsafe ↦ rw unsafe (refl, refl)
  ]

  -- What an exception that is not the last leaves behind.
  pub record Raised (t : ℕ) (r : Requirements) (s : State W) (ref : ContextRef) (s' : State W)
      : Type 0 where
    pub given : Given apis s.handling_exception_index r ref s'
    pub sized : IsSized s'
    pub next : s'.handling_exception_index ≡ s.handling_exception_index + 1
    pub entered : get_or s'.threads_handling_exceptions s.handling_exception_index 0 ≡ t
    pub kept :
        (i : ℕ)
        → i < s.handling_exception_index
        → get_or s'.threads_handling_exceptions i 0 ≡ get_or s.threads_handling_exceptions i 0

  pub give_context-Raised :
      (t : ℕ) (crashed : Bool) (r : Requirements) (s : State W)
      → IsSized s
      → s.handling_exception_index < 200
      → let (ref, s') =
          give_context apis s.handling_exception_index r (Flagged apis t crashed r s) in
        Raised t r s ref s'
        × (s'.crashed_during_exception_handling ≡ (s.crashed_during_exception_handling || crashed))
  unfolding begin_handling_exception
  give_context-Raised t crashed r s v h =
      let keeps = give_context-keeps apis i r (Flagged apis t crashed r s) in
      let sized = Flagged-IsSized apis t crashed r s v in
      let room : ltb i 200 ≡ true = ground arith in
      (
        record {
          given = give_context-Given apis i r (Flagged apis t crashed r s) sized;
          sized = record {
            table = ap length keeps.0 ∙ sized.table;
            contexts = keeps.5 ∙ v.contexts;
          };
          next = keeps.1;
          entered = rw (keeps.0, room) (get_or-set_self threads i t 0 (omega (arith, v.table)));
          kept = λ j g. rw (keeps.0, room) (get_or-set_ne threads i j t 0 (λ q. omega arith));
        },
        keeps.2,
      )
    where
      open s use {threads_handling_exceptions as threads, handling_exception_index as i}

  -- A thread that handles no exception raises one, its handler crashes, and the handler of that
  -- crashes, where no handler has crashed before and the table has room for two. The first gets a
  -- context with the requirements it asked for, and with the threads that were suspended, and the mark
  -- of that if there are any, where it asked for all threads. The second gets another context, with the
  -- requirements that it asked for changed to a fatal crash in a handler, async-safe and without
  -- the other threads. The third ends the process, whatever was raised.
  pub nested_exceptions :
      (t o1 o2 o3 : ℕ) (r1 r2 r3 : Requirements) (s : State W)
      → IsSized s
      → s.handling_exception_index ≤ 198
      → is_handling apis t o1 s ≡ false
      → s.crashed_during_exception_handling ≡ false
      → (ref1 : ContextRef) × (s1 : State W) × (notify_exception apis t o1 r1 s
          ≡ proceed ref1 s.is_handling_fatal_exception s1)
        × Given apis s.handling_exception_index r1 ref1 s1
        × (ref2 : ContextRef) × (s2 : State W) × (notify_exception apis t o2 r2 s1
            ≡ proceed ref2 false s2)
        × Given apis (s.handling_exception_index + 1) (recrash r2) ref2 s2
        × (ref1 ≢ ref2)
        × (notify_exception apis t o3 r3 s2 ≡ exited)
  unfolding begin_handling_exception
  nested_exceptions t o1 o2 o3 r1 r2 r3 s v h fresh calm =
      let i = s.handling_exception_index in
      let f1 = Flagged apis t false r1 s in
      let (ref1, s1) = give_context apis i r1 f1 in
      let (a1, c1) = give_context-Raised t false r1 s v (omega arith) in
      let p1 = give_context_place i r1 f1 in
      let f2 = Flagged apis t true (conservative r2) s1 in
      let (ref2, s2) = give_context apis s1.handling_exception_index (conservative r2) f2 in
      let (a2, c2) =
        give_context-Raised t true (conservative r2) s1 a1.sized (omega (arith, a1.next)) in
      let p2 = give_context_place s1.handling_exception_index (conservative r2) f2 in
      (
        ref1,
        s1,
        notify_first apis t o1 r1 s (omega arith) fresh,
        a1.given,
        ref2,
        s2,
        notify_again apis t o2 r2 s1 (omega (arith, a1.next))
            (is_handling-found apis t o2 i s1 a1.sized (omega (arith, a1.next)) (omega arith)
              a1.entered)
            (c1 ∙ rw calm),
        subst (λ k. Given apis k (conservative r2) ref2 s2) a1.next a2.given,
        λ e.
            places-ne (requires_async_safety r1) s.async_safe_context_index (length s.blocks)
              (sym p1.0 ∙ e ∙ p2.0 ∙ ap (λ k. async_safe (k % 2)) p1.1),
        notify_third apis t o3 r3 s2 (omega (arith, a1.next, a2.next))
            (is_handling-found apis t o3 i s2 a2.sized (omega (arith, a1.next, a2.next))
              (omega arith) (a2.kept i (omega (arith, a1.next)) ∙ a1.entered))
            (ground (arith, c2)),
      )

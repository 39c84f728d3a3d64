-- ===== src/Monitor/Handler/Table.antt =====
-- The table of handling threads across `notifyException` and `handleException`.
use kfcrash.Prelude.{
  ℕ, zero, suc, ◌≤◌, ◌≡◌, refl, ap, ◌∙◌, inl, inr, Bool, true, false, none, some, List, [], ◌∷◌,
  arith, ltb, ◌==◌, if◌then◌else◌, Bool-cases, get_or, set, replicate, get_or-set_ne,
}
use kfcrash.Monitor.Api.{Requirements, Context, MonitorApis, Leaves}
use kfcrash.Monitor.Registry
use kfcrash.Monitor.Registry.{Slots}
use kfcrash.Monitor.Registry.Events.{Leaves-trans, add_contextual_info-Leaves}
use kfcrash.Monitor.Handler.{
  ContextRef, async_safe, heap, exit_immediately, scan_threads, State, store, load, free, proceed,
  all_zero, init, begin_handling_exception, end_handling_exception, call_event, report, finish,
  handle_loaded, handle_exception, disable_all_monitors, give_context, notify_exception,
  is_thread_already_handling_an_exception,
}
use kfcrash.Monitor.Handler.Decision.{
  IsSized, Flagged, Flagged-IsSized, is_handling, notify_first, give_context-keeps,
  give_context-Given,
}

-- No entry from the next free one on is in use.
abbrev pub IsClear : {W : Type 0} → State W → Type 0
IsClear s = (i : ℕ) → s.handling_exception_index ≤ i → get_or s.threads_handling_exceptions i 0 ≡ 0

all_zero-get : (threads : List ℕ) (i : ℕ) → all_zero threads ≡ true → get_or threads i 0 ≡ 0
unfolding all_zero
all_zero-get [] i h = refl
all_zero-get (t ∷ rest) zero h = ground arith
all_zero-get (t ∷ rest) (suc i) h = all_zero-get rest i (ground arith)

get_or-set_zero : (xs : List ℕ) (k i : ℕ) → get_or xs i 0 ≡ 0 → get_or (set xs k 0) i 0 ≡ 0
get_or-set_zero [] k i h = h
get_or-set_zero (x ∷ xs) zero zero h = refl
get_or-set_zero (x ∷ xs) zero (suc i) h = h
get_or-set_zero (x ∷ xs) (suc k) zero h = h
get_or-set_zero (x ∷ xs) (suc k) (suc i) h = get_or-set_zero xs k i h

module _ {W : Type 0} where
  begin_handling_exception-IsClear :
      (t : ℕ) (s : State W) → IsClear s → IsClear (begin_handling_exception t s).1
  unfolding begin_handling_exception
  begin_handling_exception-IsClear t s c = λ i h.
      elim (Bool-cases (ltb s.handling_exception_index 200)) [
        | inl room ↦ rw room (
            get_or-set_ne s.threads_handling_exceptions s.handling_exception_index i t 0
              (λ q. omega arith)
            ∙ c i (omega arith))
        | inr over ↦ rw over (c i (omega arith))
      ]

  end_handling_exception-IsClear :
      (k : ℕ) (s : State W) {s' : State W}
      → IsClear s
      → end_handling_exception k s ≡ some s'
      → IsClear s'
  unfolding end_handling_exception
  end_handling_exception-IsClear k s {s'} c e = λ i h.
      elim (Bool-cases (all_zero (set s.threads_handling_exceptions k 0))) [
        | inl empty ↦ ground (arith, all_zero-get (set s.threads_handling_exceptions k 0) i)
        | inr busy ↦ ground (arith, c i, get_or-set_zero s.threads_handling_exceptions k i)
      ]

module _ {W : Type 0} (apis : MonitorApis W)
    (leaves : (m : ℕ) (c : Context) (w : W)
      → Leaves c (apis.add_contextual_info_to_event m c w).0) where
  -- The event callback leaves these fields alone too.
  abbrev pub EventLeaves : State W → Type 0
  EventLeaves s = (c : Context) (w : W) → Leaves c (call_event apis s.on_exception_event c w).0

  -- Reporting leaves the table and the context's entry in it.
  record Reported (c : Context) (s : State W) (r : Context × State W) : Type 0 where
    handler : r.0.thread_handler_index ≡ c.thread_handler_index
    heap : r.0.is_heap_allocated ≡ c.is_heap_allocated
    threads : r.1.threads_handling_exceptions ≡ s.threads_handling_exceptions
    index : r.1.handling_exception_index ≡ s.handling_exception_index
    started : r.1.initialized ≡ true

  disable_all_monitors_initialized :
      (s : State W)
      → s.initialized ≡ true
      → (w : W) × (disable_all_monitors apis s ≡ record s { world = w })
  unfolding disable_all_monitors init
  disable_all_monitors_initialized s h =
      (Registry.disable_all_monitors apis s.monitors s.world, rw h)

  -- Turning all monitors off, or not, changes only what is outside.
  disable_if :
      (b : Bool) (s : State W)
      → s.initialized ≡ true
      → (w : W) × ((if b then disable_all_monitors apis s else s) ≡ record s { world = w })
  disable_if true s h = disable_all_monitors_initialized s h
  disable_if false s h = (s.world, refl)

  report-Reported :
      (c : Context) (s : State W)
      → s.initialized ≡ true
      → EventLeaves s
      → Reported c s (report apis c s)
  unfolding report
  report-Reported c s h e =
      let (c1, w1) = Registry.add_contextual_info_to_event apis s.monitors c s.world in
      let (c2, w2) = call_event apis s.on_exception_event c1 w1 in
      let kept =
        Leaves-trans c c1 c2 (add_contextual_info-Leaves apis leaves s.monitors c s.world)
          (e c1 w1) in
      let (w, off) = disable_if c2.requirements.is_fatal (record s { world = w2 }) h in
      record {
        handler = kept.1;
        heap = kept.0;
        threads = ap (λ (x : State W). x.threads_handling_exceptions) off;
        index = ap (λ (x : State W). x.handling_exception_index) off;
        started = ap (λ (x : State W). x.initialized) off ∙ h;
      }

  end_handling_outside : (k : ℕ) (s : State W) → 200 ≤ k → end_handling_exception k s ≡ none
  unfolding end_handling_exception
  end_handling_outside k s h = let far : ltb k 200 ≡ false = ground arith in rw far

  -- Handling a context whose entry lies outside the table writes outside the table.
  handle_outside :
      (ref : ContextRef) (s : State W) (c : Context)
      → s.initialized ≡ true
      → EventLeaves s
      → load ref s ≡ some c
      → 200 ≤ c.thread_handler_index
      → handle_exception apis (some ref) s ≡ none
  unfolding handle_exception handle_loaded finish
  handle_outside ref s c h e l out =
      let r = report-Reported c s h e in
      let past =
        end_handling_outside (report apis c s).0.thread_handler_index
          (store ref (report apis c s).0 (report apis c s).1) (omega (arith, r.handler)) in
      rw l (rw (past, finish))

  -- With all 200 entries taken, an exception of a further thread is given a context as usual, and
  -- handling that context writes one entry past the end of `threadsHandlingExceptions`. The handler has
  -- been initialised; the monitors and the event callback may change all of a context but where it is
  -- kept and which entry of the table it has.
  pub notify_full_table :
      (t offending : ℕ) (r : Requirements) (s : State W)
      → IsSized s
      → s.initialized ≡ true
      → EventLeaves s
      → s.handling_exception_index ≡ 200
      → is_handling apis t offending s ≡ false
      → (ref : ContextRef) × (s' : State W) × (notify_exception apis t offending r s
          ≡ proceed ref s.is_handling_fatal_exception s')
        × (handle_exception apis (some ref) s' ≡ none)
  unfolding begin_handling_exception
  notify_full_table t offending r s v h e full fresh =
      let f = Flagged apis t false r s in
      let (ref, s') = give_context apis s.handling_exception_index r f in
      let g =
        give_context-Given apis s.handling_exception_index r f
          (Flagged-IsSized apis t false r s v) in
      let k = give_context-keeps apis s.handling_exception_index r f in
      (
        ref,
        s',
        notify_first apis t offending r s (omega arith) fresh,
        handle_outside ref s' g.context (k.6 ∙ h) (λ c w. rw k.7 (e c w)) g.loaded
            (omega (arith, g.handler)),
      )

  -- Nothing is being handled.
  abbrev pub IsIdle : State W → Type 0
  IsIdle s = (s.handling_exception_index ≡ 0) × (s.threads_handling_exceptions ≡ replicate 200 0)

  end_handling_only :
      (t : ℕ) (s : State W)
      → s.threads_handling_exceptions ≡ set (replicate 200 0) 0 t
      → (s' : State W) × (end_handling_exception 0 s ≡ some s') × IsIdle s'
  unfolding end_handling_exception
  end_handling_only t s h =
      let empty : all_zero (set s.threads_handling_exceptions 0 0) ≡ true =
        rw h (unfold all_zero in refl) in
      let t' = set s.threads_handling_exceptions 0 0 in
      let i = s.handling_exception_index in
      (
        record s {
          threads_handling_exceptions = t';
          handling_exception_index = if i == 0 then i else if all_zero t' then 0 else i;
        },
        refl,
        (ground arith, rw h),
      )

  -- Storing a context, or freeing it, is not seen in the table.
  store-table :
      (ref : ContextRef) (c : Context) (s : State W)
      → (store ref c s).threads_handling_exceptions ≡ s.threads_handling_exceptions
  unfolding store
  store-table (async_safe i) c s = refl
  store-table (heap i) c s = refl
  store-table exit_immediately c s = refl

  free-IsIdle :
      (ref : ContextRef) (b : Bool) (s : State W) → IsIdle s → IsIdle (if b then free ref s else s)
  unfolding free
  free-IsIdle (async_safe i) true s h = h
  free-IsIdle (heap i) true s h = h
  free-IsIdle exit_immediately true s h = h
  free-IsIdle (async_safe i) false s h = h
  free-IsIdle (heap i) false s h = h
  free-IsIdle exit_immediately false s h = h

  handle_only :
      (t : ℕ) (ref : ContextRef) (c : Context) (s : State W)
      → s.initialized ≡ true
      → EventLeaves s
      → load ref s ≡ some c
      → c.thread_handler_index ≡ 0
      → s.threads_handling_exceptions ≡ set (replicate 200 0) 0 t
      → (s' : State W) × (handle_exception apis (some ref) s ≡ some s') × IsIdle s'
  unfolding handle_exception handle_loaded finish
  handle_only t ref c s h e l zero' only =
      let r = report-Reported c s h e in
      let (c', s1) = report apis c s in
      let (s2, done, idle) =
        end_handling_only t (store ref c' s1) (store-table ref c' s1 ∙ r.threads ∙ only) in
      let ended : end_handling_exception c'.thread_handler_index (store ref c' s1) ≡ some s2 =
        ap (λ k. end_handling_exception k (store ref c' s1)) (r.handler ∙ zero') ∙ done in
      (
        if c'.is_heap_allocated then free ref s2 else s2,
        rw l (rw (ended, finish)),
        free-IsIdle ref c'.is_heap_allocated s2 idle,
      )

  nobody :
      (t offending i : ℕ) (threads : List ℕ)
      → i ≡ 0
      → is_thread_already_handling_an_exception threads i offending t ≡ false
  unfolding is_thread_already_handling_an_exception scan_threads
  nobody t offending i threads e = rw e

  -- While nothing is handled, an exception of any kind is given a context, and once that is
  -- handled the table is empty and its index is back at 0. The handler has been initialised;
  -- the monitors and the event callback may change all of a context but where it is kept and which
  -- entry of the table it has.
  pub handle-notify :
      (t offending : ℕ) (r : Requirements) (s : State W)
      → IsSized s
      → s.initialized ≡ true
      → EventLeaves s
      → IsIdle s
      → (ref : ContextRef) × (s1 s2 : State W) × (notify_exception apis t offending r s
          ≡ proceed ref s.is_handling_fatal_exception s1)
        × (handle_exception apis (some ref) s1 ≡ some s2)
        × IsIdle s2
  unfolding begin_handling_exception
  handle-notify t offending r s v h e (i0, none') =
      let f = Flagged apis t false r s in
      let (ref, s1) = give_context apis s.handling_exception_index r f in
      let g =
        give_context-Given apis s.handling_exception_index r f
          (Flagged-IsSized apis t false r s v) in
      let k = give_context-keeps apis s.handling_exception_index r f in
      let (s2, handled, idle) =
        handle_only t ref g.context s1 (k.6 ∙ h) (λ c w. rw k.7 (e c w)) g.loaded (g.handler ∙ i0)
          (k.0 ∙ rw (i0, none')) in
      (
        ref,
        s1,
        s2,
        notify_first apis t offending r s (omega arith) (
            nobody t offending s.handling_exception_index
              (begin_handling_exception t s).1.threads_handling_exceptions i0),
        handled,
        idle,
      )

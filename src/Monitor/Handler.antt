-- ===== src/Monitor/Handler.antt =====
-- The central exception handler, KFCrashMonitor.c: which procedure an exception gets, the event
-- contexts, and the table of threads that are handling one. Each function runs as one step; a
-- context that the handler gives out is a reference into the state.
pub mod Decision
pub mod Table
mod Tests
use kfcrash.Prelude.{
  ℕ, ◌+◌, ◌%◌, Bool, true, false, not, ◌&&◌, ◌||◌, Option, none, some, List, [], ◌∷◌, ◌++◌, ltb,
  ◌==◌, if◌then◌else◌, length, get_or, set, take, replicate,
}
use kfcrash.Monitor.Api.{
  Requirements, requires_async_safety, Context, zero_context, no_requirements, MonitorApis,
}
use kfcrash.Monitor.Registry
use kfcrash.Monitor.Registry.{Slots, monitor_api_count}

-- `MAX_SIMULTANEOUS_EXCEPTIONS` and `ASYNC_SAFE_ITEM_COUNT`
abbrev pub max_simultaneous_exceptions : ℕ
max_simultaneous_exceptions = 200

abbrev pub async_safe_item_count : ℕ
async_safe_item_count = 2

-- What a `KFCrash_MonitorContext *` of the handler points to.
pub data ContextRef : Type 0 where
  async_safe : ℕ → ContextRef
  heap : ℕ → ContextRef
  exit_immediately : ContextRef

-- `g_state` with `g_initialized`, the blocks that `calloc` gave out, and all that is outside.
pub record State (W : Type 0) : Type 0 where
  pub initialized : Bool
  pub monitors : Slots
  pub crashed_during_exception_handling : Bool
  pub is_handling_fatal_exception : Bool
  pub async_safe_context : List Context
  pub async_safe_context_index : ℕ
  pub exit_immediately_context : Context
  pub threads_handling_exceptions : List ℕ
  pub handling_exception_index : ℕ
  pub on_exception_event : Option (Context → W → Context × W)
  pub blocks : List (Option Context)
  pub world : W

-- What `notifyException` does: `_exit(1)`, or return a context, having slept before or not.
pub data Outcome (W : Type 0) : Type 0 where
  exited : Outcome W
  proceed : ContextRef → Bool → State W → Outcome W

pub all_zero : List ℕ → Bool
all_zero [] = true
all_zero (t ∷ rest) = t == 0 && all_zero rest

-- The scan of `isThreadAlreadyHandlingAnException`, over the first `maxCount` entries.
pub scan_threads : List ℕ → ℕ → ℕ → Bool
scan_threads [] offending handling = false
scan_threads (t ∷ rest) offending handling =
    (t == handling || t == offending) || scan_threads rest offending handling

pub is_thread_already_handling_an_exception : List ℕ → ℕ → ℕ → ℕ → Bool
is_thread_already_handling_an_exception threads max_count offending handling =
    scan_threads
      (take
        (if ltb max_simultaneous_exceptions max_count
          then max_simultaneous_exceptions
          else max_count)
        threads)
      offending handling

-- The requirements of a recrash.
abbrev pub conservative : Requirements → Requirements
conservative r = record r {
  crashed_during_exception_handling = true;
  async_safety = true;
  should_record_all_threads = false;
  is_fatal = true;
}

-- The context that was just given out is there.
abbrev deref : Option Context → Context
deref (some c) = c
deref none = zero_context

module _ {W : Type 0} where
  pub load : ContextRef → State W → Option Context
  load (async_safe i) s = some (get_or s.async_safe_context i zero_context)
  load (heap i) s = get_or s.blocks i none
  load exit_immediately s = some s.exit_immediately_context

  pub store : ContextRef → Context → State W → State W
  store (async_safe i) c s = record s { async_safe_context = set s.async_safe_context i c }
  store (heap i) c s = record s { blocks = set s.blocks i (some c) }
  store exit_immediately c s = record s { exit_immediately_context = c }

  -- `free(ctx)`
  pub free : ContextRef → State W → State W
  free (heap i) s = record s { blocks = set s.blocks i none }
  free _ s = s

  pub begin_handling_exception : ℕ → State W → ℕ × State W
  begin_handling_exception thread s =
      let index = s.handling_exception_index in
      (
        index,
        record s {
          handling_exception_index = index + 1;
          threads_handling_exceptions =
              if ltb index max_simultaneous_exceptions
              then set s.threads_handling_exceptions index thread
              else s.threads_handling_exceptions;
        },
      )

  -- `none` is the write outside `threadsHandlingExceptions`.
  pub end_handling_exception : ℕ → State W → Option (State W)
  end_handling_exception index s =
      let threads = set s.threads_handling_exceptions index 0 in
      if ltb index max_simultaneous_exceptions
      then some (record s {
        threads_handling_exceptions = threads;
        handling_exception_index =
            if s.handling_exception_index == 0
            then s.handling_exception_index
            else if all_zero threads
            then 0
            else s.handling_exception_index;
      })
      else none

module _ {W : Type 0} (apis : MonitorApis W) where
  -- The state after `init` and its `memset`.
  abbrev pub initial_state : Context → Context → List (Option Context) → W → State W
  initial_state c d blocks w = record {
    initialized = true;
    monitors = replicate monitor_api_count 0;
    crashed_during_exception_handling = false;
    is_handling_fatal_exception = false;
    async_safe_context = c ∷ d ∷ [];
    async_safe_context_index = 0;
    exit_immediately_context = record zero_context {
      requirements = record no_requirements { should_exit_immediately = true };
    };
    threads_handling_exceptions = replicate max_simultaneous_exceptions 0;
    handling_exception_index = 0;
    on_exception_event = none;
    blocks = blocks;
    world = w;
  }

  pub init : State W → State W
  init s =
      let (first, w) = apis.generate_id s.world in
      let (second, w') = apis.generate_id w in
      if s.initialized
      then s
      else initial_state (record zero_context { event_id = first })
          (record zero_context { event_id = second }) s.blocks w'

  -- `kfccm_testcode_resetState`
  pub reset_state : State W → State W
  reset_state s = record (initial_state zero_context zero_context s.blocks s.world) {
    initialized = false;
    async_safe_context = replicate async_safe_item_count zero_context;
    exit_immediately_context = zero_context;
  }

  pub set_event_callback : Option (Context → W → Context × W) → State W → State W
  set_event_callback f s = record (init s) { on_exception_event = f }

  pub activate_monitors : State W → Bool × State W
  activate_monitors s =
      let s' = init s in
      let (any, w) = Registry.activate_monitors apis s'.monitors s'.world in
      (any, record s' { world = w })

  pub disable_all_monitors : State W → State W
  disable_all_monitors s =
      let s' = init s in
      record s' { world = Registry.disable_all_monitors apis s'.monitors s'.world }

  -- `kfccm_addMonitor`: a monitor that was added gets the callbacks.
  pub add_monitor : ℕ → State W → Bool × State W
  add_monitor api s =
      let s' = init s in
      let (ok, slots) = Registry.add_monitor api s'.monitors in
      (ok, record s' { monitors = slots; world = if ok then apis.init api s'.world else s'.world })

  pub remove_monitor : ℕ → State W → State W
  remove_monitor api s =
      let s' = init s in
      let (slots, w) = Registry.remove_monitor apis api s'.monitors s'.world in
      record s' { monitors = slots; world = w }

  pub get_next_monitor_context : Requirements → State W → ContextRef × State W
  get_next_monitor_context r s =
      let (id, w) = apis.generate_id s.world in
      if requires_async_safety r
      then (
        async_safe (s.async_safe_context_index % async_safe_item_count),
        record s { async_safe_context_index = s.async_safe_context_index + 1 },
      )
      else (
        heap (length s.blocks),
        record s {
          blocks =
              s.blocks
              ++ (some (record zero_context { event_id = id; is_heap_allocated = true }) ∷ []);
          world = w;
        },
      )

  -- The end of `notifyException`, on the context that was chosen.
  prepare : ℕ → Requirements → Context → W → Context × W
  prepare index r c w =
      let (threads, w') = apis.suspend_environment w in
      if r.should_record_all_threads
      then (
        record c {
          thread_handler_index = index;
          requirements = record r {
            async_safety_because_threads_suspended =
                r.async_safety_because_threads_suspended || not (length threads == 0);
          };
          suspended_threads = threads;
        },
        w',
      )
      else (record c { thread_handler_index = index; requirements = r }, w)

  pub give_context : ℕ → Requirements → State W → ContextRef × State W
  unfolding prepare
  give_context index r s =
      let (ref, s') = get_next_monitor_context r s in
      let (c, w) = prepare index r (deref (load ref s')) s'.world in
      (ref, record (store ref c s') { world = w })

  pub notify_exception : ℕ → ℕ → Requirements → State W → Outcome W
  notify_exception this_thread offending initial s =
      let (index, s1) = begin_handling_exception this_thread s in
      let was_fatal = s1.is_handling_fatal_exception in
      let was_crashed = s1.crashed_during_exception_handling in
      let crashed =
        is_thread_already_handling_an_exception s1.threads_handling_exceptions index offending
          this_thread in
      let r = if crashed then conservative initial else initial in
      let s2 = record s1 {
        crashed_during_exception_handling = was_crashed || crashed;
        is_handling_fatal_exception = was_fatal || r.is_fatal;
      } in
      let (ref, s3) = give_context index r s2 in
      if ltb max_simultaneous_exceptions index
      then proceed exit_immediately false (disable_all_monitors s1)
      else if crashed && was_crashed
      then exited
      else proceed ref (not crashed && was_fatal) s3

  -- `g_state.onExceptionEvent(ctx)`, if it is set
  pub call_event : Option (Context → W → Context × W) → Context → W → Context × W
  call_event none c w = (c, w)
  call_event (some f) c w = f c w

  -- The steps of `handleException` on the context `c`, up to `endHandlingException`.
  pub report : Context → State W → Context × State W
  unfolding call_event
  report c s =
      let (c1, w1) = Registry.add_contextual_info_to_event apis s.monitors c s.world in
      let (c2, w2) = call_event s.on_exception_event c1 w1 in
      let s2 = record s { world = w2 } in
      let s3 = if c2.requirements.is_fatal then disable_all_monitors s2 else s2 in
      (
        record c2 { suspended_threads = [] },
        record s3 { world = apis.resume_environment c2.suspended_threads s3.world },
      )

  finish : ContextRef → Context × State W → Option (State W)
  finish ref (c, s) = elim (end_handling_exception c.thread_handler_index (store ref c s)) [
    | none ↦ none
    | some s' ↦ some (if c.is_heap_allocated then free ref s' else s')
  ]

  handle_loaded : ContextRef → State W → Option Context → Option (State W)
  unfolding finish
  handle_loaded ref s none = none
  handle_loaded ref s (some c) = finish ref (report c s)

  -- `handleException` on a context, or on NULL. `none` is an access outside its object.
  pub handle_exception : Option ContextRef → State W → Option (State W)
  unfolding handle_loaded
  handle_exception none s = some s
  handle_exception (some ref) s = handle_loaded ref s (load ref s)

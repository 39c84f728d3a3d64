-- ===== src/Monitor/Registry.antt =====
-- The lock-free list of monitors, KFCrashMonitorRegistry.c, as one thread runs its operations:
-- a compare-and-exchange succeeds when the slot holds what is expected.
pub mod Slots
pub mod Enabling
pub mod Events
mod Tests
use kfcrash.Prelude.{ℕ, ◌≡◌, Bool, true, false, not, ◌&&◌, ◌||◌, List, [], ◌∷◌, ◌==◌, if◌then◌else◌}
use kfcrash.Monitor.Api.{Context, MonitorApis}

-- `KFCrashMonitorAPIList`: pointers, 0 for NULL.
abbrev pub Slots : Type 0
Slots = List ℕ

-- `KFCRASH_MONITOR_API_COUNT`
abbrev pub monitor_api_count : ℕ
monitor_api_count = 100

pub data Insertion : Type 0 where
  added already full : Insertion

-- The first loop of `kfccmr_addMonitor`: stops at the pointer itself or at the first hole.
pub insert_api : ℕ → Slots → Insertion × Slots
insert_api api [] = (full, [])
insert_api api (s ∷ rest) =
    let (r, rest') = insert_api api rest in
    if s == api then (already, s ∷ rest) else if s == 0 then (added, api ∷ rest) else (r, s ∷ rest')

-- The second loop: all copies but the first become NULL.
pub remove_duplicates : ℕ → Bool → Slots → Slots
remove_duplicates api found [] = []
remove_duplicates api found (s ∷ rest) =
    (if s == api && found then 0 else s) ∷ remove_duplicates api (found || s == api) rest

after_insertion : ℕ → Insertion × Slots → Bool × Slots
after_insertion api (added, slots) = (true, remove_duplicates api false slots)
after_insertion api (_, slots) = (false, slots)

pub add_monitor : ℕ → Slots → Bool × Slots
unfolding after_insertion
add_monitor api slots =
    if api == 0 then (false, slots) else after_insertion api (insert_api api slots)

module _ {W : Type 0} (apis : MonitorApis W) where
  -- The loop of `kfccmr_removeMonitor`: a slot that held the pointer is emptied, and the monitor
  -- is disabled.
  remove_loop : ℕ → Slots → W → Slots × W
  remove_loop api [] w = ([], w)
  remove_loop api (s ∷ rest) w =
      let (rest', w') =
        remove_loop api rest (if s == api then apis.set_enabled api false w else w) in
      ((if s == api then 0 else s) ∷ rest', w')

  pub remove_monitor : ℕ → Slots → W → Slots × W
  unfolding remove_loop
  remove_monitor api slots w = if api == 0 then (slots, w) else remove_loop api slots w

  abbrev pub should_enable : Bool → ℕ → W → Bool
  should_enable is_debugger_unsafe api w = not (is_debugger_unsafe && apis.debugger_unsafe api w)

  -- The first loop of `kfccmr_activateMonitors`.
  pub enable_loop : Bool → Slots → Bool → W → Bool × W
  enable_loop traced [] any w = (any, w)
  enable_loop traced (s ∷ rest) any w =
      let w' = if s == 0 then w else apis.set_enabled s (should_enable traced s w) w in
      enable_loop traced rest (if s == 0 then any else any || apis.is_enabled s w') w'

  -- The second loop.
  pub notify_loop : Slots → W → W
  notify_loop [] w = w
  notify_loop (s ∷ rest) w =
      notify_loop rest
        (if not (s == 0) && apis.is_enabled s w then apis.notify_post_system_enable s w else w)

  pub activate_monitors : Slots → W → Bool × W
  activate_monitors slots w =
      let (any, w') = enable_loop (apis.is_being_traced w) slots false w in
      (any, notify_loop slots w')

  pub disable_all_monitors : Slots → W → W
  disable_all_monitors [] w = w
  disable_all_monitors (s ∷ rest) w =
      disable_all_monitors rest (if s == 0 then w else apis.set_enabled s false w)

  pub add_contextual_info_to_event : Slots → Context → W → Context × W
  add_contextual_info_to_event [] c w = (c, w)
  add_contextual_info_to_event (s ∷ rest) c w =
      let (c', w') =
        if not (s == 0) && apis.is_enabled s w
        then apis.add_contextual_info_to_event s c w
        else (c, w) in
      add_contextual_info_to_event rest c' w'

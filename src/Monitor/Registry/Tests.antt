-- ===== src/Monitor/Registry/Tests.antt =====
-- The list's theorems at concrete inputs.
use kfcrash.Prelude.{ℕ, ◌≡◌, refl, ◌≢◌, true, false, List, [], ◌∷◌, arith}
use kfcrash.Monitor.Switches.{switches, switches_laws, all_off}
use kfcrash.Monitor.Registry.{
  add_monitor, insert_api, remove_duplicates, remove_monitor, activate_monitors,
}
use kfcrash.Monitor.Registry.Slots.{count, Added, add_monitor-Added, count-remove_monitor}
use kfcrash.Monitor.Registry.Enabling.{activate_monitors_debugger}

abbrev two_monitors : List ℕ
two_monitors = 7 ∷ 0 ∷ 9 ∷ []

-- A monitor that stands behind a hole is added again, and its old copy removed.
re_added : add_monitor 9 two_monitors ≡ (true, 7 ∷ 9 ∷ 0 ∷ [])
unfolding add_monitor insert_api remove_duplicates
re_added = refl

add_monitor-Added_example : Added 9 two_monitors (add_monitor 9 two_monitors)
add_monitor-Added_example = add_monitor-Added 9 two_monitors (omega arith)

count-remove_monitor_example :
    let slots' = (remove_monitor switches 9 two_monitors all_off).0 in
    (count 9 slots' ≡ 0) × ((a : ℕ) → a ≢ 0 → a ≢ 9 → count a slots' ≡ count a two_monitors)
count-remove_monitor_example = count-remove_monitor switches 9 two_monitors all_off (omega arith)

activate_monitors_debugger_example : (activate_monitors switches two_monitors all_off).1 7 ≡ false
activate_monitors_debugger_example =
    activate_monitors_debugger switches switches_laws 7 two_monitors all_off (λ w u. ground arith)
      (omega arith) (omega arith) refl refl

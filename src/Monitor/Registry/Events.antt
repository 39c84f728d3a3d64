-- ===== src/Monitor/Registry/Events.antt =====
-- What the monitors may not change while they add to an event.
use kfcrash.Prelude.{ℕ, refl, ◌∙◌, inl, inr, not, ◌&&◌, [], ◌∷◌, ◌==◌, if◌then◌else◌, Bool-cases}
use kfcrash.Monitor.Api.{Context, MonitorApis, Leaves}
use kfcrash.Monitor.Registry.{Slots, add_contextual_info_to_event}

pub Leaves-trans : (a b c : Context) → Leaves a b → Leaves b c → Leaves a c
Leaves-trans a b c p q = (q.0 ∙ p.0, q.1 ∙ p.1)

module _ {W : Type 0} (apis : MonitorApis W)
    (leaves : (m : ℕ) (c : Context) (w : W)
      → Leaves c (apis.add_contextual_info_to_event m c w).0) where
  -- If each monitor leaves the handler's fields, so does the pass over the list.
  pub add_contextual_info-Leaves :
      (slots : Slots) (c : Context) (w : W)
      → Leaves c (add_contextual_info_to_event apis slots c w).0
  unfolding add_contextual_info_to_event
  add_contextual_info-Leaves [] c w = (refl, refl)
  add_contextual_info-Leaves (m ∷ rest) c w =
      let on = not (m == 0) && apis.is_enabled m w in
      let step = if on then apis.add_contextual_info_to_event m c w else (c, w) in
      let first : Leaves c step.0 = elim (Bool-cases on) [
        | inl yes' ↦ rw yes' (leaves m c w)
        | inr no' ↦ rw no' (refl, refl)
      ] in
      Leaves-trans c step.0 (add_contextual_info_to_event apis rest step.0 step.1).0 first
        (add_contextual_info-Leaves rest step.0 step.1)

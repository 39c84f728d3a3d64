-- ===== src/Monitor/Registry/Enabling.antt =====
-- Which monitors are on after `kfccmr_activateMonitors`.
use kfcrash.Prelude.{
  ℕ, ◌<◌, ◌≡◌, refl, ◌∙◌, ◌≢◌, inl, inr, Bool, true, false, not, ◌&&◌, ◌||◌, [], ◌∷◌, arith, ◌==◌,
  Bool-cases,
}
use kfcrash.Monitor.Api.{MonitorApis, MonitorLaws}
use kfcrash.Monitor.Registry.{Slots, should_enable, enable_loop, notify_loop, activate_monitors}
use kfcrash.Monitor.Registry.Slots.{count}

module _ {W : Type 0} (apis : MonitorApis W) (laws : MonitorLaws apis) where
  open apis use {is_enabled, debugger_unsafe, set_enabled, is_being_traced}

  enable_loop-hole :
      (traced any : Bool) (s : ℕ) (rest : Slots) (w : W)
      → (s == 0) ≡ true
      → enable_loop apis traced (s ∷ rest) any w ≡ enable_loop apis traced rest any w
  unfolding enable_loop
  enable_loop-hole traced any s rest w h = rw (h, enable_loop)

  enable_loop-api :
      (traced any : Bool) (s : ℕ) (rest : Slots) (w : W)
      → (s == 0) ≡ false
      → let w' = set_enabled s (should_enable apis traced s w) w in
        enable_loop apis traced (s ∷ rest) any w
        ≡ enable_loop apis traced rest (any || is_enabled s w') w'
  unfolding enable_loop
  enable_loop-api traced any s rest w h = rw (h, enable_loop)

  -- A monitor that is off, once it has been told to be, while it is unsafe under a debugger.
  abbrev pub Stops : ℕ → Type 0
  Stops k = (w : W) → debugger_unsafe k w ≡ true → is_enabled k (set_enabled k false w) ≡ false

  -- The debugger's mask: with a debugger attached an unsafe monitor that is off stays off.
  enable_loop-stays :
      (k : ℕ) (slots : Slots) (any : Bool) (w : W)
      → Stops k
      → debugger_unsafe k w ≡ true
      → is_enabled k w ≡ false
      → is_enabled k (enable_loop apis true slots any w).1 ≡ false
  unfolding enable_loop
  enable_loop-stays k [] any w stops u h = h
  enable_loop-stays k (s ∷ rest) any w stops u h = elim (Bool-cases (s == 0)) [
    | inl hole ↦
        rw (enable_loop-hole true any s rest w hole) (enable_loop-stays k rest _ w stops u h)
    | inr api ↦ rw (enable_loop-api true any s rest w api) (
        enable_loop-stays k rest _ (set_enabled s (should_enable apis true s w) w) stops
          (laws.flags_kept s k _ w ∙ u) (enabling s w u h))
  ]
    where
      enabling :
          (s : ℕ) (w : W)
          → debugger_unsafe k w ≡ true
          → is_enabled k w ≡ false
          → is_enabled k (set_enabled s (should_enable apis true s w) w) ≡ false
      enabling s w u h = elim (Bool-cases (s == k)) [
        | inl same ↦ let e : s ≡ k = ground arith in rw (e, u) (stops w u)
        | inr other ↦ laws.others s k _ w (ground arith) ∙ h
      ]

  enable_loop-unsafe :
      (m : ℕ) (slots : Slots) (any : Bool) (w : W)
      → Stops m
      → m ≢ 0
      → 0 < count m slots
      → debugger_unsafe m w ≡ true
      → is_enabled m (enable_loop apis true slots any w).1 ≡ false
  unfolding enable_loop
  enable_loop-unsafe m [] any w stops h n u = absurd (omega arith)
  enable_loop-unsafe m (s ∷ rest) any w stops h n u = elim (Bool-cases (s == m)) [
    | inl same ↦
        let e : s ≡ m = ground arith in
        let real : (m == 0) ≡ false = ground arith in
        rw (e, enable_loop-api true any m rest w real, u)
          (enable_loop-stays m rest _ (set_enabled m false w) stops
            (laws.flags_kept m m false w ∙ u) (stops w u))
    | inr other ↦ enable_loop-unsafe m rest _ _ stops h (ground arith) (elim (Bool-cases (s == 0)) [
      | inl hole ↦ rw hole u
      | inr api ↦ rw api (laws.flags_kept s m _ w ∙ u)
    ])
  ]

  notify_loop-keeps :
      (k : ℕ) (slots : Slots) (w : W) → is_enabled k (notify_loop apis slots w) ≡ is_enabled k w
  unfolding notify_loop
  notify_loop-keeps k [] w = refl
  notify_loop-keeps k (s ∷ rest) w = elim (Bool-cases (not (s == 0) && is_enabled s w)) [
    | inl on ↦ rw on (notify_loop-keeps k rest _ ∙ laws.notify_keeps s k w)
    | inr off ↦ rw off (notify_loop-keeps k rest w)
  ]

  -- If a call to one monitor changes no other one's flags or being on, then `kfccmr_activateMonitors`
  -- under a debugger leaves each monitor of the list off that is unsafe there and that is off when it
  -- has been told to be.
  pub activate_monitors_debugger :
      (m : ℕ) (slots : Slots) (w : W)
      → Stops m
      → m ≢ 0
      → 0 < count m slots
      → is_being_traced w ≡ true
      → debugger_unsafe m w ≡ true
      → is_enabled m (activate_monitors apis slots w).1 ≡ false
  unfolding activate_monitors
  activate_monitors_debugger m slots w stops h n traced u =
      notify_loop-keeps m slots _ ∙ rw traced (enable_loop-unsafe m slots false w stops h n u)

  -- A monitor of the list that is on.
  abbrev pub SomeEnabled : Slots → W → Type 0
  SomeEnabled slots w = (m : ℕ) × (m ≢ 0) × (0 < count m slots) × (is_enabled m w ≡ true)

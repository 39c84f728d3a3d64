-- ===== src/Sessions/Storage/Laws.antt =====
-- What `saveState` and `loadState` of Monitors/KFCrashMonitor_AppState.c leave alone.
use kfcrash.Prelude.{ℕ, ◌≡◌, refl, Option, none, some}
use kfcrash.Json.Encode.{Encoder}
use kfcrash.Sessions.State.{Times, Files, Globals}
use kfcrash.Sessions.Storage.{save_state, save_to, written}

-- All but the file system and the fault.
pub record SameMemory {F W : Type 0} (g g' : Globals F W) : Type 0 where
  pub app : g'.app ≡ g.app
  pub is_enabled : g'.is_enabled ≡ g.is_enabled
  pub state_file_path : g'.state_file_path ≡ g.state_file_path
  pub ticks : g'.ticks ≡ g.ticks

module _ {F W : Type 0} (times : Times F) (system : Files W) where
  written_memory :
      (g : Globals F W) (r : Option (ℕ × Encoder W)) → SameMemory g (written times system g r).1
  unfolding written
  written_memory g none = record {
    app = refl;
    is_enabled = refl;
    state_file_path = refl;
    ticks = refl;
  }
  written_memory g (some (code, e)) = record {
    app = refl;
    is_enabled = refl;
    state_file_path = refl;
    ticks = refl;
  }

  save_to_memory : (g : Globals F W) (w : Option W) → SameMemory g (save_to times system g w).1
  unfolding save_to
  save_to_memory g none = record {
    app = refl;
    is_enabled = refl;
    state_file_path = refl;
    ticks = refl;
  }
  save_to_memory g (some w) = written_memory g _

  pub save_state_memory : (g : Globals F W) → SameMemory g (save_state times system g).1
  unfolding save_state
  save_state_memory g = save_to_memory g _

-- ===== src/Bridge/Threads.antt =====
-- The threads that the write handlers of matter-bridge-app/main.cpp start and detach. Each makes one
-- call of the adapter, and nothing orders the threads. The call is one step here. For a udn in the
-- cache the adapter's mutex is held for the whole call. On a miss the source runs the discovery and
-- the listing outside the lock, which is not modelled.
pub mod Delivered
pub mod Race
use wemo_matter_bridge.Prelude.{ℕ, zero, suc, ◌≡◌, List, [], ◌∷◌, ◌++◌}
use wemo_matter_bridge.Adapter.Engine.{Engine}
use wemo_matter_bridge.Adapter.OpenWemo.{Adapter}
use wemo_matter_bridge.Adapter.OpenWemo
use wemo_matter_bridge.Bridge.State.{
  Command, set_on_off, set_level_percent, Effect, reported, started,
}

-- The commands of the threads that have not called the adapter yet, and the adapter.
pub record System : Type 0 where
  pub pending : List Command
  pub adapter : Adapter

-- The body of a thread; it drops the result of the call.
unfoldable pub run_command : Engine → Command → Adapter → Adapter
unfolding OpenWemo.set_on_off OpenWemo.set_level_percent
run_command g (set_on_off udn on) a = (OpenWemo.set_on_off g udn on a).1
run_command g (set_level_percent udn percent) a = (OpenWemo.set_level_percent g udn percent a).1

-- The threads that the effects start.
abbrev pub started_commands : List Effect → List Command
started_commands [] = []
started_commands (reported r ∷ es) = started_commands es
started_commands (started k ∷ es) = k ∷ started_commands es

-- Any pending thread may be the next one to run.
pub data ThreadStep (g : Engine) (s t : System) : Type 0 where
  runs :
      (before : List Command) (k : Command) (after : List Command)
      → s.pending ≡ before ++ k ∷ after
      → t ≡ record { pending = before ++ after; adapter = run_command g k s.adapter }
      → ThreadStep g s t

pub data Runs (g : Engine) : ℕ → System → System → Type 0 where
  stop : {s : System} → Runs g zero s s
  go_on : {n : ℕ} {s t u : System} → ThreadStep g s t → Runs g n t u → Runs g (suc n) s u

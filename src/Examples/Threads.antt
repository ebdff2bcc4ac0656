-- ===== src/Examples/Threads.antt =====
-- The theorems about the started threads, at the house with one lamp and the engine that has it.
use wemo_matter_bridge.Prelude.{◌≡◌, refl, pos, true, false, [], ◌∷◌, ◌++◌, some, codes}
use wemo_matter_bridge.Adapter.Engine.{we_set_action}
use wemo_matter_bridge.Adapter.OpenWemo.{Adapter, find_id}
use wemo_matter_bridge.Adapter.Cache.{on_state}
use wemo_matter_bridge.Device.Light.{Light, is_on}
use wemo_matter_bridge.Bridge.State.{Bridge, Command}
use wemo_matter_bridge.Bridge.Write.{success, OnOffAttribute, handle_write_on_off_attribute}
use wemo_matter_bridge.Bridge.Threads.{
  System, Runs, started_commands, run_command, runs, stop, go_on,
}
use wemo_matter_bridge.Bridge.Threads.Delivered.{Progress, threads_deliver}
use wemo_matter_bridge.Bridge.Threads.Race.{later_write_may_lose}
use wemo_matter_bridge.Examples.World.{demo_sdk}
use wemo_matter_bridge.Examples.Lights.{house, house-IsWellFormed}
use wemo_matter_bridge.Examples.Adapters.{engine, ready_adapter}

abbrev known_lamp : Adapter
known_lamp = ready_adapter ((codes "uuid:1", pos 7) ∷ [])

abbrev turn_on : Command
turn_on = Command.set_on_off (codes "uuid:1") true

abbrev dim : Command
dim = Command.set_level_percent (codes "uuid:1") 40

abbrev two_threads : System
two_threads = record { pending = turn_on ∷ dim ∷ []; adapter = known_lamp }

abbrev dimmed_first : System
dimmed_first = record { pending = turn_on ∷ []; adapter = run_command engine dim known_lamp }

threads_deliver_example :
    Progress engine 1 two_threads dimmed_first
    × ((u : System) × Runs engine 1 dimmed_first u × (u.pending ≡ []))
unfolding find_id
threads_deliver_example =
    threads_deliver engine {n = 1} {s = two_threads} {t = dimmed_first}
      (record { initialized = refl; known = ((λ e. cc), ((λ e. cc), tt)) })
      (go_on (runs (turn_on ∷ []) dim [] refl refl) stop)

later_write_may_lose_example :
    (s₁ : Bridge) × (s₂ : Bridge) × (shown : Light) × (t : System) × (handle_write_on_off_attribute
        0 OnOffAttribute.on_off 1 1000 house
      ≡ some (success, s₁))
    × (handle_write_on_off_attribute 0 OnOffAttribute.on_off 0 1200 s₁ ≡ some (success, s₂))
    × (s₂.heap 0 ≡ some shown)
    × (is_on shown ≡ false)
    × Runs engine 2 (record { pending = started_commands s₂.effects; adapter = known_lamp }) t
    × (t.pending ≡ [])
    × (t.adapter.calls
        ≡ (known_lamp.calls ++ we_set_action (pos 7) (on_state false) ∷ [])
          ++ we_set_action (pos 7) (on_state true) ∷ [])
unfolding find_id
later_write_may_lose_example =
    later_write_may_lose engine 0 1 1000 0 1200 house known_lamp house-IsWellFormed refl refl refl
      refl refl refl

-- ===== src/Examples/Boot.antt =====
-- Start-up and a write, at the engine with one lamp.
use wemo_matter_bridge.Prelude.{◌≡◌, refl, ℤ, true, [], ◌∷◌, ◌++◌, Option, none, some, codes}
use wemo_matter_bridge.Adapter.Engine.{we_set_action}
use wemo_matter_bridge.Adapter.OpenWemo.{Adapter, call, discover}
use wemo_matter_bridge.Adapter.Uses.{new_adapter}
use wemo_matter_bridge.Adapter.Cache.{last_id, on_state}
use wemo_matter_bridge.Bridge.State.{Bridge, Command}
use wemo_matter_bridge.Bridge.Write.{success, OnOffAttribute, handle_write_on_off_attribute}
use wemo_matter_bridge.Bridge.Threads.{run_command, started_commands}
use wemo_matter_bridge.Bridge.Startup.{publish}
use wemo_matter_bridge.Bridge.Boot.{boot}
use wemo_matter_bridge.Bridge.Boot.Reach.{write_reaches_engine}
use wemo_matter_bridge.Examples.World.{demo_sdk}
use wemo_matter_bridge.Examples.Lights.{with_slot}
use wemo_matter_bridge.Examples.Adapters.{engine}

abbrev fresh : Adapter
unfolding new_adapter
fresh = new_adapter (codes "127.0.0.1:49153")

abbrev or_fresh : Option (Bridge × Adapter) → Bridge × Adapter
or_fresh none = (with_slot none, fresh)
or_fresh (some r) = r

abbrev booted : Bridge × Adapter
unfolding boot
booted = or_fresh (boot engine 2 3 fresh (with_slot none))

write_reaches_engine_example :
    let k = Command.set_on_off (codes "uuid:1") true in
    (id : ℤ) × (s₂ : Bridge) × (last_id (codes "uuid:1") (discover engine fresh).0 ≡ some id)
    × (handle_write_on_off_attribute 1 OnOffAttribute.on_off 1 1000 booted.0 ≡ some (success, s₂))
    × (started_commands s₂.effects ≡ started_commands booted.0.effects ++ k ∷ [])
    × (run_command engine k booted.1 ≡ call (we_set_action id (on_state true)) booted.1)
unfolding boot fresh publish
write_reaches_engine_example =
    write_reaches_engine engine 2 3 1 1 1000 fresh booted.1 (with_slot none) booted.0 refl refl refl
      refl refl refl

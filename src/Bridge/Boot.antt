-- ===== src/Bridge/Boot.antt =====
-- `ApplicationInit` of matter-bridge-app/main.cpp with the adapter: the discovery before the lights
-- are published, and the state callback and the second discovery behind it.
pub mod Listed
pub mod Reach
use wemo_matter_bridge.Prelude.{ℕ, Option, none, some}
use wemo_matter_bridge.Device.Class.{Sdk}
use wemo_matter_bridge.Adapter.Engine.{Engine}
use wemo_matter_bridge.Adapter.OpenWemo.{Adapter, discover, refresh, register_state_callback}
use wemo_matter_bridge.Bridge.State.{Bridge}
use wemo_matter_bridge.Bridge.Startup.{application_init}

module _ ⦃c : Sdk⦄ where
  unfoldable pub boot : Engine → ℕ → ℕ → Adapter → Bridge → Option (Bridge × Adapter)
  unfolding discover application_init register_state_callback refresh
  boot g fuel last_fixed a s =
      let (discovered, a') = discover g a in
      elim (application_init fuel last_fixed discovered s) [
        | none ↦ none
        | some s' ↦ some (s', refresh g (register_state_callback g a'))
      ]

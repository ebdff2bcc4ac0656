-- ===== src/Adapter/Miss.antt =====
-- A command of src/adapters/wemo/wemo_adapter_openwemo.cpp for a udn that is not in the cache yet.
use wemo_matter_bridge.Prelude.{
  ℕ, ◌≡◌, ap, ℤ, Bool, true, List, [], ◌∷◌, ◌++◌, map, none, some, Text, clamp_at,
}
use wemo_matter_bridge.Adapter.Engine.{
  Engine, WeDeviceInfo, EngineCall, we_discover, we_list_devices, we_set_action,
}
use wemo_matter_bridge.Adapter.OpenWemo.{
  Adapter, find_id, nonzero, to_device, ensure_engine_initialized, list_after_discover, set_on_off,
  set_level_percent, send_state,
}
use wemo_matter_bridge.Adapter.Cache.{last_id, on_state, level_state, send_listed, relisted}

-- The calls of the engine before a command is sent to a newly found device.
abbrev pub looked_up : List EngineCall → List EngineCall
looked_up calls = (calls ++ we_discover ∷ []) ++ we_list_devices ∷ []

module _ (g : Engine) where
  -- Once the engine is ready, a command for a udn that is not in the cache but in the refreshed
  -- device list goes to the id of the last listed device with the udn, after one discovery and one
  -- listing, and its result is whether the engine answered other than 0.
  pub command_refreshed :
      (udn : Text) (on : Bool) (percent : ℕ) (s : Adapter) {s₁ : Adapter}
      {items : List WeDeviceInfo} {id : ℤ}
      → ensure_engine_initialized g s ≡ (true, s₁)
      → find_id udn s₁.udn_to_wemo_id ≡ none
      → (list_after_discover g s₁).0 ≡ some items
      → last_id udn (map to_device items) ≡ some id
      → let level = level_state (clamp_at 100 percent) in
        ((set_on_off g udn on s).0 ≡ nonzero (g.set_action (looked_up s₁.calls) id (on_state on)))
        × ((set_on_off g udn on s).1.calls
            ≡ looked_up s₁.calls ++ we_set_action id (on_state on) ∷ [])
        × ((set_level_percent g udn percent s).0
            ≡ nonzero (g.set_action (looked_up s₁.calls) id level))
        × ((set_level_percent g udn percent s).1.calls
            ≡ looked_up s₁.calls ++ we_set_action id level ∷ [])
  unfolding set_on_off set_level_percent relisted send_state list_after_discover
  command_refreshed udn on percent s {s₁} {items} h q l m =
      let sent = λ (state level : ℤ). send_listed g udn state level s₁ items q l m in
      (
        rw (h, set_on_off) (ap (λ r. r.0) (sent _ _)),
        rw (h, set_on_off) (ap (λ r. r.1.calls) (sent _ _)),
        rw (h, set_level_percent) (ap (λ r. r.0) (sent _ _)),
        rw (h, set_level_percent) (ap (λ r. r.1.calls) (sent _ _)),
      )

-- ===== src/Bridge/State.antt =====
-- The global state of matter-bridge-app/main.cpp.
use wemo_matter_bridge.Prelude.{
  ℕ, ℤ, ◌+◌, Bool, List, [], ◌∷◌, Option, none, some, ◌==◌, ltb, if◌then◌else◌, Text,
}
use wemo_matter_bridge.Device.Class.{Sdk, Report}
use wemo_matter_bridge.Device.Light.{Light}

-- A bridged light: `device` is the address of the object that the entry owns. The commanded values
-- are `none` where the source holds -1. Times are milliseconds of the steady clock.
pub record BridgedWemoLight : Type 0 where
  pub wemo_id : ℤ
  pub udn : Text
  pub is_dimmable : Bool
  pub device : ℕ
  pub commanded_on_off : Option Bool
  pub commanded_level : Option ℕ
  pub commanded_on_off_until : ℕ
  pub commanded_level_until : ℕ

abbrev pub k_command_settle_window : ℕ
k_command_settle_window = 2000

-- What a detached thread runs: a call of the adapter.
pub data Command : Type 0 where
  set_on_off : Text → Bool → Command
  set_level_percent : Text → ℕ → Command

-- What the handlers hand to other threads: scheduled reports and started threads, oldest first.
pub data Effect : Type 0 where
  reported : Report → Effect
  started : Command → Effect

module _ ⦃c : Sdk⦄ where
  -- `heap` holds the objects that device pointers point to; a pointer to anything else dangles.
  -- `next_address` is where the next object is allocated, and `endpoints` is the stack's table.
  pub record Bridge : Type 0 where
    pub heap : ℕ → Option Light
    pub next_address : ℕ
    pub endpoints : c.Endpoints
    pub lights : List BridgedWemoLight
    pub device_to_udn : List (ℕ × Text)
    pub devices : List (Option ℕ)
    pub current_endpoint_id : ℕ
    pub first_dynamic_endpoint_id : ℕ
    pub effects : List Effect

  abbrev pub store : (ℕ → Option Light) → ℕ → Option Light → ℕ → Option Light
  store h a v b = if b == a then v else h b

-- `gWemoDeviceToUdn.find(dev)`.
abbrev pub find_udn : ℕ → List (ℕ × Text) → Option Text
find_udn dev [] = none
find_udn dev ((a, udn) ∷ m) = if a == dev then some udn else find_udn dev m

-- The test of the loops over `gBridgedWemoLights`.
abbrev pub owns : ℕ → BridgedWemoLight → Bool
owns dev e = e.device == dev

-- `if (e.commandedOnOff >= 0 && now > e.commandedOnOffUntil) e.commandedOnOff = -1`.
unfoldable pub expire_on_off : ℕ → BridgedWemoLight → BridgedWemoLight
expire_on_off now e = elim e.commanded_on_off [
  | none ↦ e
  | some b ↦ if ltb e.commanded_on_off_until now then record e { commanded_on_off = none } else e
]

unfoldable pub expire_level : ℕ → BridgedWemoLight → BridgedWemoLight
expire_level now e = elim e.commanded_level [
  | none ↦ e
  | some v ↦ if ltb e.commanded_level_until now then record e { commanded_level = none } else e
]

-- The commanded value of a write, held for the settle window.
unfoldable pub command_on_off : Bool → ℕ → BridgedWemoLight → BridgedWemoLight
command_on_off target now e = record e {
  commanded_on_off = some target;
  commanded_on_off_until = now + k_command_settle_window;
}

unfoldable pub command_level : ℕ → ℕ → BridgedWemoLight → BridgedWemoLight
command_level level now e = record e {
  commanded_level = some level;
  commanded_level_until = now + k_command_settle_window;
}

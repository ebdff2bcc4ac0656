-- ===== src/Demo/Commands.antt =====
-- The JSON commands of the named pipe in matter-bridge-app/main.cpp.
use wemo_matter_bridge.Prelude.{
  not, ◌||◌, List, [], ◌∷◌, ◌++◌, Option, none, some, if◌then◌else◌, Text, text_eq, codes,
}
use wemo_matter_bridge.Device.Class.{Sdk}
use wemo_matter_bridge.Device.Sensors.{SensorSdk}
use wemo_matter_bridge.Demo.Class.{DemoSdk, JsonLibrary}
use wemo_matter_bridge.Demo.State.{Demo, on_light, update_light}
use wemo_matter_bridge.Demo.Keys.{bump_version}

abbrev pub k_name : Text
k_name = codes "Name"

module _ ⦃j : JsonLibrary⦄ where
  -- `BridgeAppCommandHandler::FromJSON`: the value that the handler holds, or null.
  unfoldable pub from_json : Text → Option j.Value
  from_json json = elim (j.parse json) [
    | none ↦ none
    | some value ↦
        if j.is_empty value || not (j.is_object value)
        then none
        else if not (j.is_member value k_name) || not (j.is_string (j.get value k_name))
        then none
        else some value
  ]

  -- `BridgeCommandDelegate::OnEventCommandReceived`: the handlers whose work is scheduled, oldest
  -- first.
  unfoldable pub on_event_command_received : Text → List j.Value → List j.Value
  unfolding from_json
  on_event_command_received json scheduled = elim (from_json json) [
    | none ↦ scheduled
    | some handler ↦ scheduled ++ handler ∷ []
  ]

-- `VerifyOrDie` ends the process; `faulted` is a dangling pointer.
pub data Handled (A : Type 0) : Type 0 where
  handled : A → Handled A
  died faulted : Handled A

module _ ⦃c : Sdk⦄ ⦃d : SensorSdk⦄ ⦃m : DemoSdk⦄ ⦃j : JsonLibrary⦄ where
  abbrev pub or_faulted : Option Demo → Handled Demo
  or_faulted none = faulted
  or_faulted (some s) = handled s

  -- `BridgeAppCommandHandler::HandleCommand`.
  unfoldable pub handle_command : j.Value → Demo → Handled Demo
  unfolding update_light
  handle_command value s =
      let name = j.as_string (j.get value k_name) in
      if j.is_empty value
      then handled s
      else if text_eq name (codes "SimulateConfigurationVersionChange")
      then or_faulted (on_light s.light1 bump_version s)
      else died

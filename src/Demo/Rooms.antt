-- ===== src/Demo/Rooms.antt =====
-- The rooms and actions of matter-bridge-app/main.cpp: `runOnOffRoomAction`, and the lists for the
-- Actions cluster.
use wemo_matter_bridge.Prelude.{ℕ, Bool, List, [], ◌∷◌, ◌++◌, if◌then◌else◌, Text, text_eq}
use wemo_matter_bridge.Device.Class.{Sdk, Report}
use wemo_matter_bridge.Device.Dimmable.{DeviceOnOff}
use wemo_matter_bridge.Device.Sensors.{SensorSdk}
use wemo_matter_bridge.Demo.Class.{DemoSdk}
use wemo_matter_bridge.Demo.State.{Demo, change_on_off}
use wemo_matter_bridge.Demo.Keys.{reporting}

pub data ActionState : Type 0 where
  active inactive : ActionState

-- A `StateChanged` event of the Actions cluster, with its endpoint.
pub record StateChanged : Type 0 where
  pub endpoint : ℕ
  pub action_id : ℕ
  pub invoke_id : ℕ
  pub state : ActionState

module _ ⦃c : Sdk⦄ ⦃d : SensorSdk⦄ ⦃m : DemoSdk⦄ where
  -- `if (room->getName().compare(light.GetLocation()) == 0) light.SetOnOff(actionOn)`.
  abbrev pub switch_in : Text → Bool → DeviceOnOff → DeviceOnOff × List Report
  switch_in room on l =
      if text_eq room (m.get_location l.object)
      then change_on_off (c.set_on_off on) (c.set_on_off_announces on) l
      else (l, [])

  -- The events that are logged, and the lights of the room switched.
  unfoldable pub run_on_off_room_action :
      m.Room → Bool → ℕ → ℕ → ℕ → Bool → Demo → List StateChanged × Demo
  run_on_off_room_action room on endpoint action_id invoke_id has_invoke_id s =
      let name = m.room_name room in
      let (l₁, r₁) = switch_in name on s.action_light1 in
      let (l₂, r₂) = switch_in name on s.action_light2 in
      let (l₃, r₃) = switch_in name on s.action_light3 in
      let (l₄, r₄) = switch_in name on s.action_light4 in
      let event = λ (x : ActionState).
        let e : StateChanged = record {
          endpoint = endpoint;
          action_id = action_id;
          invoke_id = invoke_id;
          state = x;
        } in
        e in
      (
        if has_invoke_id then event active ∷ event inactive ∷ [] else [],
        reporting (r₁ ++ (r₂ ++ (r₃ ++ r₄))) (record s {
          action_light1 = l₁;
          action_light2 = l₂;
          action_light3 = l₃;
          action_light4 = l₄;
        }),
      )

  -- `GetEndpointListInfo`, `GetActionListInfo` and `GetRoomListInfo`, which list nothing for any
  -- parent.
  unfoldable pub get_endpoint_list_info : ℕ → List m.EndpointListInfo
  get_endpoint_list_info parent_id = []

  unfoldable pub get_action_list_info : ℕ → List m.Action
  get_action_list_info parent_id = []

  unfoldable pub get_room_list_info : ℕ → List m.Room
  get_room_list_info parent_id = []

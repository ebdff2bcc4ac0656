-- ===== src/Demo/Keys.antt =====
-- `bridge_polling_thread` of matter-bridge-app/main.cpp: what each key does. No code starts the
-- thread.
use wemo_matter_bridge.Prelude.{
  ℕ, ◌+◌, ◌%◌, Bool, true, false, not, ◌&&◌, List, ◌++◌, map, Option, some, ◌==◌, if◌then◌else◌,
  Text, codes, add_nat, as_int16,
}
use wemo_matter_bridge.Device.Class.{Sdk, Report}
use wemo_matter_bridge.Device.Dimmable.{DeviceOnOff}
use wemo_matter_bridge.Device.Light.{Light, base}
use wemo_matter_bridge.Device.Light
use wemo_matter_bridge.Device.Sensors.{SensorSdk}
use wemo_matter_bridge.Bridge.State.{reported}
use wemo_matter_bridge.Bridge.Endpoints.{add_device_endpoint, remove_device_endpoint}
use wemo_matter_bridge.Demo.Class.{DemoSdk}
use wemo_matter_bridge.Demo.State.{
  ◌>>=◌, Demo, change_light, change_on_off, update_light, with_bridge, on_light,
}

abbrev one_degree : ℕ
one_degree = 100

module _ ⦃c : Sdk⦄ ⦃d : SensorSdk⦄ ⦃m : DemoSdk⦄ where
  -- The step of a key, or no step.
  abbrev pub when : Bool → (Demo → Option Demo) → Demo → Option Demo
  when test step s = if test then step s else some s

  -- `AddDeviceEndpoint(&light, ..., 1)`, whose result is dropped.
  abbrev pub add_light : ℕ → ℕ → Demo → Option Demo
  add_light fuel dev s = do r ← add_device_endpoint fuel dev 1 s.bridge; some (with_bridge s r.1)

  unfoldable pub add_or_remove : ℕ → ℕ → Demo → Option Demo
  unfolding add_device_endpoint remove_device_endpoint
  add_or_remove fuel ch s =
      if (ch == b'2') && not s.light2_added
      then (do s' ← add_light fuel s.light2 s; some (record s' { light2_added = true }))
      else if (ch == b'4') && s.light1_added
      then some
          (record s { bridge = (remove_device_endpoint s.light1 s.bridge).1; light1_added = false })
      else some s

  -- The build without endpoint unique ids adds `Light2` here.
  unfoldable pub add_back : Bool → ℕ → ℕ → Demo → Option Demo
  unfolding add_device_endpoint
  add_back unique_ids fuel ch s =
      when ((ch == b'5') && not s.light1_added)
        (λ t. do
          t' ← add_light fuel (if unique_ids then t.light1 else t.light2) t
          some (record t' { light1_added = true }))
        s

  unfoldable pub rename : ℕ → Demo → Option Demo
  unfolding update_light Light.set_name
  rename ch s =
      when (ch == b'b')
        (λ t. do
          t' ← when t.light1_added (on_light t.light1 (Light.set_name (codes "Light 1b"))) t
          when t'.light2_added (on_light t'.light2 (Light.set_name (codes "Light 2b"))) t')
        s

  unfoldable pub toggle_lights : ℕ → Demo → Option Demo
  unfolding update_light
  toggle_lights ch s =
      let toggle = change_light m.toggle m.toggle_announces in
      when (ch == b'c')
        (λ t. do
          t' ← when t.light1_added (on_light t.light1 toggle) t
          when t'.light2_added (on_light t'.light2 toggle) t')
        s

  abbrev warmer : d.Sensor → d.Sensor
  warmer t = d.set_measured_value (as_int16 (add_nat (d.get_measured_value t) one_degree)) t

  unfoldable pub warm : ℕ → Demo → Option Demo
  warm ch s =
      when (ch == b't')
        (λ t. some (record t {
          temp_sensor1 = warmer t.temp_sensor1;
          temp_sensor2 = warmer t.temp_sensor2;
          composed_temp_sensor1 = warmer t.composed_temp_sensor1;
          composed_temp_sensor2 = warmer t.composed_temp_sensor2;
        }))
        s

  abbrev set_location : Text → DeviceOnOff → DeviceOnOff × List Report
  set_location t = change_on_off (m.set_location t) (m.set_location_announces t)

  -- What a change reports.
  abbrev pub reporting : List Report → Demo → Demo
  reporting rs s =
      with_bridge s (record (s.bridge) { effects = s.bridge.effects ++ map reported rs })

  -- The keys of the actions test plan: at most one of them is `ch`.
  unfoldable pub change_rooms : ℕ → Demo → Option Demo
  change_rooms ch s =
      if ch == b'r'
      then (let room = m.set_room_name (codes "Room 1 renamed") s.room1 in
          let (light1, reports1) = set_location (m.room_name room) s.action_light1 in
          let (light2, reports2) = set_location (m.room_name room) s.action_light2 in
          some (
            reporting (reports1 ++ reports2)
              (record s { room1 = room; action_light1 = light1; action_light2 = light2 })))
      else if ch == b'f'
      then (let (light3, reports) = set_location (m.room_name s.room1) s.action_light3 in
          some (reporting reports (record s { action_light3 = light3 })))
      else if ch == b'i'
      then some (record s { room2 = m.set_room_visible false s.room2 })
      else if ch == b'l'
      then (let (light2, reports) =
            change_on_off (m.set_zone (codes "Zone 3")) (m.set_zone_announces (codes "Zone 3"))
              s.action_light2 in
          some (
            reporting reports
              (record s { room3 = m.set_room_visible true s.room3; action_light2 = light2 })))
      else if ch == b'm'
      then some (record s { action1 = m.set_action_name (codes "Turn On Room 1") s.action1 })
      else if ch == b'n'
      then some (record s { action2 = m.set_action_visible false s.action2 })
      else if ch == b'o'
      then some (record s { action3 = m.set_action_visible true s.action3 })
      else some s

  unfoldable pub change_reachable : ℕ → Demo → Option Demo
  change_reachable ch s =
      if ch == b'u'
      then some (record s { temp_sensor1 = d.set_reachable false s.temp_sensor1 })
      else if ch == b'v'
      then some (record s { temp_sensor1 = d.set_reachable true s.temp_sensor1 })
      else some s

  -- `Light1.SetConfigurationVersion(Light1.GetConfigurationVersion() + 1)` on uint32_t.
  abbrev pub next_version : c.Object → ℕ
  next_version o = (c.get_configuration_version o + 1) % 4294967296

  abbrev pub bump_version : Light → Light × List Report
  bump_version l =
      let v = next_version (base l).object in
      change_light (m.set_configuration_version v) (m.set_configuration_version_announces v) l

  -- One round of the loop, for the key that was pressed.
  unfoldable pub handle_key : Bool → ℕ → ℕ → Demo → Option Demo
  unfolding add_or_remove add_back rename toggle_lights warm change_rooms change_reachable
      update_light
  handle_key unique_ids fuel ch s = do
    s₁ ← add_or_remove fuel ch s
    s₂ ← add_back unique_ids fuel ch s₁
    s₃ ← rename ch s₂
    s₄ ← toggle_lights ch s₃
    s₅ ← warm ch s₄
    s₆ ← change_rooms ch s₅
    s₇ ← change_reachable ch s₆
    when (ch == b'w') (on_light s₇.light1 bump_version) s₇

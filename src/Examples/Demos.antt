-- ===== src/Examples/Demos.antt =====
-- The theorems about reads, faults, endpoints and the demo devices, at the house with the demo lights.
use wemo_matter_bridge.Prelude.{
  ℕ, ◌+◌, ◌%◌, ◌≡◌, ◌≢◌, ◌↔◌, ◌⊎◌, refl, pos, true, [], ◌∷◌, ◌++◌, Option, none, some, arith, codes,
  get_elem?, All-replicate, replicate, ◌==◌, ◌||◌, if◌then◌else◌,
}
use wemo_matter_bridge.Adapter.Types.{WemoStateEvent}
use wemo_matter_bridge.Device.Light.{base, on_off_light}
use wemo_matter_bridge.Bridge.State.{Bridge}
use wemo_matter_bridge.Bridge.Write.{
  success, OnOffAttribute, LevelControlAttribute, on_off_path, level_control_path,
  external_attribute_write,
}
use wemo_matter_bridge.Bridge.Read.{external_attribute_read}
use wemo_matter_bridge.Bridge.Event.{handle_wemo_event_on_matter_thread}
use wemo_matter_bridge.Bridge.Sensors.{
  TempMeasurementAttribute, PowerSourceAttribute, no_error, handle_read_temp_measurement_attribute,
  power_source_read,
}
use wemo_matter_bridge.Bridge.Buffer.{FitsBuffer, read-FitsBuffer}
use wemo_matter_bridge.Bridge.Faults.{Faults, external_write-Faults}
use wemo_matter_bridge.Bridge.Endpoints.{add_device_endpoint, remove_device_endpoint}
use wemo_matter_bridge.Bridge.Static.{remove-add}
use wemo_matter_bridge.Demo.State.{Demo, with_bridge}
use wemo_matter_bridge.Demo.Keys.{handle_key, bump_version}
use wemo_matter_bridge.Demo.Commands.{on_event_command_received, handled, died, handle_command}
use wemo_matter_bridge.Demo.Outcome.{bumped, command_outcome}
use wemo_matter_bridge.Demo.Safe.{IsSafe}
use wemo_matter_bridge.Bridge.Startup.{application_init, publish}
use wemo_matter_bridge.Demo.System.{here, after, key}
use wemo_matter_bridge.Demo.Started.{started-IsSafe}
use wemo_matter_bridge.Demo.Apart.{press, keys_keep_published}
use wemo_matter_bridge.Examples.World.{demo_sdk}
use wemo_matter_bridge.Examples.Devices.{lamp_device}
use wemo_matter_bridge.Examples.House.{
  demo_sensors, demo_parts, demo_json, demo_light, home, demo_home, home-IsSafe,
}

read-FitsBuffer_example :
    FitsBuffer 1 (success, 0 ∷ [])
    × FitsBuffer 1
        (handle_read_temp_measurement_attribute (pos 100) TempMeasurementAttribute.measured_value 1)
unfolding external_attribute_read
read-FitsBuffer_example =
    read-FitsBuffer 3 1 (on_off_path OnOffAttribute.on_off) home (pos 100)
      TempMeasurementAttribute.measured_value refl

external_write-Faults_example :
    (external_attribute_write 3
        (level_control_path LevelControlAttribute.current_level)
        (20 ∷ [])
        1000
        1001
        home
      ≡ none)
    ↔ Faults 3 (level_control_path LevelControlAttribute.current_level) home
external_write-Faults_example =
    external_write-Faults 3 (level_control_path LevelControlAttribute.current_level) (20 ∷ []) 1000
      1001 home home-IsSafe.well_formed

abbrev added : Bridge
unfolding add_device_endpoint
added = elim (add_device_endpoint 2 1 1 home) as (λ _. Bridge) [ none ↦ home | some r ↦ r.1 ]

remove-add_example :
    ((remove_device_endpoint 1 added).0 ≡ some 1)
    × ((remove_device_endpoint 1 added).1.devices ≡ home.devices)
unfolding added add_device_endpoint
remove-add_example =
    remove-add 2 1 1 1 home added refl
      ((λ e. cc), All-replicate (λ (o : Option ℕ). o ≢ some 1) 16 none (λ e. cc)) refl

abbrev or_home : Option Demo → Demo
or_home none = demo_home
or_home (some s) = s

-- Light 2 is added, and then the lights are toggled.
abbrev pressed : Demo
unfolding press
pressed = or_home (press true 2 (b'2' ∷ b'c' ∷ []) demo_home)

abbrev lamp_event : WemoStateEvent
lamp_event = record { wemo_id = pos 7; is_online = true; state = pos 1; level = pos 50 }

-- Before the start-up: the demo lights only.
abbrev fresh_demo : Demo
fresh_demo = record demo_home {
  bridge = record home {
    heap = λ a. if a == 1 || a == 2 then some (on_off_light demo_light) else none;
    endpoints = [];
    lights = [];
    device_to_udn = [];
    devices = replicate 17 none;
  };
}

abbrev or_bridge : Option Bridge → Bridge
or_bridge none = home
or_bridge (some b) = b

abbrev started : Bridge
unfolding application_init
started = or_bridge (application_init 2 2 (lamp_device ∷ []) fresh_demo.bridge)

abbrev with_light2 : Demo
unfolding handle_key
with_light2 = or_home (handle_key true 2 b'2' (with_bridge fresh_demo started))

started-IsSafe_example :
    IsSafe with_light2.bridge with_light2.light1 with_light2.light2
    × ((b : Bridge) × (handle_wemo_event_on_matter_thread lamp_event 10 with_light2.bridge
          ≡ some b))
    × (power_source_read (λ p. none) 3 PowerSourceAttribute.status with_light2.bridge
        ≡ some (no_error none))
unfolding started with_light2 handle_key application_init publish
started-IsSafe_example =
    started-IsSafe 2 2 (lamp_device ∷ []) fresh_demo with_light2 started lamp_event 10 3 (λ p. none)
      PowerSourceAttribute.status
      (record {
        no_lights = refl;
        live1 = tt;
        live2 = tt;
        below1 = omega arith;
        below2 = omega arith;
      })
      refl (after (key true 2 b'2' refl) here)

keys_keep_published_example :
    (pressed.bridge.lights ≡ home.lights)
    × (pressed.bridge.device_to_udn ≡ home.device_to_udn)
    × (pressed.light1 ≡ 1)
    × (pressed.light2 ≡ 2)
    × (get_elem? pressed.bridge.devices 0 ≡ some (some 0))
    × (pressed.bridge.heap 0 ≡ home.heap 0)
unfolding pressed press
keys_keep_published_example =
    keys_keep_published true 2 (b'2' ∷ b'c' ∷ []) demo_home pressed 0 0 (λ e. omega (arith, e))
      (λ e. omega (arith, e)) refl refl

command_outcome_example :
    let json = codes "Restart" in
    (on_event_command_received json [] ≡ [] ++ json ∷ [])
    × (((json ≡ codes "SimulateConfigurationVersionChange")
          × (handle_command json demo_home ≡ handled (bumped demo_home (on_off_light demo_light)))
          × (demo_sdk.get_configuration_version
                (base (bump_version (on_off_light demo_light)).0).object
              ≡ (◌+◌ 7 1) % 4294967296))
        ⊎ ((json ≢ codes "SimulateConfigurationVersionChange")
            × (handle_command json demo_home ≡ died)))
command_outcome_example =
    command_outcome (codes "Restart") [] (codes "Restart") demo_home refl refl refl refl refl refl

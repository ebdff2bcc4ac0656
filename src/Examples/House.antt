-- ===== src/Examples/House.antt =====
-- Stand-ins for the sensors, the demo devices and the JSON library, and a house with one published
-- lamp and the two demo lights.
use wemo_matter_bridge.Prelude.{
  ℕ, refl, ℤ, pos, true, false, not, [], ◌∷◌, none, some, arith, replicate, codes, ◌==◌,
  if◌then◌else◌, Text, All-replicate,
}
use wemo_matter_bridge.Device.Class.{own_callback, k_changed_on_off}
use wemo_matter_bridge.Device.Dimmable.{DeviceOnOff, unset}
use wemo_matter_bridge.Device.Light.{on_off_light, dimmable_light}
use wemo_matter_bridge.Device.Sensors.{SensorSdk}
use wemo_matter_bridge.Bridge.State.{Bridge}
use wemo_matter_bridge.Bridge.WellFormed.{SlotOk}
use wemo_matter_bridge.Demo.Class.{DemoSdk, JsonLibrary}
use wemo_matter_bridge.Demo.State.{Demo}
use wemo_matter_bridge.Demo.Safe.{IsSafe}
use wemo_matter_bridge.Examples.World.{demo_sdk}
use wemo_matter_bridge.Examples.Lights.{lamp, entry}

-- A sensor is its value, and a power source its endpoint.
instance abbrev pub demo_sensors : SensorSdk
demo_sensors = record {
  Sensor = ℤ;
  get_measured_value = λ t. t;
  set_measured_value = λ v t. v;
  set_reachable = λ b t. t;
  min = λ t. pos 0;
  max = λ t. pos 32766;
  PowerSource = ℕ;
  get_endpoint_id = λ p. p;
  get_bat_charge_level = λ p. 0;
  get_order = λ p. 0;
  get_status = λ p. 1;
  get_description = λ p. [];
  get_endpoint_list = λ p. p ∷ [];
  get_feature_map = λ p. 2;
}

-- Rooms and actions are their names.
instance abbrev pub demo_parts : DemoSdk
demo_parts = record {
  toggle = λ o. record o { on = not o.on };
  toggle_announces = λ o. own_callback k_changed_on_off ∷ [];
  set_configuration_version = λ v o. record o { version = v };
  set_configuration_version_announces = λ v o. [];
  get_location = λ o. codes "Room 1";
  set_location = λ t o. o;
  set_location_announces = λ t o. [];
  set_zone = λ t o. o;
  set_zone_announces = λ t o. [];
  Room = Text;
  room_name = λ r. r;
  set_room_name = λ t r. t;
  set_room_visible = λ b r. r;
  Action = Text;
  EndpointListInfo = ℕ;
  set_action_name = λ t a. t;
  set_action_visible = λ b a. a;
  version-set_configuration_version = λ v o. refl;
}

-- Every text parses to an object whose `Name` is the text.
instance abbrev pub demo_json : JsonLibrary
demo_json = record {
  Value = Text;
  parse = λ t. some t;
  is_empty = λ v. false;
  is_object = λ v. true;
  is_member = λ v k. true;
  get = λ v k. v;
  is_string = λ v. true;
  as_string = λ v. v;
}

abbrev pub demo_light : DeviceOnOff
demo_light = record {
  object = record {
    on = false;
    reachable = true;
    name = codes "Light 1";
    unique_id = [];
    endpoint = 0;
    version = 7;
  };
  changed_cb = unset;
}

-- The lamp at address 0, behind the first slot, and the demo lights at 1 and 2.
abbrev pub home : Bridge
home = record {
  heap = λ a.
      if a == 0
      then some (dimmable_light lamp)
      else if a == 1
      then some (on_off_light demo_light)
      else if a == 2
      then some (on_off_light demo_light)
      else none;
  next_address = 3;
  endpoints = 3 ∷ [];
  lights = entry ∷ [];
  device_to_udn = (0, codes "uuid:1") ∷ [];
  devices = some 0 ∷ replicate 16 none;
  current_endpoint_id = 3;
  first_dynamic_endpoint_id = 3;
  effects = [];
}

abbrev pub demo_home : Demo
demo_home = record {
  bridge = home;
  light1 = 1;
  light2 = 2;
  light1_added = true;
  light2_added = false;
  temp_sensor1 = pos 100;
  temp_sensor2 = pos 100;
  composed_temp_sensor1 = pos 100;
  composed_temp_sensor2 = pos 100;
  action_light1 = demo_light;
  action_light2 = demo_light;
  action_light3 = demo_light;
  action_light4 = demo_light;
  room1 = codes "Room 1";
  room2 = codes "Room 2";
  room3 = codes "Zone 3";
  action1 = codes "Turn on";
  action2 = codes "Turn on";
  action3 = codes "Turn off";
}

pub home-IsSafe : IsSafe home 1 2
home-IsSafe = record {
  well_formed = record {
    entries = ((refl, omega arith, refl), tt);
    distinct = (tt, tt);
    slots = ((tt, omega arith), All-replicate (SlotOk home) 16 none tt);
    capacity = omega arith;
    size = refl;
  };
  live1 = tt;
  live2 = tt;
  below1 = omega arith;
  below2 = omega arith;
  no_power_source = refl;
}

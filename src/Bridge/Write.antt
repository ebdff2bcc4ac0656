-- ===== src/Bridge/Write.antt =====
-- The attribute write handlers of matter-bridge-app/main.cpp.
use wemo_matter_bridge.Prelude.{
  ℕ, Bool, true, false, not, ◌&&◌, List, [], ◌∷◌, ◌++◌, map, Option, none, some, ◌==◌, leb,
  if◌then◌else◌, c_str, find_first, update_first, get_elem?, ltb, length,
}
use wemo_matter_bridge.Level.{wemo_percent_of_level}
use wemo_matter_bridge.Device.Class.{Sdk, k_changed_name}
use wemo_matter_bridge.Device.Dimmable.{DeviceDimmable, set_level, handle_device_status_changed}
use wemo_matter_bridge.Device.Light.{
  Light, on_off_light, dimmable_light, is_reachable, endpoint_of, with_object, base,
}
use wemo_matter_bridge.Device.Light
use wemo_matter_bridge.Bridge.State.{
  Bridge, BridgedWemoLight, reported, started, Command, store, find_udn, owns, expire_on_off,
  command_on_off, command_level,
}

pub data Status : Type 0 where
  success failure unsupported_write constraint_error : Status

pub data OnOffAttribute : Type 0 where
  on_off cluster_revision other : OnOffAttribute

pub data LevelControlAttribute : Type 0 where
  current_level min_level max_level cluster_revision feature_map other : LevelControlAttribute

abbrev pub is_on_off : OnOffAttribute → Bool
is_on_off OnOffAttribute.on_off = true
is_on_off _ = false

abbrev pub is_current_level : LevelControlAttribute → Bool
is_current_level LevelControlAttribute.current_level = true
is_current_level _ = false

module _ ⦃c : Sdk⦄ where
  -- The adapter thread and the commanded value of an on/off write, if the device has a udn.
  unfoldable pub dispatch_on_off : ℕ → Bool → ℕ → Bridge → Bridge
  unfolding command_on_off
  dispatch_on_off dev target now s = elim (find_udn dev s.device_to_udn) [
    | none ↦ s
    | some udn ↦ record s {
      lights = update_first (owns dev) (command_on_off target now) s.lights;
      effects = s.effects ++ started (Command.set_on_off udn target) ∷ [];
    }
  ]

  -- `HandleWriteOnOffAttribute`, with the byte of the buffer and the time of `now()`. `none` is a
  -- dereference of a dangling pointer.
  unfoldable pub handle_write_on_off_attribute :
      ℕ → OnOffAttribute → ℕ → ℕ → Bridge → Option (Status × Bridge)
  unfolding dispatch_on_off Light.set_on_off
  handle_write_on_off_attribute dev attribute byte now s = elim (s.heap dev) [
    | none ↦ none
    | some light ↦
        if is_on_off attribute && is_reachable light
        then (let target = not (byte == 0) in
            let (light', reports) = Light.set_on_off target light in
            let s' = record s {
              heap = store s.heap dev (some light');
              effects = s.effects ++ map reported reports;
            } in
            some (success, dispatch_on_off dev target now s'))
        else some (failure, s)
  ]

  -- Whether a level write is dropped: during the settle window of an on/off command, and, outside
  -- it, a level of at most 1. The entry is the matched one after `expire_on_off`.
  unfoldable pub ignores_level : ℕ → ℕ → BridgedWemoLight → Bool
  ignores_level level now e = elim e.commanded_on_off [
    | some b ↦ leb now e.commanded_on_off_until
    | none ↦ leb level 1
  ]

  unfoldable pub matched_ignores : ℕ → ℕ → Option BridgedWemoLight → Bool
  unfolding ignores_level expire_on_off
  matched_ignores level now none = false
  matched_ignores level now (some e) = ignores_level level now (expire_on_off now e)

  unfoldable pub dispatch_level : ℕ → ℕ → ℕ → Bridge → Bridge
  unfolding command_level wemo_percent_of_level
  dispatch_level dev level now s = elim (find_udn dev s.device_to_udn) [
    | none ↦ s
    | some udn ↦ record s {
      lights = update_first (owns dev) (command_level level now) s.lights;
      effects =
          s.effects ++ started (Command.set_level_percent udn (wemo_percent_of_level level)) ∷ [];
    }
  ]

  -- `HandleWriteLevelControlAttribute` on a dimmable light, with the times of its two calls of
  -- `now()`: at its start, and when the command is recorded.
  unfoldable pub write_level : ℕ → DeviceDimmable → ℕ → ℕ → ℕ → Bridge → Bridge
  unfolding matched_ignores expire_on_off dispatch_level set_level
  write_level dev d level now later s =
      let ignored = matched_ignores level now (find_first (owns dev) s.lights) in
      let s₁ = record s { lights = update_first (owns dev) (expire_on_off now) s.lights } in
      let (d', reports) = set_level level d in
      let s₂ = record s₁ {
        heap = store s.heap dev (some (dimmable_light d'));
        effects = s.effects ++ map reported reports;
      } in
      if ignored then s₁ else dispatch_level dev level later s₂

  -- `none` is a dangling pointer, or a light that is no `DeviceDimmable`.
  unfoldable pub handle_write_level_control_attribute :
      ℕ → LevelControlAttribute → ℕ → ℕ → ℕ → Bridge → Option (Status × Bridge)
  unfolding write_level
  handle_write_level_control_attribute dev attribute level now later s = elim (s.heap dev) [
    | none ↦ none
    | some (on_off_light d) ↦ none
    | some (dimmable_light d) ↦
        if is_current_level attribute && is_reachable (dimmable_light d)
        then some (success, write_level dev d level now later s)
        else some (failure, s)
  ]

abbrev pub k_node_label_size : ℕ
k_node_label_size = 32

pub data BasicAttribute : Type 0 where
  reachable node_label unique_id configuration_version cluster_revision feature_map : BasicAttribute
  other : BasicAttribute

abbrev pub is_node_label : BasicAttribute → Bool
is_node_label BasicAttribute.node_label = true
is_node_label _ = false

module _ ⦃c : Sdk⦄ where
  -- `HandleWriteBridgedDeviceBasicAttribute`.
  unfoldable pub handle_write_bridged_device_basic_attribute :
      ℕ → BasicAttribute → List ℕ → Bridge → Option (Status × Bridge)
  unfolding c_str Light.set_name handle_device_status_changed
  handle_write_bridged_device_basic_attribute dev attribute buffer s =
      let name_span = c.from_zcl_string buffer in
      if not (is_node_label attribute)
      then some (unsupported_write, s)
      else if ltb k_node_label_size (length name_span)
      then some (constraint_error, s)
      else (elim (s.heap dev) [
        | none ↦ none
        | some light ↦
            let (light', reports) = Light.set_name (c_str name_span) light in
            some (
              success,
              record s {
                heap = store s.heap dev (some light');
                effects =
                    s.effects
                    ++ (map reported reports
                        ++ map reported
                            (handle_device_status_changed (endpoint_of light') k_changed_name));
              },
            )
      ])

-- A cluster and an attribute of it. The clusters that the handlers do not serve are one case.
pub data AttributePath : Type 0 where
  on_off_path : OnOffAttribute → AttributePath
  level_control_path : LevelControlAttribute → AttributePath
  bridged_basic_path : BasicAttribute → AttributePath
  temperature_path : AttributePath
  other_path : AttributePath

abbrev pub first_byte : List ℕ → ℕ
first_byte [] = 0
first_byte (b ∷ bs) = b

abbrev pub k_dynamic_endpoint_count : ℕ
k_dynamic_endpoint_count = 16

module _ ⦃c : Sdk⦄ where
  -- The dispatch on the cluster, for the light behind the slot of the endpoint.
  unfoldable pub write_light :
      ℕ → AttributePath → List ℕ → ℕ → ℕ → Bridge → Option (Status × Bridge)
  unfolding handle_write_on_off_attribute handle_write_level_control_attribute
      handle_write_bridged_device_basic_attribute
  write_light dev (on_off_path a) buffer now later s =
      handle_write_on_off_attribute dev a (first_byte buffer) now s
  write_light dev (level_control_path a) buffer now later s =
      handle_write_level_control_attribute dev a (first_byte buffer) now later s
  write_light dev (bridged_basic_path a) buffer now later s =
      handle_write_bridged_device_basic_attribute dev a buffer s
  write_light dev temperature_path buffer now later s = some (failure, s)
  write_light dev other_path buffer now later s = some (failure, s)

  -- `emberAfExternalAttributeWriteCallback`, with the times of the calls of `now()`. `none` is an
  -- access through a null or dangling pointer, or past the array; the pointer is read before it is
  -- known that a cluster is served.
  unfoldable pub external_attribute_write :
      ℕ → AttributePath → List ℕ → ℕ → ℕ → Bridge → Option (Status × Bridge)
  unfolding write_light
  external_attribute_write endpoint path buffer now later s =
      let index = c.dynamic_index s.endpoints endpoint in
      if ltb index k_dynamic_endpoint_count
      then (elim (get_elem? s.devices index) [
        | none ↦ none
        | some none ↦ none
        | some (some dev) ↦ elim (s.heap dev) [
          | none ↦ none
          | some light ↦
              if is_reachable light
              then write_light dev path buffer now later s
              else some (failure, s)
        ]
      ])
      else some (failure, s)

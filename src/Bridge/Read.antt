-- ===== src/Bridge/Read.antt =====
-- The attribute read handlers of matter-bridge-app/main.cpp. A read returns its status and the bytes
-- that it writes at the start of the buffer; integers are little-endian, as on the target.
use wemo_matter_bridge.Prelude.{
  ℕ, ◌/◌, ◌%◌, Bool, true, false, List, [], ◌∷◌, Option, none, some, ◌==◌, ltb, if◌then◌else◌,
  get_elem?,
}
use wemo_matter_bridge.Device.Class.{Sdk}
use wemo_matter_bridge.Device.Dimmable.{DeviceDimmable, get_level}
use wemo_matter_bridge.Device.Light.{Light, on_off_light, dimmable_light, is_on, base}
use wemo_matter_bridge.Bridge.State.{Bridge}
use wemo_matter_bridge.Bridge.Write.{
  Status, success, failure, OnOffAttribute, LevelControlAttribute, BasicAttribute, AttributePath,
  on_off_path, level_control_path, bridged_basic_path, temperature_path, other_path,
  k_dynamic_endpoint_count,
}

-- `memcpy` of a uint16_t and of a uint32_t.
abbrev pub bytes16 : ℕ → List ℕ
bytes16 n = n % 256 ∷ n / 256 % 256 ∷ []

abbrev pub bytes32 : ℕ → List ℕ
bytes32 n = n % 256 ∷ n / 256 % 256 ∷ n / 65536 % 256 ∷ n / 16777216 % 256 ∷ []

abbrev pub flag_byte : Bool → ℕ
flag_byte true = 1
flag_byte false = 0

-- The branch of a readable attribute, taken if the length that is asked for is the attribute's.
abbrev pub reply : Bool → List ℕ → Status × List ℕ
reply true bytes = (success, bytes)
reply false bytes = (failure, [])

abbrev pub k_unique_id_size : ℕ
k_unique_id_size = 32

module _ ⦃c : Sdk⦄ where
  unfoldable pub handle_read_bridged_device_basic_attribute :
      c.Object → BasicAttribute → ℕ → Status × List ℕ
  handle_read_bridged_device_basic_attribute o BasicAttribute.reachable n =
      reply (n == 1) (flag_byte (c.is_reachable o) ∷ [])
  handle_read_bridged_device_basic_attribute o BasicAttribute.node_label n =
      reply (n == 32) (c.make_zcl_char_string n (c.get_name o))
  handle_read_bridged_device_basic_attribute o BasicAttribute.unique_id n =
      reply (n == 32) (c.make_zcl_char_string n (c.get_unique_id o))
  handle_read_bridged_device_basic_attribute o BasicAttribute.configuration_version n =
      reply (n == 4) (bytes32 (c.get_configuration_version o))
  handle_read_bridged_device_basic_attribute o BasicAttribute.cluster_revision n =
      reply (n == 2) (bytes16 2)
  handle_read_bridged_device_basic_attribute o BasicAttribute.feature_map n =
      reply (n == 4) (bytes32 0)
  handle_read_bridged_device_basic_attribute o BasicAttribute.other n = (failure, [])

  unfoldable pub handle_read_on_off_attribute : Light → OnOffAttribute → ℕ → Status × List ℕ
  handle_read_on_off_attribute l OnOffAttribute.on_off n = reply (n == 1) (flag_byte (is_on l) ∷ [])
  handle_read_on_off_attribute l OnOffAttribute.cluster_revision n = reply (n == 2) (bytes16 4)
  handle_read_on_off_attribute l OnOffAttribute.other n = (failure, [])

  unfoldable pub handle_read_level_control_attribute :
      DeviceDimmable → LevelControlAttribute → ℕ → Status × List ℕ
  unfolding get_level
  handle_read_level_control_attribute d LevelControlAttribute.current_level n =
      reply (n == 1) (get_level d ∷ [])
  handle_read_level_control_attribute d LevelControlAttribute.min_level n = reply (n == 1) (1 ∷ [])
  handle_read_level_control_attribute d LevelControlAttribute.max_level n =
      reply (n == 1) (254 ∷ [])
  handle_read_level_control_attribute d LevelControlAttribute.cluster_revision n =
      reply (n == 2) (bytes16 6)
  handle_read_level_control_attribute d LevelControlAttribute.feature_map n =
      reply (n == 4) (bytes32 3)
  handle_read_level_control_attribute d LevelControlAttribute.other n = (failure, [])

  -- The dispatch on the cluster. `none` is a cast to a class that the object does not have: a light
  -- is neither a temperature sensor nor, if it is no dimmer, a `DeviceDimmable`.
  unfoldable pub read_light : Light → AttributePath → ℕ → Option (Status × List ℕ)
  unfolding handle_read_bridged_device_basic_attribute handle_read_on_off_attribute
      handle_read_level_control_attribute
  read_light l (bridged_basic_path a) n =
      some (handle_read_bridged_device_basic_attribute (base l).object a n)
  read_light l (on_off_path a) n = some (handle_read_on_off_attribute l a n)
  read_light (dimmable_light d) (level_control_path a) n =
      some (handle_read_level_control_attribute d a n)
  read_light (on_off_light d) (level_control_path a) n = none
  read_light l temperature_path n = none
  read_light l other_path n = some (failure, [])

  -- `emberAfExternalAttributeReadCallback`. `none` is an access past the array, through a dangling
  -- pointer, or a wrong cast.
  unfoldable pub external_attribute_read : ℕ → AttributePath → ℕ → Bridge → Option (Status × List ℕ)
  unfolding read_light
  external_attribute_read endpoint path max_length s =
      let index = c.dynamic_index s.endpoints endpoint in
      if ltb index k_dynamic_endpoint_count
      then (elim (get_elem? s.devices index) [
        | none ↦ none
        | some none ↦ some (failure, [])
        | some (some dev) ↦ elim (s.heap dev) [
          | none ↦ none
          | some light ↦ read_light light path max_length
        ]
      ])
      else some (failure, [])

-- ===== src/Bridge/Sensors.antt =====
-- The reads of temperature sensors and of the power source in matter-bridge-app/main.cpp.
use wemo_matter_bridge.Prelude.{
  ℕ, Bool, false, not, List, [], Option, none, some, ◌==◌, if◌then◌else◌, as_uint16, get_elem?,
  Text,
}
use wemo_matter_bridge.Device.Class.{Sdk}
use wemo_matter_bridge.Device.Sensors.{SensorSdk}
use wemo_matter_bridge.Bridge.State.{Bridge}
use wemo_matter_bridge.Bridge.Write.{Status, failure, k_dynamic_endpoint_count}
use wemo_matter_bridge.Bridge.Read.{bytes16, bytes32, reply}

pub data TempMeasurementAttribute : Type 0 where
  measured_value min_measured_value max_measured_value : TempMeasurementAttribute
  feature_map cluster_revision other : TempMeasurementAttribute

pub data PowerSourceAttribute : Type 0 where
  bat_charge_level order status description endpoint_list : PowerSourceAttribute
  cluster_revision feature_map bat_replacement_needed bat_replaceability : PowerSourceAttribute
  other : PowerSourceAttribute

-- What `AttributeValueEncoder::Encode` is given.
pub data Encoded : Type 0 where
  number : ℕ → Encoded
  flag : Bool → Encoded
  chars : Text → Encoded
  endpoint_ids : List ℕ → Encoded
  not_replaceable : Encoded

-- What `Read` answers: no error, with the value that was encoded, if there was one.
pub data ReadResult : Type 0 where
  no_error : Option Encoded → ReadResult
  unsupported_endpoint unsupported_attribute : ReadResult

module _ ⦃d : SensorSdk⦄ where
  unfoldable pub handle_read_temp_measurement_attribute :
      d.Sensor → TempMeasurementAttribute → ℕ → Status × List ℕ
  handle_read_temp_measurement_attribute dev measured_value n =
      reply (n == 2) (bytes16 (as_uint16 (d.get_measured_value dev)))
  handle_read_temp_measurement_attribute dev min_measured_value n =
      reply (n == 2) (bytes16 (as_uint16 (d.min dev)))
  handle_read_temp_measurement_attribute dev max_measured_value n =
      reply (n == 2) (bytes16 (as_uint16 (d.max dev)))
  handle_read_temp_measurement_attribute dev TempMeasurementAttribute.feature_map n =
      reply (n == 4) (bytes32 0)
  handle_read_temp_measurement_attribute dev TempMeasurementAttribute.cluster_revision n =
      reply (n == 2) (bytes16 1)
  handle_read_temp_measurement_attribute dev TempMeasurementAttribute.other n = (failure, [])

  unfoldable pub encode_power_source : d.PowerSource → PowerSourceAttribute → ReadResult
  encode_power_source dev bat_charge_level = no_error (some (number (d.get_bat_charge_level dev)))
  encode_power_source dev order = no_error (some (number (d.get_order dev)))
  encode_power_source dev status = no_error (some (number (d.get_status dev)))
  encode_power_source dev description = no_error (some (chars (d.get_description dev)))
  encode_power_source dev endpoint_list = no_error (some (endpoint_ids (d.get_endpoint_list dev)))
  encode_power_source dev PowerSourceAttribute.cluster_revision = no_error (some (number 2))
  encode_power_source dev PowerSourceAttribute.feature_map =
      no_error (some (number (d.get_feature_map dev)))
  encode_power_source dev bat_replacement_needed = no_error (some (flag false))
  encode_power_source dev bat_replaceability = no_error (some not_replaceable)
  encode_power_source dev PowerSourceAttribute.other = unsupported_attribute

module _ ⦃c : Sdk⦄ ⦃d : SensorSdk⦄ where
  -- `BridgedPowerSourceAttrAccess::Read` of an attribute of an endpoint. `power_source` tells which
  -- pointers are those of power sources; `none` is an access past the array or a wrong cast.
  unfoldable pub power_source_read :
      (ℕ → Option d.PowerSource) → ℕ → PowerSourceAttribute → Bridge → Option ReadResult
  unfolding encode_power_source
  power_source_read power_source endpoint attribute s =
      elim (get_elem? s.devices k_dynamic_endpoint_count) [
        | none ↦ none
        | some none ↦ some (no_error none)
        | some (some dev) ↦ elim (power_source dev) [
          | none ↦ none
          | some source ↦
              if not (endpoint == d.get_endpoint_id source)
              then some unsupported_endpoint
              else some (encode_power_source source attribute)
        ]
      ]

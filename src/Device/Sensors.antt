-- ===== src/Device/Sensors.antt =====
-- The SDK's temperature sensors and power sources as a parameter, and the handlers of
-- matter-bridge-app/main.cpp for their changes. No code installs these handlers.
use wemo_matter_bridge.Prelude.{ℕ, ℤ, Bool, ◌||◌, List, [], ◌∷◌, ◌++◌, if◌then◌else◌, Text}
use wemo_matter_bridge.Device.Class.{Changed, no_change, Report, Reported}
use wemo_matter_bridge.Device.Dimmable.{schedule_reporting_callback, handle_device_status_changed}

-- What the bridge uses of `DeviceTempSensor` and `DevicePowerSource`. `min` and `max` are the fields
-- `mMin` and `mMax`; the numbers of a power source are its enumerations and bit maps.
pub record SensorSdk : Type 1 where
  pub Sensor : Type 0
  pub get_measured_value : Sensor → ℤ
  pub set_measured_value : ℤ → Sensor → Sensor
  pub set_reachable : Bool → Sensor → Sensor
  pub min : Sensor → ℤ
  pub max : Sensor → ℤ
  pub PowerSource : Type 0
  pub get_endpoint_id : PowerSource → ℕ
  pub get_bat_charge_level : PowerSource → ℕ
  pub get_order : PowerSource → ℕ
  pub get_status : PowerSource → ℕ
  pub get_description : PowerSource → Text
  pub get_endpoint_list : PowerSource → List ℕ
  pub get_feature_map : PowerSource → ℕ

-- The flags of `DevicePowerSource::Changed_t` and `DeviceTempSensor::Changed_t`.
pub record PowerSourceChanged : Type 0 where
  pub reachable : Bool
  pub location : Bool
  pub name : Bool
  pub bat_level : Bool
  pub description : Bool
  pub endpoint_list : Bool

pub record TempSensorChanged : Type 0 where
  pub reachable : Bool
  pub location : Bool
  pub name : Bool
  pub measurement_value : Bool

-- `MatterReportingAttributeChangeCallback`, called at once.
abbrev report_now : Bool → ℕ → Reported → List Report
report_now changed endpoint a =
    if changed then record { endpoint = endpoint; attribute = a } ∷ [] else []

-- The reports, in their order; those of the device status are scheduled, the others are made at once.
unfoldable pub handle_device_power_source_status_changed : ℕ → PowerSourceChanged → List Report
unfolding handle_device_status_changed
handle_device_power_source_status_changed endpoint mask =
    let device_mask : Changed = record no_change {
      reachable = mask.reachable;
      location = mask.location;
      name = mask.name;
    } in
    (if mask.reachable || mask.name || mask.location
      then handle_device_status_changed endpoint device_mask
      else [])
    ++ (report_now mask.bat_level endpoint Reported.bat_charge_level
        ++ (report_now mask.description endpoint Reported.description
            ++ report_now mask.endpoint_list endpoint Reported.endpoint_list))

unfoldable pub handle_device_temp_sensor_status_changed : ℕ → TempSensorChanged → List Report
unfolding handle_device_status_changed schedule_reporting_callback
handle_device_temp_sensor_status_changed endpoint mask =
    let device_mask : Changed = record no_change {
      reachable = mask.reachable;
      location = mask.location;
      name = mask.name;
    } in
    (if mask.reachable || mask.name || mask.location
      then handle_device_status_changed endpoint device_mask
      else [])
    ++ (if mask.measurement_value
        then schedule_reporting_callback endpoint Reported.measured_value
        else [])

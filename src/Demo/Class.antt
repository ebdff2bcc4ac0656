-- ===== src/Demo/Class.antt =====
-- What the demo devices of matter-bridge-app/main.cpp use of the SDK besides `Sdk` and `SensorSdk`:
-- more of `DeviceOnOff`, the rooms, actions and endpoint lists, and the JSON library.
use wemo_matter_bridge.Prelude.{ℕ, ◌≡◌, Bool, List, Option, Text}
use wemo_matter_bridge.Device.Class.{Sdk, Announcement}

-- The law says that a configuration version is read back as it was set.
pub record DemoSdk ⦃c : Sdk⦄ : Type 1 where
  pub toggle : c.Object → c.Object
  pub toggle_announces : c.Object → List Announcement
  pub set_configuration_version : ℕ → c.Object → c.Object
  pub set_configuration_version_announces : ℕ → c.Object → List Announcement
  pub get_location : c.Object → Text
  pub set_location : Text → c.Object → c.Object
  pub set_location_announces : Text → c.Object → List Announcement
  pub set_zone : Text → c.Object → c.Object
  pub set_zone_announces : Text → c.Object → List Announcement
  pub Room : Type 0
  pub room_name : Room → Text
  pub set_room_name : Text → Room → Room
  pub set_room_visible : Bool → Room → Room
  pub Action : Type 0
  pub set_action_name : Text → Action → Action
  pub set_action_visible : Bool → Action → Action
  pub EndpointListInfo : Type 0
  pub version-set_configuration_version :
      (v : ℕ) (o : c.Object) → c.get_configuration_version (set_configuration_version v o) ≡ v

-- `Json::Reader` and `Json::Value`. `get` is `operator[]`, which gives a null value for a member that
-- is not there.
pub record JsonLibrary : Type 1 where
  pub Value : Type 0
  pub parse : Text → Option Value
  pub is_empty : Value → Bool
  pub is_object : Value → Bool
  pub is_member : Value → Text → Bool
  pub get : Value → Text → Value
  pub is_string : Value → Bool
  pub as_string : Value → Text

-- ===== src/Adapter/Engine.antt =====
-- The openwemo engine's C interface, which is not part of the repository, as a parameter.
use wemo_matter_bridge.Prelude.{ℕ, ℤ, List, Text}

-- `struct we_device_info`, `struct we_device_list` and `struct we_state`, in the fields that are used.
pub record WeDeviceInfo : Type 0 where
  pub wemo_id : ℤ
  pub udn : Text
  pub friendly_name : Text
  pub is_online : ℤ
  pub state : ℤ
  pub device_type : ℤ
  pub level : ℤ

pub record WeDeviceList : Type 0 where
  pub count : ℤ
  pub items : List WeDeviceInfo

pub record WeState : Type 0 where
  pub is_online : ℤ
  pub state : ℤ
  pub level : ℤ

pub data EngineCall : Type 0 where
  we_set_ipc_target : Text → ℤ → EngineCall
  we_init we_discover we_list_devices we_register_event_callback : EngineCall
  we_set_action : ℤ → WeState → EngineCall

-- The answers of the engine. Each may depend on all the calls made before, oldest first, and so on
-- anything that the engine knows; no law is assumed.
pub record Engine : Type 0 where
  pub init : List EngineCall → ℤ
  pub list_devices : List EngineCall → ℤ × WeDeviceList
  pub set_action : List EngineCall → ℤ → WeState → ℤ
  pub status_ok : ℤ
  pub max_items : ℕ

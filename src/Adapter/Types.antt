-- ===== src/Adapter/Types.antt =====
-- The values of the adapter's interface.
use wemo_matter_bridge.Prelude.{ℕ, ℤ, Bool, Text}

pub record WemoDevice : Type 0 where
  pub wemo_id : ℤ
  pub udn : Text
  pub friendly_name : Text
  pub supports_level : Bool
  pub is_online : Bool
  pub onoff : ℕ  -- uint8_t
  pub level_percent : ℕ  -- uint8_t, 0..100

pub record WemoStateEvent : Type 0 where
  pub wemo_id : ℤ
  pub is_online : Bool
  pub state : ℤ
  pub level : ℤ

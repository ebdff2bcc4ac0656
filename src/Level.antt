-- ===== src/Level.antt =====
-- The conversions between WeMo percent (0..100) and Matter level (0..254) of
-- matter-bridge-app/main.cpp, with the widths of their casts written out.
pub mod Bounds
use wemo_matter_bridge.Prelude.{ℕ, ◌*◌, ◌/◌, ◌%◌, Bool, true, false, ◌&&◌, ltb, ◌==◌, if◌then◌else◌}

-- `static_cast<uint8_t>(static_cast<uint16_t>(p) * 254u / 100u)`: the product of a uint16_t and
-- 254u fits `unsigned`.
unfoldable pub matter_level_of_percent : ℕ → ℕ
matter_level_of_percent p = p % 65536 * 254 / 100 % 256

-- `static_cast<uint8_t>(static_cast<uint16_t>(level) * 100u / 254u)` of a uint8_t, and the guard
-- that keeps a small level from becoming 0.
unfoldable pub wemo_percent_of_level : ℕ → ℕ
wemo_percent_of_level m =
    let percent = m * 100 / 254 % 256 in if ltb 0 m && percent == 0 then 1 else percent

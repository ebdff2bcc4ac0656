-- ===== src/Bridge/Confirm.antt =====
-- How matter-bridge-app/main.cpp takes the event by which a device confirms a commanded level.
use wemo_matter_bridge.Prelude.{ℕ, ◌+◌, ◌%◌, ◌≤◌, ◌≡◌, ◌⊎◌, ◌↔◌, ◌∙◌, sym, false, not, arith, ◌==◌}
use wemo_matter_bridge.Level.{matter_level_of_percent, wemo_percent_of_level}
use wemo_matter_bridge.Level.Bounds.{exact_levels}
use wemo_matter_bridge.Bridge.State.{
  BridgedWemoLight, command_level, expire_level, k_command_settle_window,
}
use wemo_matter_bridge.Bridge.Event.{suppresses_level}

-- Within the settle window of a commanded level, the suppression is the comparison of the levels.
commanded_suppression :
    (level v later now : ℕ) (e : BridgedWemoLight)
    → now ≤ later + k_command_settle_window
    → suppresses_level level (expire_level now (command_level v later e)) ≡ not (level == v % 256)
unfolding suppresses_level expire_level command_level
commanded_suppression level v later now e h = ground arith

differs_not : (a b : ℕ) → (not (a == b) ≡ false) ↔ (a ≡ b)
differs_not a b = (λ h. ground arith, λ h. ground arith)

-- After a commanded level from 2 to 254, and within its settle window, an event with the very percent
-- that was sent to the device is let through exactly if the level is 2, 127 or 254. At every other
-- level the confirmation is suppressed as if it contradicted the command.
pub confirmation_passes :
    (v later now : ℕ) (e : BridgedWemoLight)
    → 2 ≤ v
    → v ≤ 254
    → now ≤ later + k_command_settle_window
    → (suppresses_level
          (matter_level_of_percent (wemo_percent_of_level v))
          (expire_level now (command_level v later e))
        ≡ false)
      ↔ ((v ≡ 2) ⊎ (v ≡ 127) ⊎ (v ≡ 254))
confirmation_passes v later now e h k room =
    let level = matter_level_of_percent (wemo_percent_of_level v) in
    let is_v : v % 256 ≡ v = omega arith in
    let suppressed = commanded_suppression level v later now e room in
    let (to, from) = differs_not level (v % 256) in
    let (exact, back) = exact_levels v h k in
    (λ p. exact (to (sym suppressed ∙ p) ∙ is_v), λ q. suppressed ∙ from (back q ∙ sym is_v))

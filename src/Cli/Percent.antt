-- ===== src/Cli/Percent.antt =====
-- Which arguments src/main.cpp takes as a percent.
use wemo_matter_bridge.Prelude.{
  ℕ, ◌≡◌, pos, ◌∷◌, none, some, arith, leb, if◌then◌else◌, All, Text, clamp_at, long_max,
}
use wemo_matter_bridge.Prelude.Digits.{decimal, IsDigit, strtol-decimal}
use wemo_matter_bridge.Cli.{parse_percent, in_percent}

clamped_percent :
    (n : ℕ) → in_percent (pos (clamp_at long_max n)) ≡ (if leb n 100 then some n else none)
clamped_percent n = ground arith

-- A text of one digit or more is taken as the number it stands for if that is at most 100, however
-- many digits it has, and otherwise refused.
pub parse_percent_lem :
    (b : ℕ) (t : Text)
    → IsDigit b
    → All IsDigit t
    → parse_percent (b ∷ t)
      ≡ (if leb (decimal 0 (b ∷ t)) 100 then some (decimal 0 (b ∷ t)) else none)
unfolding parse_percent
parse_percent_lem b t h k =
    rw (strtol-decimal b t h k, parse_percent) (clamped_percent (decimal 0 (b ∷ t)))

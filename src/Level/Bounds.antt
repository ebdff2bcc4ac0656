-- ===== src/Level/Bounds.antt =====
-- The level conversions of matter-bridge-app/main.cpp: ranges, order and round trips.
use wemo_matter_bridge.Prelude.{ℕ, ◌+◌, ◌≤◌, ◌<◌, ◌≡◌, ◌↔◌, ◌⊎◌, arith}
use wemo_matter_bridge.Level.{matter_level_of_percent, wemo_percent_of_level}

pub matter_level_range : (p : ℕ) → p ≤ 100 → matter_level_of_percent p ≤ 254
unfolding matter_level_of_percent
matter_level_range p h = omega arith

pub wemo_percent_range : (m : ℕ) → m ≤ 255 → wemo_percent_of_level m ≤ 100
unfolding wemo_percent_of_level
wemo_percent_range m h = ground arith

pub wemo_percent_pos : (m : ℕ) → 0 < m → m ≤ 255 → 0 < wemo_percent_of_level m
unfolding wemo_percent_of_level
wemo_percent_pos m h k = ground arith

percent_round_trip :
    (p : ℕ)
    → p ≤ 100
    → (wemo_percent_of_level (matter_level_of_percent p) ≤ p)
      × (p ≤ wemo_percent_of_level (matter_level_of_percent p) + 1)
      × ((wemo_percent_of_level (matter_level_of_percent p) ≡ 0) ↔ (p ≡ 0))
unfolding matter_level_of_percent wemo_percent_of_level
percent_round_trip p h = (ground arith, ground arith, (λ e. ground arith, λ e. ground arith))

level_round_trip :
    (m : ℕ)
    → 2 ≤ m
    → m ≤ 254
    → (matter_level_of_percent (wemo_percent_of_level m) ≤ m)
      × (m ≤ matter_level_of_percent (wemo_percent_of_level m) + 3)
      × (0 < matter_level_of_percent (wemo_percent_of_level m))
unfolding matter_level_of_percent wemo_percent_of_level
level_round_trip m h k = (ground arith, ground arith, ground arith)

-- For a percent p from 0 to 100, the Matter level of p is converted back to p itself or to one
-- percent less, and to 0 only when p is 0. A level m from 2 to 254 that is sent to the device as a
-- percent and reported back as a level comes back at most 3 lower and never higher, and stays above 0.
pub conversions_round_trip :
    (p m : ℕ)
    → p ≤ 100
    → 2 ≤ m
    → m ≤ 254
    → ((wemo_percent_of_level (matter_level_of_percent p) ≤ p)
        × (p ≤ wemo_percent_of_level (matter_level_of_percent p) + 1)
        × ((wemo_percent_of_level (matter_level_of_percent p) ≡ 0) ↔ (p ≡ 0)))
      × ((matter_level_of_percent (wemo_percent_of_level m) ≤ m)
          × (m ≤ matter_level_of_percent (wemo_percent_of_level m) + 3)
          × (0 < matter_level_of_percent (wemo_percent_of_level m)))
conversions_round_trip p m h k l = (percent_round_trip p h, level_round_trip m k l)

conversions_mono :
    (p q a b : ℕ)
    → p ≤ q
    → q ≤ 100
    → a ≤ b
    → b ≤ 255
    → (matter_level_of_percent p ≤ matter_level_of_percent q)
      × (wemo_percent_of_level a ≤ wemo_percent_of_level b)
unfolding matter_level_of_percent wemo_percent_of_level
conversions_mono p q a b h k i j = (ground arith, ground arith)

-- A level from 2 to 254 that is converted to a percent and back comes back unchanged exactly if it is
-- 2, 127 or 254.
pub exact_levels :
    (m : ℕ)
    → 2 ≤ m
    → m ≤ 254
    → (matter_level_of_percent (wemo_percent_of_level m) ≡ m) ↔ ((m ≡ 2) ⊎ (m ≡ 127) ⊎ (m ≡ 254))
unfolding matter_level_of_percent wemo_percent_of_level
exact_levels m h k = (λ e. ground arith, λ e. ground arith)

level_keeps_on :
    (m : ℕ) → m ≤ 255 → (wemo_percent_of_level m ≤ 100) × ((wemo_percent_of_level m ≡ 0) ↔ (m ≡ 0))
unfolding wemo_percent_of_level
level_keeps_on m h = (ground arith, (λ e. ground arith, λ e. ground arith))

-- Both conversions keep the order, of percents of at most 100 and of levels of at most 255. Levels of
-- at most 255 become percents of at most 100, and no level but 0 becomes 0 and turns a device off.
pub conversions_bounds :
    (p q a b : ℕ)
    → p ≤ q
    → q ≤ 100
    → a ≤ b
    → b ≤ 255
    → (matter_level_of_percent p ≤ matter_level_of_percent q)
      × (wemo_percent_of_level a ≤ wemo_percent_of_level b)
      × (wemo_percent_of_level b ≤ 100)
      × ((wemo_percent_of_level b ≡ 0) ↔ (b ≡ 0))
conversions_bounds p q a b h k i j =
    let (levels, percents) = conversions_mono p q a b h k i j in
    let (range, keeps) = level_keeps_on b j in (levels, percents, range, keeps)

-- ===== src/Device/Setters.antt =====
-- What the setters of a light change and leave alone.
use wemo_matter_bridge.Prelude.{ℕ, ◌≡◌, refl, Bool}
use wemo_matter_bridge.Device.Class.{Sdk}
use wemo_matter_bridge.Device.Dimmable.{DeviceDimmable, set_level}
use wemo_matter_bridge.Device.Light.{
  Light, on_off_light, dimmable_light, is_on, is_reachable, is_dimmer, endpoint_of, base,
}
use wemo_matter_bridge.Device.Light

module _ ⦃c : Sdk⦄ where
  -- The level of a dimmer, and 0 for another light.
  abbrev pub level_of : Light → ℕ
  level_of (on_off_light d) = 0
  level_of (dimmable_light d) = d.level

  pub is_on-set_on_off : (b : Bool) (l : Light) → is_on (Light.set_on_off b l).0 ≡ b
  unfolding Light.set_on_off
  is_on-set_on_off b (on_off_light d) = c.is_on-set_on_off b d.object
  is_on-set_on_off b (dimmable_light d) = c.is_on-set_on_off b d.on_off.object

  pub is_on-set_reachable : (b : Bool) (l : Light) → is_on (Light.set_reachable b l).0 ≡ is_on l
  unfolding Light.set_reachable
  is_on-set_reachable b (on_off_light d) = c.is_on-set_reachable b d.object
  is_on-set_reachable b (dimmable_light d) = c.is_on-set_reachable b d.on_off.object

  pub is_reachable-set_on_off :
      (b : Bool) (l : Light) → is_reachable (Light.set_on_off b l).0 ≡ is_reachable l
  unfolding Light.set_on_off
  is_reachable-set_on_off b (on_off_light d) = c.is_reachable-set_on_off b d.object
  is_reachable-set_on_off b (dimmable_light d) = c.is_reachable-set_on_off b d.on_off.object

  pub is_reachable-set_reachable :
      (b : Bool) (l : Light) → is_reachable (Light.set_reachable b l).0 ≡ b
  unfolding Light.set_reachable
  is_reachable-set_reachable b (on_off_light d) = c.is_reachable-set_reachable b d.object
  is_reachable-set_reachable b (dimmable_light d) = c.is_reachable-set_reachable b d.on_off.object

  pub is_dimmer-set_on_off :
      (b : Bool) (l : Light) → is_dimmer (Light.set_on_off b l).0 ≡ is_dimmer l
  unfolding Light.set_on_off
  is_dimmer-set_on_off b (on_off_light d) = refl
  is_dimmer-set_on_off b (dimmable_light d) = refl

  pub is_dimmer-set_reachable :
      (b : Bool) (l : Light) → is_dimmer (Light.set_reachable b l).0 ≡ is_dimmer l
  unfolding Light.set_reachable
  is_dimmer-set_reachable b (on_off_light d) = refl
  is_dimmer-set_reachable b (dimmable_light d) = refl

  pub level_of-set_on_off : (b : Bool) (l : Light) → level_of (Light.set_on_off b l).0 ≡ level_of l
  unfolding Light.set_on_off
  level_of-set_on_off b (on_off_light d) = refl
  level_of-set_on_off b (dimmable_light d) = refl

  pub level_of-set_reachable :
      (b : Bool) (l : Light) → level_of (Light.set_reachable b l).0 ≡ level_of l
  unfolding Light.set_reachable
  level_of-set_reachable b (on_off_light d) = refl
  level_of-set_reachable b (dimmable_light d) = refl

  pub set_level_on_off : (v : ℕ) (d : DeviceDimmable) → (set_level v d).0.on_off ≡ d.on_off
  unfolding set_level
  set_level_on_off v d = refl

  pub set_level_level : (v : ℕ) (d : DeviceDimmable) → (set_level v d).0.level ≡ v
  unfolding set_level
  set_level_level v d = refl

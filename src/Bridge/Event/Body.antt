-- ===== src/Bridge/Event/Body.antt =====
-- What one event does to the entry and the light that it is for.
use wemo_matter_bridge.Prelude.{
  ℕ, ℤ, pos, negsuc, ◌≤◌, ◌≡◌, ◌≢◌, Bool, true, false, not, List, none, some, arith,
}
use wemo_matter_bridge.Level.{matter_level_of_percent}
use wemo_matter_bridge.Adapter.Types.{WemoStateEvent}
use wemo_matter_bridge.Device.Class.{Sdk, Report}
use wemo_matter_bridge.Device.Dimmable.{DeviceDimmable, DeviceOnOff}
use wemo_matter_bridge.Device.Setters.{
  level_of, is_on-set_on_off, is_on-set_reachable, is_reachable-set_on_off,
  is_reachable-set_reachable, is_dimmer-set_on_off, is_dimmer-set_reachable, level_of-set_on_off,
  level_of-set_reachable, set_level_on_off, set_level_level,
}
use wemo_matter_bridge.Device.Light.{
  Light, on_off_light, dimmable_light, is_on, is_reachable, is_dimmer,
}
use wemo_matter_bridge.Bridge.State.{BridgedWemoLight, expire_on_off, expire_level}
use wemo_matter_bridge.Bridge.Event.{
  is_zero, update_reachable, update_on_off, update_level, apply_level, apply_event,
  suppresses_on_off, suppresses_level,
}

-- An on/off command that is not past its settle window.
abbrev pub PendingOnOff : Bool → ℕ → BridgedWemoLight → Type 0
PendingOnOff b now e = (e.commanded_on_off ≡ some b) × (now ≤ e.commanded_on_off_until)

-- A level command that is not past its settle window.
abbrev pub PendingLevel : ℕ → ℕ → BridgedWemoLight → Type 0
PendingLevel v now e = (e.commanded_level ≡ some v) × (now ≤ e.commanded_level_until)

-- What an event keeps of an entry.
pub record SameIdentity (e e' : BridgedWemoLight) : Type 0 where
  pub wemo_id : e'.wemo_id ≡ e.wemo_id
  pub udn : e'.udn ≡ e.udn
  pub is_dimmable : e'.is_dimmable ≡ e.is_dimmable
  pub device : e'.device ≡ e.device

module _ ⦃c : Sdk⦄ where
  pub update_reachable_lem :
      (online : Bool) (l : Light)
      → let l' = (update_reachable online l).0 in
        (is_reachable l' ≡ online)
        × (is_on l' ≡ is_on l)
        × (is_dimmer l' ≡ is_dimmer l)
        × (level_of l' ≡ level_of l)
  unfolding update_reachable
  update_reachable_lem online l = ground (
    arith,
    is_reachable-set_reachable online l,
    is_on-set_reachable online l,
    is_dimmer-set_reachable online l,
    level_of-set_reachable online l,
  )

  pub update_on_off_lem :
      (b : Bool) (e : BridgedWemoLight) (l : Light)
      → let l' = (update_on_off b e l).0 in
        (is_reachable l' ≡ is_reachable l)
        × (is_dimmer l' ≡ is_dimmer l)
        × (level_of l' ≡ level_of l)
        × (suppresses_on_off b e ≡ true → is_on l' ≡ is_on l)
        × (suppresses_on_off b e ≡ false → is_on l' ≡ b)
  unfolding update_on_off
  update_on_off_lem b e l = ground (
    arith,
    is_on-set_on_off b l,
    is_reachable-set_on_off b l,
    is_dimmer-set_on_off b l,
    level_of-set_on_off b l,
  )

  pub update_level_lem :
      (v : ℕ) (e : BridgedWemoLight) (d : DeviceDimmable)
      → let d' = (update_level v e d).0 in
        (d'.on_off ≡ d.on_off)
        × (suppresses_level v e ≡ true → d'.level ≡ d.level)
        × (suppresses_level v e ≡ false → d'.level ≡ v)
  unfolding update_level
  update_level_lem v e d = ground (arith, set_level_on_off v d, set_level_level v d)

  -- The level part leaves on/off, reachability and the kind of the light alone.
  pub apply_level_keeps :
      (v : ℤ) (now : ℕ) (e : BridgedWemoLight) (l : Light) {e' : BridgedWemoLight} {l' : Light}
      {r : List Report}
      → apply_level v now e l ≡ some (e', l', r)
      → SameIdentity e e'
        × (e'.commanded_on_off ≡ e.commanded_on_off)
        × (e'.commanded_on_off_until ≡ e.commanded_on_off_until)
        × (is_on l' ≡ is_on l)
        × (is_reachable l' ≡ is_reachable l)
        × (is_dimmer l' ≡ is_dimmer l)
  unfolding apply_level expire_level
  apply_level_keeps (negsuc n) now e l h = ground arith
  apply_level_keeps (pos p) now e (on_off_light d) h = ground arith
  apply_level_keeps (pos p) now e (dimmable_light d) h =
      ground (arith, update_level_lem (matter_level_of_percent p) (expire_level now e) d)

  pub apply_level_total :
      (v : ℤ) (now : ℕ) (e : BridgedWemoLight) (l : Light)
      → is_dimmer l ≡ e.is_dimmable
      → apply_level v now e l ≢ none
  unfolding apply_level
  apply_level_total (negsuc n) now e l h = ground arith
  apply_level_total (pos p) now e (on_off_light d) h = ground arith
  apply_level_total (pos p) now e (dimmable_light d) h = ground arith

  -- With a level, an entry that is dimmable takes the level unless a pending command contradicts it.
  pub apply_level_value :
      (p now : ℕ) (e : BridgedWemoLight) (d : DeviceDimmable) {e' : BridgedWemoLight} {l' : Light}
      {r : List Report}
      → e.is_dimmable ≡ true
      → apply_level (pos p) now e (dimmable_light d) ≡ some (e', l', r)
      → (suppresses_level (matter_level_of_percent p) (expire_level now e) ≡ true
          → level_of l' ≡ d.level)
        × (suppresses_level (matter_level_of_percent p) (expire_level now e) ≡ false
            → level_of l' ≡ matter_level_of_percent p)
        × (e' ≡ expire_level now e)
  unfolding apply_level
  apply_level_value p now e d g h =
      ground (arith, update_level_lem (matter_level_of_percent p) (expire_level now e) d)

  pub apply_level_none :
      (n now : ℕ) (e : BridgedWemoLight) (l : Light) {e' : BridgedWemoLight} {l' : Light}
      {r : List Report}
      → apply_level (negsuc n) now e l ≡ some (e', l', r)
      → (e' ≡ e) × (l' ≡ l)
  unfolding apply_level
  apply_level_none n now e l h = ground arith

  pub apply_level_plain :
      (p now : ℕ) (e : BridgedWemoLight) (d : DeviceOnOff) {e' : BridgedWemoLight} {l' : Light}
      {r : List Report}
      → apply_level (pos p) now e (on_off_light d) ≡ some (e', l', r)
      → (e' ≡ e) × (l' ≡ on_off_light d)
  unfolding apply_level
  apply_level_plain p now e d h = ground arith

pub expire_on_off_identity :
    (now : ℕ) (e : BridgedWemoLight)
    → SameIdentity e (expire_on_off now e)
      × ((expire_on_off now e).commanded_on_off_until ≡ e.commanded_on_off_until)
unfolding expire_on_off
expire_on_off_identity now e = ground arith

pub expire_on_off_pending :
    (b : Bool) (now : ℕ) (e : BridgedWemoLight) → PendingOnOff b now e → (expire_on_off now e ≡ e)
unfolding expire_on_off
expire_on_off_pending b now e h = ground arith

pub suppresses_pending :
    (b : Bool) (now : ℕ) (e : BridgedWemoLight)
    → PendingOnOff (not b) now e
    → suppresses_on_off b (expire_on_off now e) ≡ true
unfolding suppresses_on_off expire_on_off
suppresses_pending true now e h = ground arith
suppresses_pending false now e h = ground arith

pub suppresses_not_pending :
    (b : Bool) (now : ℕ) (e : BridgedWemoLight)
    → ¬ (PendingOnOff (not b) now e)
    → suppresses_on_off b (expire_on_off now e) ≡ false
unfolding suppresses_on_off expire_on_off
suppresses_not_pending true now e h = ground arith
suppresses_not_pending false now e h = ground arith

module _ ⦃c : Sdk⦄ where
  module _ (ctx : WemoStateEvent) (now : ℕ) (e : BridgedWemoLight) (l : Light) where
    pub apply_event_total : is_dimmer l ≡ e.is_dimmable → apply_event ctx now e l ≢ none
    unfolding apply_event
    apply_event_total h =
        let l₁ = (update_reachable ctx.is_online l).0 in
        let e₁ = expire_on_off now e in
        let l₂ = (update_on_off (not (is_zero ctx.state)) e₁ l₁).0 in
        ground (
          arith,
          apply_level_total ctx.level now e₁ l₂,
          update_on_off_lem (not (is_zero ctx.state)) e₁ l₁,
          update_reachable_lem ctx.is_online l,
          expire_on_off_identity now e,
        )

    module _ {e' : BridgedWemoLight} {l' : Light} {r : List Report}
        (h : apply_event ctx now e l ≡ some (e', l', r)) where
      pub apply_event_keeps :
          SameIdentity e e'
          × (is_reachable l' ≡ ctx.is_online)
          × (is_dimmer l' ≡ is_dimmer l)
          × (e'.commanded_on_off_until ≡ e.commanded_on_off_until)
      unfolding apply_event
      apply_event_keeps =
          let l₁ = (update_reachable ctx.is_online l).0 in
          let e₁ = expire_on_off now e in
          let l₂ = (update_on_off (not (is_zero ctx.state)) e₁ l₁).0 in
          ground (
            arith,
            apply_level_keeps ctx.level now e₁ l₂ {e' = e'} {l' = l'},
            update_on_off_lem (not (is_zero ctx.state)) e₁ l₁,
            update_reachable_lem ctx.is_online l,
            expire_on_off_identity now e,
          )

-- ===== src/Bridge/Event/Outcome.antt =====
-- What one event makes of the on/off state and the level, by whether a command is pending.
use wemo_matter_bridge.Prelude.{
  ℕ, ℤ, pos, negsuc, ◌%◌, ◌<◌, ◌≡◌, ◌≢◌, Bool, true, false, not, List, Option, none, some, arith,
  refl, ap,
}
use wemo_matter_bridge.Level.{matter_level_of_percent}
use wemo_matter_bridge.Adapter.Types.{WemoStateEvent}
use wemo_matter_bridge.Device.Class.{Sdk, Report}
use wemo_matter_bridge.Device.Setters.{level_of}
use wemo_matter_bridge.Device.Light.{Light, on_off_light, dimmable_light, is_on, is_dimmer}
use wemo_matter_bridge.Bridge.State.{BridgedWemoLight, expire_on_off, expire_level}
use wemo_matter_bridge.Bridge.Event.{
  is_zero, update_reachable, update_on_off, apply_event, suppresses_on_off, suppresses_level,
}
use wemo_matter_bridge.Bridge.Event.Body.{
  PendingOnOff, PendingLevel, update_reachable_lem, update_on_off_lem, apply_level_keeps,
  apply_level_value, apply_level_none, apply_level_plain, expire_on_off_identity,
  expire_on_off_pending, suppresses_pending, suppresses_not_pending,
}

-- The same-valued command does not suppress an event.
pub suppresses_same :
    (b : Bool) (now : ℕ) (e : BridgedWemoLight)
    → PendingOnOff b now e
    → suppresses_on_off b (expire_on_off now e) ≡ false
unfolding suppresses_on_off expire_on_off
suppresses_same true now e h = ground arith
suppresses_same false now e h = ground arith

pub expire_level_commands :
    (now : ℕ) (e : BridgedWemoLight)
    → ((expire_level now e).commanded_on_off ≡ e.commanded_on_off)
      × ((expire_level now e).is_dimmable ≡ e.is_dimmable)
      × ((expire_level now e).commanded_level_until ≡ e.commanded_level_until)
unfolding expire_level
expire_level_commands now e = ground arith

pub expire_on_off_level :
    (now : ℕ) (e : BridgedWemoLight)
    → ((expire_on_off now e).commanded_level ≡ e.commanded_level)
      × ((expire_on_off now e).commanded_level_until ≡ e.commanded_level_until)
unfolding expire_on_off
expire_on_off_level now e = ground arith

pub expire_level_pending :
    (v now : ℕ) (e : BridgedWemoLight) → PendingLevel v now e → expire_level now e ≡ e
unfolding expire_level
expire_level_pending v now e h = ground arith

pub suppresses-PendingLevel :
    (v w now : ℕ) (e : BridgedWemoLight)
    → PendingLevel v now e
    → w ≢ v % 256
    → suppresses_level w (expire_level now e) ≡ true
unfolding suppresses_level expire_level
suppresses-PendingLevel v w now e h k = ground arith

pub suppresses_free_level :
    (w now : ℕ) (e : BridgedWemoLight)
    → ((v : ℕ) → PendingLevel v now e → w ≡ v % 256)
    → suppresses_level w (expire_level now e) ≡ false
unfolding suppresses_level expire_level
suppresses_free_level w now e h = go e.commanded_level refl
  where
    go : (o : Option ℕ) → e.commanded_level ≡ o → suppresses_level w (expire_level now e) ≡ false
    go none p = ground arith
    go (some v) p = ground (arith, h v)

module _ ⦃c : Sdk⦄ (ctx : WemoStateEvent) (now : ℕ) (e : BridgedWemoLight) (l : Light)
    {e' : BridgedWemoLight} {l' : Light} {r : List Report}
    (h : apply_event ctx now e l ≡ some (e', l', r)) where
  l₁ : Light
  l₁ = (update_reachable ctx.is_online l).0

  l₂ : Light
  unfolding l₁
  l₂ = (update_on_off (not (is_zero ctx.state)) (expire_on_off now e) l₁).0

  pub apply_event-offline :
      ctx.is_online ≡ false → (is_on l' ≡ is_on l) × (level_of l' ≡ level_of l) × (e' ≡ e)
  unfolding apply_event
  apply_event-offline k = ground (arith, update_reachable_lem ctx.is_online l)

  -- Whatever the event, a light in its commanded state stays in it.
  pub apply_event-settled :
      (b : Bool)
      → PendingOnOff b now e
      → is_on l ≡ b
      → (is_on l' ≡ b) × (e'.commanded_on_off ≡ some b)
  unfolding apply_event l₁ l₂
  apply_event-settled b p q = ground (
    arith,
    update_reachable_lem ctx.is_online l,
    update_on_off_lem (not (is_zero ctx.state)) (expire_on_off now e) l₁,
    apply_level_keeps ctx.level now (expire_on_off now e) l₂ {e' = e'} {l' = l'},
    expire_on_off_pending b now e,
    suppresses_pending (not (is_zero ctx.state)) now e,
    suppresses_same b now e,
  )

  -- An online event against no pending command of the other value sets the on/off state.
  pub apply_event-follows :
      ctx.is_online ≡ true
      → ¬ (PendingOnOff (is_zero ctx.state) now e)
      → is_on l' ≡ not (is_zero ctx.state)
  unfolding apply_event l₁ l₂
  apply_event-follows k p = ground (
    arith,
    update_on_off_lem (not (is_zero ctx.state)) (expire_on_off now e) l₁,
    apply_level_keeps ctx.level now (expire_on_off now e) l₂ {e' = e'} {l' = l'},
    suppresses_not_pending (not (is_zero ctx.state)) now e,
  )

  -- A pending level command keeps the level against every other level.
  pub apply_event-level_kept :
      (v p : ℕ)
      → e.is_dimmable ≡ true
      → is_dimmer l ≡ true
      → ctx.level ≡ pos p
      → PendingLevel v now e
      → matter_level_of_percent p ≢ v % 256
      → level_of l' ≡ level_of l
  unfolding apply_event l₁ l₂
  apply_event-level_kept v p g q k pend ne = go l₂ refl
    where
      go : (x : Light) → l₂ ≡ x → level_of l' ≡ level_of l
      go (on_off_light d) i = ground (
        arith,
        ap is_dimmer i,
        update_reachable_lem ctx.is_online l,
        update_on_off_lem (not (is_zero ctx.state)) (expire_on_off now e) l₁,
      )
      go (dimmable_light d) i = ground (
        arith,
        ap level_of i,
        update_reachable_lem ctx.is_online l,
        update_on_off_lem (not (is_zero ctx.state)) (expire_on_off now e) l₁,
        apply_level_value p now (expire_on_off now e) d {e' = e'} {l' = l'},
        expire_on_off_identity now e,
        expire_on_off_level now e,
        suppresses-PendingLevel v (matter_level_of_percent p) now (expire_on_off now e),
      )

  -- Without one, or with one for the same level, the level follows the event.
  pub apply_event-level_follows :
      (p : ℕ)
      → ctx.is_online ≡ true
      → e.is_dimmable ≡ true
      → is_dimmer l ≡ true
      → ctx.level ≡ pos p
      → ((v : ℕ) → PendingLevel v now e → matter_level_of_percent p ≡ v % 256)
      → level_of l' ≡ matter_level_of_percent p
  unfolding apply_event l₁ l₂
  apply_event-level_follows p on g q k free = go l₂ refl
    where
      unsuppressed :
          suppresses_level (matter_level_of_percent p) (expire_level now (expire_on_off now e))
          ≡ false
      unsuppressed =
          suppresses_free_level (matter_level_of_percent p) now (expire_on_off now e)
            λ v w. free v (ground (arith, expire_on_off_level now e))

      go : (x : Light) → l₂ ≡ x → level_of l' ≡ matter_level_of_percent p
      go (on_off_light d) i = ground (
        arith,
        ap is_dimmer i,
        update_reachable_lem ctx.is_online l,
        update_on_off_lem (not (is_zero ctx.state)) (expire_on_off now e) l₁,
      )
      go (dimmable_light d) i = ground (
        arith,
        unsuppressed,
        apply_level_value p now (expire_on_off now e) d {e' = e'} {l' = l'},
        expire_on_off_identity now e,
      )

  -- A light at its commanded level stays there.
  pub apply_event-level_settled :
      (v : ℕ)
      → e.is_dimmable ≡ is_dimmer l
      → PendingLevel v now e
      → v < 256
      → level_of l ≡ v
      → (level_of l' ≡ v)
        × (e'.commanded_level ≡ some v)
        × (e'.commanded_level_until ≡ e.commanded_level_until)
  unfolding apply_event l₁ l₂
  apply_event-level_settled v g pend small q = go l₂ refl ctx.level refl
    where
      stays : expire_level now (expire_on_off now e) ≡ expire_on_off now e
      stays =
          expire_level_pending v now (expire_on_off now e)
            (ground (arith, expire_on_off_level now e))

      go :
          (x : Light)
          → l₂ ≡ x
          → (k : ℤ) → ctx.level ≡ k
          → (level_of l' ≡ v)
            × (e'.commanded_level ≡ some v)
            × (e'.commanded_level_until ≡ e.commanded_level_until)
      go x i (negsuc n) k = ground (
        arith,
        update_reachable_lem ctx.is_online l,
        update_on_off_lem (not (is_zero ctx.state)) (expire_on_off now e) l₁,
        apply_level_none n now (expire_on_off now e) l₂ {e' = e'} {l' = l'},
        expire_on_off_level now e,
      )
      go (on_off_light d) i (pos p) k = ground (
        arith,
        ap is_dimmer i,
        ap level_of i,
        update_reachable_lem ctx.is_online l,
        update_on_off_lem (not (is_zero ctx.state)) (expire_on_off now e) l₁,
        apply_level_plain p now (expire_on_off now e) d {e' = e'} {l' = l'},
        expire_on_off_level now e,
        expire_on_off_identity now e,
      )
      go (dimmable_light d) i (pos p) k = ground (
        arith,
        ap level_of i,
        ap is_dimmer i,
        update_reachable_lem ctx.is_online l,
        update_on_off_lem (not (is_zero ctx.state)) (expire_on_off now e) l₁,
        apply_level_value p now (expire_on_off now e) d {e' = e'} {l' = l'},
        expire_on_off_identity now e,
        expire_on_off_level now e,
        stays,
        suppresses-PendingLevel v (matter_level_of_percent p) now (expire_on_off now e),
      )

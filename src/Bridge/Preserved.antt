-- ===== src/Bridge/Preserved.antt =====
-- Events and writes keep the databases well formed, and do not fault on them.
use wemo_matter_bridge.Prelude.{
  ℕ, ◌≡◌, refl, inl, inr, Bool, true, false, not, List, ◌++◌, map, Option, some, arith,
  Option-cases, Bool-cases, find_first, update_first, ◌==◌, ◌&&◌, if◌then◌else◌,
}
use wemo_matter_bridge.Adapter.Types.{WemoStateEvent}
use wemo_matter_bridge.Device.Class.{Sdk, Report}
use wemo_matter_bridge.Device.Dimmable.{DeviceDimmable, set_level}
use wemo_matter_bridge.Device.Light.{Light, is_dimmer, is_reachable, on_off_light, dimmable_light}
use wemo_matter_bridge.Device.Light
use wemo_matter_bridge.Device.Setters.{is_dimmer-set_on_off}
use wemo_matter_bridge.Bridge.State.{
  Bridge, BridgedWemoLight, reported, store, find_udn, owns, command_on_off, command_level,
  expire_on_off,
}
use wemo_matter_bridge.Bridge.Write.{
  Status, success, failure, is_on_off, is_current_level, OnOffAttribute, LevelControlAttribute,
  dispatch_on_off, dispatch_level, write_level, handle_write_on_off_attribute,
  handle_write_level_control_attribute, matched_ignores,
}
use wemo_matter_bridge.Bridge.Event.{handle_wemo_event_on_matter_thread}
use wemo_matter_bridge.Bridge.Event.Body.{SameIdentity, apply_event_keeps, expire_on_off_identity}
use wemo_matter_bridge.Bridge.Event.Handled.{after_event, Reaches, Reaches-handled, event_cases}
use wemo_matter_bridge.Bridge.WellFormed.{IsWellFormed, store-IsWellFormed, lights-IsWellFormed}

module _ ⦃c : Sdk⦄ where
  pub after_event-IsWellFormed :
      (ctx : WemoStateEvent) (now : ℕ) (s : Bridge) {e e' : BridgedWemoLight} {l l' : Light}
      {r : List Report}
      → IsWellFormed s
      → Reaches ctx now s e e' l l' r
      → IsWellFormed (after_event ctx s e e' l' r)
  after_event-IsWellFormed ctx now s {e} {e'} {l} {l'} {r} w h =
      let keeps = apply_event_keeps ctx now e l {e' = e'} {l' = l'} {r = r} h.applied in
      lights-IsWellFormed (record s { heap = store s.heap e.device (some l'); effects = s.effects })
        _ (λ _. e') (s.effects ++ map reported r)
        (store-IsWellFormed s e.device l l' s.effects w h.object keeps.2)
        λ x q. ground (arith, h.found, keeps.0)

  -- In a well-formed state every event is handled without a fault, and leaves a well-formed state.
  pub handle_wemo_event-IsWellFormed :
      (ctx : WemoStateEvent) (now : ℕ) (s : Bridge)
      → IsWellFormed s
      → (s' : Bridge) × (handle_wemo_event_on_matter_thread ctx now s ≡ some s') × IsWellFormed s'
  handle_wemo_event-IsWellFormed ctx now s w = elim (event_cases ctx now s w) [
    | inl (_, q) ↦ (s, q, w)
    | inr (e, e', l, l', r, h) ↦ (
      after_event ctx s e e' l' r,
      Reaches-handled ctx now s h,
      after_event-IsWellFormed ctx now s w h,
    )
  ]

  pub command_on_off_identity :
      (b : Bool) (now : ℕ) (e : BridgedWemoLight) → SameIdentity e (command_on_off b now e)
  unfolding command_on_off
  command_on_off_identity b now e = ground arith

  pub command_level_identity :
      (v now : ℕ) (e : BridgedWemoLight) → SameIdentity e (command_level v now e)
  unfolding command_level
  command_level_identity v now e = ground arith

  dispatch_on_off-IsWellFormed :
      (dev : ℕ) (b : Bool) (now : ℕ) (s : Bridge)
      → IsWellFormed s
      → IsWellFormed (dispatch_on_off dev b now s)
  unfolding dispatch_on_off
  dispatch_on_off-IsWellFormed dev b now s w = elim (Option-cases (find_udn dev s.device_to_udn)) [
    | inl q ↦ rw (q, dispatch_on_off) w
    | inr (udn, q) ↦
        rw (q, dispatch_on_off)
          (lights-IsWellFormed s (owns dev) (command_on_off b now) _ w
            λ e h. command_on_off_identity b now e)
  ]

  dispatch_level-IsWellFormed :
      (dev v now : ℕ) (s : Bridge) → IsWellFormed s → IsWellFormed (dispatch_level dev v now s)
  unfolding dispatch_level
  dispatch_level-IsWellFormed dev v now s w = elim (Option-cases (find_udn dev s.device_to_udn)) [
    | inl q ↦ rw (q, dispatch_level) w
    | inr (udn, q) ↦
        rw (q, dispatch_level)
          (lights-IsWellFormed s (owns dev) (command_level v now) _ w
            λ e h. command_level_identity v now e)
  ]

  -- In a well-formed state an on/off write to an existing light is handled without a fault, and
  -- leaves a well-formed state.
  pub write_on_off-IsWellFormed :
      (dev : ℕ) (a : OnOffAttribute) (byte now : ℕ) (s : Bridge) {l : Light}
      → IsWellFormed s
      → s.heap dev ≡ some l
      → (r : Status × Bridge) × (handle_write_on_off_attribute dev a byte now s ≡ some r)
        × IsWellFormed r.1
  unfolding handle_write_on_off_attribute
  write_on_off-IsWellFormed dev a byte now s {l} w h =
      rw (h, handle_write_on_off_attribute) (go (is_on_off a && is_reachable l))
    where
      target : Bool
      target = not (byte == 0)

      s₁ : Bridge
      s₁ = record s {
        heap = store s.heap dev (some (Light.set_on_off target l).0);
        effects = s.effects ++ map reported (Light.set_on_off target l).1;
      }

      written : Option (Status × Bridge)
      written = some (success, dispatch_on_off dev target now s₁)

      go :
          (t : Bool)
          → (r : Status × Bridge) × ((if t then written else some (failure, s)) ≡ some r)
            × IsWellFormed r.1
      go true = (
        (success, dispatch_on_off dev target now s₁),
        refl,
        dispatch_on_off-IsWellFormed dev target now s₁
            (store-IsWellFormed s dev l _ _ w h (is_dimmer-set_on_off target l)),
      )
      go false = ((failure, s), refl, w)

  pub write_level-IsWellFormed :
      (dev : ℕ) (d : DeviceDimmable) (v now later : ℕ) (s : Bridge)
      → IsWellFormed s
      → s.heap dev ≡ some (dimmable_light d)
      → IsWellFormed (write_level dev d v now later s)
  unfolding write_level
  write_level-IsWellFormed dev d v now later s w h =
      elim (Bool-cases (matched_ignores v now (find_first (owns dev) s.lights))) [
        | inl q ↦ rw (q, write_level) expired
        | inr q ↦
            rw (q, write_level)
              (dispatch_level-IsWellFormed dev v later _ (
                store-IsWellFormed _ dev (dimmable_light d) (dimmable_light (set_level v d).0) _
                  expired h refl))
      ]
    where
      expired : IsWellFormed (record s {
        lights = update_first (owns dev) (expire_on_off now) s.lights;
        effects = s.effects;
      })
      expired =
          lights-IsWellFormed s (owns dev) (expire_on_off now) s.effects w
            λ e _. (expire_on_off_identity now e).0

  -- In a well-formed state a level write to an existing dimmer is handled without a fault, and
  -- leaves a well-formed state.
  pub write_level_control-IsWellFormed :
      (dev : ℕ) (a : LevelControlAttribute) (v now later : ℕ) (s : Bridge) {d : DeviceDimmable}
      → IsWellFormed s
      → s.heap dev ≡ some (dimmable_light d)
      → (r : Status × Bridge) × (handle_write_level_control_attribute dev a v now later s ≡ some r)
        × IsWellFormed r.1
  unfolding handle_write_level_control_attribute
  write_level_control-IsWellFormed dev a v now later s {d} w h =
      rw (h, handle_write_level_control_attribute)
        (go (is_current_level a && is_reachable (dimmable_light d)))
    where
      go :
          (t : Bool)
          → (r : Status × Bridge) × ((if t
                then some (success, write_level dev d v now later s)
                else some (failure, s))
              ≡ some r)
            × IsWellFormed r.1
      go true = (
        (success, write_level dev d v now later s),
        refl,
        write_level-IsWellFormed dev d v now later s w h,
      )
      go false = ((failure, s), refl, w)

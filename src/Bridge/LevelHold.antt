-- ===== src/Bridge/LevelHold.antt =====
-- The settle window of level commands: what the device shows between a write and its end.
use wemo_matter_bridge.Prelude.{
  ℕ, ◌+◌, ◌≤◌, ◌<◌, ◌≡◌, ◌≢◌, refl, sym, ◌∙◌, inl, inr, true, false, List, [], ◌∷◌, map, some,
  arith, ◌==◌, ==_iff, All, All-update_found, All-find_first, Distinct, Bool-cases, find_first,
  update_first, map-update_first,
}
use wemo_matter_bridge.Adapter.Types.{WemoStateEvent}
use wemo_matter_bridge.Device.Class.{Sdk, Report}
use wemo_matter_bridge.Device.Dimmable.{DeviceDimmable, set_level}
use wemo_matter_bridge.Device.Light.{Light, dimmable_light, is_dimmer, is_reachable}
use wemo_matter_bridge.Device.Setters.{level_of, set_level_level}
use wemo_matter_bridge.Bridge.State.{
  Bridge, BridgedWemoLight, owns, expire_on_off, command_level, k_command_settle_window,
}
use wemo_matter_bridge.Bridge.Write.{
  success, LevelControlAttribute, handle_write_level_control_attribute,
}
use wemo_matter_bridge.Bridge.Event.{matches, handle_events}
use wemo_matter_bridge.Bridge.Event.Body.{PendingOnOff, apply_event_keeps, expire_on_off_identity}
use wemo_matter_bridge.Bridge.Event.Outcome.{apply_event-level_settled}
use wemo_matter_bridge.Bridge.Event.Handled.{after_event, Reaches, Reaches-handled, event_cases}
use wemo_matter_bridge.Bridge.WellFormed.{
  IsWellFormed, device_of, EntryOk, store-IsWellFormed, lights-IsWellFormed,
}
use wemo_matter_bridge.Bridge.Preserved.{after_event-IsWellFormed, command_level_identity}
use wemo_matter_bridge.Bridge.LevelSettle.{after_level_write, level_write_sent}

-- Every entry of the device holds the level command.
abbrev CommandOf : ℕ → ℕ → ℕ → BridgedWemoLight → Type 0
CommandOf dev v t e = e.device ≡ dev → (e.commanded_level ≡ some v) × (e.commanded_level_until ≡ t)

CommandOf-others :
    (dev v t : ℕ) (es : List BridgedWemoLight)
    → All (λ a. a ≢ dev) (map device_of es)
    → All (CommandOf dev v t) es
CommandOf-others dev v t [] h = tt
CommandOf-others dev v t (e ∷ es) h = (λ q. absurd (h.0 q), CommandOf-others dev v t es h.1)

CommandOf-update_first :
    (dev v now : ℕ) (es : List BridgedWemoLight)
    → Distinct (map device_of es)
    → All
        (CommandOf dev v (now + k_command_settle_window))
        (update_first (owns dev) (command_level v now) es)
unfolding command_level
CommandOf-update_first dev v now [] d = tt
CommandOf-update_first dev v now (e ∷ es) d = elim (Bool-cases (e.device == dev)) [
  | inl q ↦
      let q' : e.device ≡ dev = (==_iff e.device dev).0 q in
      rw q (λ _. (refl, refl), CommandOf-others dev v _ es (rw q' at d.0))
  | inr q ↦ rw q (
    λ k. absurd (ground (arith, (==_iff e.device dev).1 k)),
    CommandOf-update_first dev v now es d.1,
  )
]

module _ ⦃c : Sdk⦄ where
  -- The light of the device is a dimmer at the commanded level, and the command is held until `t`.
  record IsHeld (dev v t : ℕ) (s : Bridge) : Type 0 where
    light : Light
    object : s.heap dev ≡ some light
    shows : level_of light ≡ v
    commands : All (CommandOf dev v t) s.lights

  after_event-IsHeld :
      (dev v t : ℕ) (ctx : WemoStateEvent) (now : ℕ) (s : Bridge) {e e' : BridgedWemoLight}
      {l l' : Light} {r : List Report}
      → now ≤ t
      → v < 256
      → IsWellFormed s
      → IsHeld dev v t s
      → Reaches ctx now s e e' l l' r
      → IsHeld dev v t (after_event ctx s e e' l' r)
  after_event-IsHeld dev v t ctx now s {e} {e'} {l} {l'} {r} soon small w p h =
      elim (Bool-cases (dev == e.device)) [
        | inl q ↦ same ((==_iff dev e.device).0 q) q
        | inr q ↦ other q
      ]
    where
      device : e'.device ≡ e.device
      device = (apply_event_keeps ctx now e l {e' = e'} {l' = l'} {r = r} h.applied).0.device

      command : CommandOf dev v t e
      command = All-find_first (CommandOf dev v t) (matches ctx) s.lights p.commands h.found

      kind : is_dimmer l ≡ e.is_dimmable
      kind =
          let fits = (All-find_first (EntryOk s) (matches ctx) s.lights w.entries h.found).0 in
          rw h.object at fits

      same :
          dev ≡ e.device → (dev == e.device) ≡ true → IsHeld dev v t (after_event ctx s e e' l' r)
      same i q =
          let one_light : l ≡ p.light = ground (arith, h.object, p.object) in
          let held =
            apply_event-level_settled ctx now e l {e' = e'} {l' = l'} {r = r} h.applied v (sym kind)
              ((command (sym i)).0, rw ((command (sym i)).1) soon) small (rw one_light p.shows) in
          record {
            light = l';
            object = rw q refl;
            shows = held.0;
            commands =
                All-update_found (CommandOf dev v t) (matches ctx) (λ _. e') s.lights
                  (λ x _ _ _. (held.1, held.2 ∙ (command (sym i)).1)) p.commands;
          }

      other : (dev == e.device) ≡ false → IsHeld dev v t (after_event ctx s e e' l' r)
      other q = record {
        light = p.light;
        object = rw q p.object;
        shows = p.shows;
        commands =
            All-update_found (CommandOf dev v t) (matches ctx) (λ _. e') s.lights
              (λ x _ _ k. absurd (ground (arith, (==_iff dev e.device).1 (sym k ∙ device))))
              p.commands;
      }

  handle_events-IsHeld :
      (dev v t : ℕ) (es : List (ℕ × WemoStateEvent)) (s : Bridge)
      → All (λ ev. ev.0 ≤ t) es
      → v < 256
      → IsWellFormed s
      → IsHeld dev v t s
      → (s' : Bridge) × (handle_events es s ≡ some s') × IsHeld dev v t s'
  unfolding handle_events
  handle_events-IsHeld dev v t [] s h small w p = (s, refl, p)
  handle_events-IsHeld dev v t ((now, ctx) ∷ es) s h small w p = elim (event_cases ctx now s w) [
    | inl (_, q) ↦ rw (q, handle_events) (handle_events-IsHeld dev v t es s h.1 small w p)
    | inr (e, e', l, l', r, reach) ↦
        rw (Reaches-handled ctx now s reach, handle_events)
          (handle_events-IsHeld dev v t es (after_event ctx s e e' l' r) h.1 small
            (after_event-IsWellFormed ctx now s w reach)
            (after_event-IsHeld dev v t ctx now s h.0 small w p reach))
  ]

  expired_devices :
      (dev now : ℕ) (s : Bridge)
      → map device_of (update_first (owns dev) (expire_on_off now) s.lights)
        ≡ map device_of s.lights
  expired_devices dev now s =
      map-update_first device_of (owns dev) (expire_on_off now) s.lights
        λ x _. (expire_on_off_identity now x).0.device

  after_level_write-IsWellFormed :
      (dev v now later : ℕ) (s : Bridge) (d : DeviceDimmable) (e : BridgedWemoLight)
      → IsWellFormed s
      → s.heap dev ≡ some (dimmable_light d)
      → IsWellFormed (after_level_write dev v now later s d e)
  after_level_write-IsWellFormed dev v now later s d e w object =
      let expired =
        lights-IsWellFormed s (owns dev) (expire_on_off now) s.effects w
          λ x _. (expire_on_off_identity now x).0 in
      let stored =
        store-IsWellFormed
          (record s {
            lights = update_first (owns dev) (expire_on_off now) s.lights;
            effects = s.effects;
          })
          dev (dimmable_light d) (dimmable_light (set_level v d).0) s.effects expired object refl in
      lights-IsWellFormed _ (owns dev) (command_level v later) _ stored
        λ x _. command_level_identity v later x

  after_level_write-IsHeld :
      (dev v now later : ℕ) (s : Bridge) (d : DeviceDimmable) (e : BridgedWemoLight)
      → IsWellFormed s
      → IsHeld dev v (later + k_command_settle_window) (after_level_write dev v now later s d e)
  after_level_write-IsHeld dev v now later s d e w = record {
    light = dimmable_light (set_level v d).0;
    object = rw ((==_iff dev dev).1 refl) refl;
    shows = set_level_level v d;
    commands =
        CommandOf-update_first dev v later (update_first (owns dev) (expire_on_off now) s.lights)
          (rw (expired_devices dev now s) w.distinct);
  }

  -- After a level write of 2 to 255 that is sent, every sequence of device events that are handled
  -- within the settle window, of any devices with any levels, is handled without a fault and leaves
  -- the light at the written level.
  pub commanded_level_holds :
      (dev v now later : ℕ) (s : Bridge) (es : List (ℕ × WemoStateEvent)) {d : DeviceDimmable}
      {e : BridgedWemoLight}
      → IsWellFormed s
      → find_first (owns dev) s.lights ≡ some e
      → s.heap dev ≡ some (dimmable_light d)
      → is_reachable (dimmable_light d) ≡ true
      → ¬ PendingOnOff true now e
      → ¬ PendingOnOff false now e
      → 2 ≤ v
      → v ≤ 255
      → All (λ ev. ev.0 ≤ later + k_command_settle_window) es
      → (s₁ : Bridge) × (s₂ : Bridge) × (l' : Light) × (handle_write_level_control_attribute dev
            LevelControlAttribute.current_level v now later s
          ≡ some (success, s₁))
        × (handle_events es s₁ ≡ some s₂)
        × (s₂.heap dev ≡ some l')
        × (level_of l' ≡ v)
  commanded_level_holds dev v now later s es {d} {e} w found object up a b low high h =
      let s₁ = after_level_write dev v now later s d e in
      let (s₂, q, p) =
        handle_events-IsHeld dev v (later + k_command_settle_window) es s₁ h (omega arith)
          (after_level_write-IsWellFormed dev v now later s d e w object)
          (after_level_write-IsHeld dev v now later s d e w) in
      (
        s₁,
        s₂,
        p.light,
        (level_write_sent dev v now later s w found object up a b low high).0,
        q,
        p.object,
        p.shows,
      )

-- ===== src/Bridge/Settle.antt =====
-- The settle window of on/off commands: what the device shows between a write and its end.
use wemo_matter_bridge.Prelude.{
  ℕ, ◌+◌, ◌≤◌, ◌≡◌, ◌≢◌, refl, sym, ◌∙◌, inl, inr, Bool, true, false, not, List, [], ◌∷◌, ◌++◌, map,
  some, arith, ◌==◌, ==_iff, All, All-update_found, All-find_first, Distinct, Bool-cases,
  find_first, find_first_holds, update_first,
}
use wemo_matter_bridge.Adapter.Types.{WemoStateEvent}
use wemo_matter_bridge.Device.Class.{Sdk, Report}
use wemo_matter_bridge.Device.Light.{Light, is_on, is_reachable}
use wemo_matter_bridge.Device.Light
use wemo_matter_bridge.Device.Setters.{is_on-set_on_off, is_dimmer-set_on_off}
use wemo_matter_bridge.Bridge.State.{
  Bridge, BridgedWemoLight, reported, started, Command, store, find_udn, owns, command_on_off,
  k_command_settle_window,
}
use wemo_matter_bridge.Bridge.Write.{
  success, OnOffAttribute, dispatch_on_off, handle_write_on_off_attribute,
}
use wemo_matter_bridge.Bridge.Event.{matches, handle_events}
use wemo_matter_bridge.Bridge.Event.Body.{apply_event_keeps}
use wemo_matter_bridge.Bridge.Event.Outcome.{apply_event-settled}
use wemo_matter_bridge.Bridge.Event.Handled.{after_event, Reaches, Reaches-handled, event_cases}
use wemo_matter_bridge.Bridge.WellFormed.{
  IsWellFormed, device_of, EntryOk, store-IsWellFormed, lights-IsWellFormed,
}
use wemo_matter_bridge.Bridge.Preserved.{after_event-IsWellFormed, command_on_off_identity}

-- Every entry of the device holds the command.
abbrev CommandOf : ℕ → Bool → ℕ → BridgedWemoLight → Type 0
CommandOf dev b t e =
    e.device ≡ dev → (e.commanded_on_off ≡ some b) × (e.commanded_on_off_until ≡ t)

CommandOf-others :
    (dev : ℕ) (b : Bool) (t : ℕ) (es : List BridgedWemoLight)
    → All (λ a. a ≢ dev) (map device_of es)
    → All (CommandOf dev b t) es
CommandOf-others dev b t [] h = tt
CommandOf-others dev b t (e ∷ es) h = (λ q. absurd (h.0 q), CommandOf-others dev b t es h.1)

CommandOf-update_first :
    (dev : ℕ) (b : Bool) (now : ℕ) (es : List BridgedWemoLight)
    → Distinct (map device_of es)
    → All
        (CommandOf dev b (now + k_command_settle_window))
        (update_first (owns dev) (command_on_off b now) es)
unfolding command_on_off
CommandOf-update_first dev b now [] d = tt
CommandOf-update_first dev b now (e ∷ es) d = elim (Bool-cases (e.device == dev)) [
  | inl q ↦
      let q' : e.device ≡ dev = (==_iff e.device dev).0 q in
      rw q (λ _. (refl, refl), CommandOf-others dev b _ es (rw q' at d.0))
  | inr q ↦ rw q (
    λ k. absurd (ground (arith, (==_iff e.device dev).1 k)),
    CommandOf-update_first dev b now es d.1,
  )
]

module _ ⦃c : Sdk⦄ where
  -- The light of the device is in the commanded state, and the command is held until `t`.
  record IsSettled (dev : ℕ) (b : Bool) (t : ℕ) (s : Bridge) : Type 0 where
    light : Light
    object : s.heap dev ≡ some light
    shows : is_on light ≡ b
    commands : All (CommandOf dev b t) s.lights

  after_event-IsSettled :
      (dev : ℕ) (b : Bool) (t : ℕ) (ctx : WemoStateEvent) (now : ℕ) (s : Bridge)
      {e e' : BridgedWemoLight} {l l' : Light} {r : List Report}
      → now ≤ t
      → IsSettled dev b t s
      → Reaches ctx now s e e' l l' r
      → IsSettled dev b t (after_event ctx s e e' l' r)
  after_event-IsSettled dev b t ctx now s {e} {e'} {l} {l'} {r} soon p h =
      elim (Bool-cases (dev == e.device)) [
        | inl q ↦ same ((==_iff dev e.device).0 q) q
        | inr q ↦ other q
      ]
    where
      device : e'.device ≡ e.device
      device = (apply_event_keeps ctx now e l {e' = e'} {l' = l'} {r = r} h.applied).0.device

      until : e'.commanded_on_off_until ≡ e.commanded_on_off_until
      until = (apply_event_keeps ctx now e l {e' = e'} {l' = l'} {r = r} h.applied).3

      command : CommandOf dev b t e
      command = All-find_first (CommandOf dev b t) (matches ctx) s.lights p.commands h.found

      same :
          dev ≡ e.device
          → (dev == e.device) ≡ true
          → IsSettled dev b t (after_event ctx s e e' l' r)
      same i q =
          let lights_same : l ≡ p.light = ground (arith, h.object, p.object) in
          let settled =
            apply_event-settled ctx now e l {e' = e'} {l' = l'} {r = r} h.applied b
              ((command (sym i)).0, rw ((command (sym i)).1) soon) (rw lights_same p.shows) in
          record {
            light = l';
            object = rw q refl;
            shows = settled.0;
            commands =
                All-update_found (CommandOf dev b t) (matches ctx) (λ _. e') s.lights
                  (λ x _ _ _. (settled.1, until ∙ (command (sym i)).1)) p.commands;
          }

      other : (dev == e.device) ≡ false → IsSettled dev b t (after_event ctx s e e' l' r)
      other q = record {
        light = p.light;
        object = rw q p.object;
        shows = p.shows;
        commands =
            All-update_found (CommandOf dev b t) (matches ctx) (λ _. e') s.lights
              (λ x _ _ k. absurd (ground (arith, (==_iff dev e.device).1 (sym k ∙ device))))
              p.commands;
      }

  handle_events-IsSettled :
      (dev : ℕ) (b : Bool) (t : ℕ) (es : List (ℕ × WemoStateEvent)) (s : Bridge)
      → All (λ ev. ev.0 ≤ t) es
      → IsWellFormed s
      → IsSettled dev b t s
      → (s' : Bridge) × (handle_events es s ≡ some s') × IsWellFormed s' × IsSettled dev b t s'
  unfolding handle_events
  handle_events-IsSettled dev b t [] s h w p = (s, refl, w, p)
  handle_events-IsSettled dev b t ((now, ctx) ∷ es) s h w p = elim (event_cases ctx now s w) [
    | inl (_, q) ↦ rw (q, handle_events) (handle_events-IsSettled dev b t es s h.1 w p)
    | inr (e, e', l, l', r, reach) ↦
        rw (Reaches-handled ctx now s reach, handle_events)
          (handle_events-IsSettled dev b t es (after_event ctx s e e' l' r) h.1
            (after_event-IsWellFormed ctx now s w reach)
            (after_event-IsSettled dev b t ctx now s h.0 p reach))
  ]

  -- The state after an on/off write to the light of an entry.
  abbrev pub after_write : ℕ → Bool → ℕ → Bridge → Light → BridgedWemoLight → Bridge
  after_write dev target now s l e =
      let (l', reports) = Light.set_on_off target l in
      record s {
        heap = store s.heap dev (some l');
        lights = update_first (owns dev) (command_on_off target now) s.lights;
        effects =
            (s.effects ++ map reported reports) ++ started (Command.set_on_off e.udn target) ∷ [];
      }

  pub find_udn_entry :
      (dev : ℕ) (s : Bridge) {e : BridgedWemoLight}
      → IsWellFormed s
      → find_first (owns dev) s.lights ≡ some e
      → find_udn dev s.device_to_udn ≡ some e.udn
  find_udn_entry dev s {e} w found =
      let ok = All-find_first (EntryOk s) (owns dev) s.lights w.entries found in
      let q = find_first_holds (owns dev) s.lights found in rw (← (==_iff e.device dev).0 q) ok.2

  -- An on/off write to a reachable light with an entry succeeds: the light takes the value of the
  -- byte, its change is reported, the command is recorded for the settle window, and one thread is
  -- started that sends it to the device of the entry.
  pub write_on_off_result :
      (dev byte now : ℕ) (s : Bridge) {l : Light} {e : BridgedWemoLight}
      → IsWellFormed s
      → find_first (owns dev) s.lights ≡ some e
      → s.heap dev ≡ some l
      → is_reachable l ≡ true
      → handle_write_on_off_attribute dev OnOffAttribute.on_off byte now s
        ≡ some (success, after_write dev (not (byte == 0)) now s l e)
  unfolding handle_write_on_off_attribute
  write_on_off_result dev byte now s {l} {e} w found object up =
      rw (object, handle_write_on_off_attribute)
        (rw up (rw (find_udn_entry dev s w found, dispatch_on_off) refl))

  pub after_write-IsWellFormed :
      (dev : ℕ) (target : Bool) (now : ℕ) (s : Bridge) {l : Light} (e : BridgedWemoLight)
      → IsWellFormed s
      → s.heap dev ≡ some l
      → IsWellFormed (after_write dev target now s l e)
  after_write-IsWellFormed dev target now s {l} e w object =
      lights-IsWellFormed
        (record s {
          heap = store s.heap dev (some (Light.set_on_off target l).0);
          effects = s.effects;
        })
        (owns dev) (command_on_off target now) _
        (store-IsWellFormed s dev l _ s.effects w object (is_dimmer-set_on_off target l))
        λ x _. command_on_off_identity target now x

  after_write-IsSettled :
      (dev : ℕ) (target : Bool) (now : ℕ) (s : Bridge) (l : Light) (e : BridgedWemoLight)
      → IsWellFormed s
      → IsSettled dev target (now + k_command_settle_window) (after_write dev target now s l e)
  after_write-IsSettled dev target now s l e w = record {
    light = (Light.set_on_off target l).0;
    object = rw ((==_iff dev dev).1 refl) refl;
    shows = is_on-set_on_off target l;
    commands = CommandOf-update_first dev target now s.lights w.distinct;
  }

  -- After a successful on/off write, every sequence of device events that are handled within the
  -- settle window, of any devices and any states, is handled without a fault and leaves the light
  -- in the written state.
  pub commanded_state_holds :
      (dev byte now : ℕ) (s : Bridge) (es : List (ℕ × WemoStateEvent)) {l : Light}
      {e : BridgedWemoLight}
      → IsWellFormed s
      → find_first (owns dev) s.lights ≡ some e
      → s.heap dev ≡ some l
      → is_reachable l ≡ true
      → All (λ ev. ev.0 ≤ now + k_command_settle_window) es
      → (s₁ : Bridge) × (s₂ : Bridge) × (l' : Light) × (handle_write_on_off_attribute dev
            OnOffAttribute.on_off byte now s
          ≡ some (success, s₁))
        × (handle_events es s₁ ≡ some s₂)
        × (s₂.heap dev ≡ some l')
        × (is_on l' ≡ not (byte == 0))
  commanded_state_holds dev byte now s es {l} {e} w found object up h =
      let target : Bool = not (byte == 0) in
      let s₁ = after_write dev target now s l e in
      let (s₂, q, _, p) =
        handle_events-IsSettled dev target (now + k_command_settle_window) es s₁ h
          (after_write-IsWellFormed dev target now s e w object)
          (after_write-IsSettled dev target now s l e w) in
      (s₁, s₂, p.light, write_on_off_result dev byte now s w found object up, q, p.object, p.shows)

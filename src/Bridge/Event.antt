-- ===== src/Bridge/Event.antt =====
-- State events of the WeMo devices: `HandleWemoEventOnMatterThread` of matter-bridge-app/main.cpp.
pub mod Body
pub mod Outcome
pub mod Handled
use wemo_matter_bridge.Prelude.{
  ℕ, ℤ, pos, negsuc, int_eq, ◌%◌, Bool, true, false, not, ◌&&◌, List, [], ◌∷◌, ◌++◌, map, Option,
  none, some, ◌==◌, if◌then◌else◌, find_first, update_first,
}
use wemo_matter_bridge.Level.{matter_level_of_percent}
use wemo_matter_bridge.Adapter.Types.{WemoStateEvent}
use wemo_matter_bridge.Device.Class.{Sdk, Report}
use wemo_matter_bridge.Device.Dimmable.{DeviceDimmable, set_level}
use wemo_matter_bridge.Device.Light.{Light, on_off_light, dimmable_light, is_on, is_reachable}
use wemo_matter_bridge.Device.Light
use wemo_matter_bridge.Bridge.State.{
  Bridge, BridgedWemoLight, Effect, reported, store, expire_on_off, expire_level,
}

abbrev pub bool_eq : Bool → Bool → Bool
bool_eq true b = b
bool_eq false b = not b

abbrev pub is_zero : ℤ → Bool
is_zero a = int_eq a (pos 0)

-- An event contradicts a command that is still pending.
unfoldable pub suppresses_on_off : Bool → BridgedWemoLight → Bool
suppresses_on_off new_on e = elim e.commanded_on_off [
  | none ↦ false
  | some b ↦ not (bool_eq new_on b)
]

unfoldable pub suppresses_level : ℕ → BridgedWemoLight → Bool
suppresses_level level e = elim e.commanded_level [ none ↦ false | some v ↦ not (level == v % 256) ]

abbrev pub matches : WemoStateEvent → BridgedWemoLight → Bool
matches ctx e = int_eq e.wemo_id ctx.wemo_id

module _ ⦃c : Sdk⦄ where
  unfoldable pub update_reachable : Bool → Light → Light × List Report
  unfolding Light.set_reachable
  update_reachable online l =
      if bool_eq (is_reachable l) online then (l, []) else Light.set_reachable online l

  unfoldable pub update_on_off : Bool → BridgedWemoLight → Light → Light × List Report
  unfolding suppresses_on_off Light.set_on_off
  update_on_off new_on e l =
      if not (suppresses_on_off new_on e) && not (bool_eq (is_on l) new_on)
      then Light.set_on_off new_on l
      else (l, [])

  unfoldable pub update_level : ℕ → BridgedWemoLight → DeviceDimmable → DeviceDimmable × List Report
  unfolding suppresses_level set_level
  update_level level e d =
      if not (suppresses_level level e) && not (d.level == level)
      then set_level level d
      else (d, [])

  -- The level part, for an entry that is dimmable and an event that has a level. `none` is the
  -- cast of a light that is no `DeviceDimmable`.
  unfoldable pub apply_level :
      ℤ → ℕ → BridgedWemoLight → Light → Option (BridgedWemoLight × Light × List Report)
  unfolding expire_level update_level matter_level_of_percent
  apply_level (negsuc n) now e l = some (e, l, [])
  apply_level (pos p) now e (on_off_light d) =
      if e.is_dimmable then none else some (e, on_off_light d, [])
  apply_level (pos p) now e (dimmable_light d) =
      let e' = expire_level now e in
      let (d', reports) = update_level (matter_level_of_percent p) e' d in
      if e.is_dimmable
      then some (e', dimmable_light d', reports)
      else some (e, dimmable_light d, [])

  -- The body of the loop at the entry that the event is for.
  unfoldable pub apply_event :
      WemoStateEvent
      → ℕ
      → BridgedWemoLight
      → Light
      → Option (BridgedWemoLight × Light × List Report)
  unfolding update_reachable update_on_off apply_level expire_on_off
  apply_event ctx now e l =
      let (l₁, r₁) = update_reachable ctx.is_online l in
      let e₁ = expire_on_off now e in
      let (l₂, r₂) = update_on_off (not (is_zero ctx.state)) e₁ l₁ in
      if ctx.is_online
      then (elim (apply_level ctx.level now e₁ l₂) [
        | none ↦ none
        | some (e₃, l₃, r₃) ↦ some (e₃, l₃, r₁ ++ (r₂ ++ r₃))
      ])
      else some (e, l₁, r₁)

  unfoldable pub handle_wemo_event_on_matter_thread : WemoStateEvent → ℕ → Bridge → Option Bridge
  unfolding apply_event
  handle_wemo_event_on_matter_thread ctx now s = elim (find_first (matches ctx) s.lights) [
    | none ↦ some s
    | some e ↦ elim (s.heap e.device) [
      | none ↦ none
      | some l ↦ elim (apply_event ctx now e l) [
        | none ↦ none
        | some (e', l', reports) ↦ some (record s {
          heap = store s.heap e.device (some l');
          lights = update_first (matches ctx) (λ _. e') s.lights;
          effects = s.effects ++ map reported reports;
        })
      ]
    ]
  ]

  unfoldable pub handle_events : List (ℕ × WemoStateEvent) → Bridge → Option Bridge
  handle_events [] s = some s
  handle_events ((now, ctx) ∷ es) s = elim (handle_wemo_event_on_matter_thread ctx now s) [
    | none ↦ none
    | some s' ↦ handle_events es s'
  ]

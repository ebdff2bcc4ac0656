-- ===== src/Demo/System.antt =====
-- The bridge of matter-bridge-app/main.cpp as one system: what the engine, the Matter stack, the
-- keyboard, the Actions cluster and the named pipe may do to it, in any order.
use mathlib.Core.Path.{subst}
use wemo_matter_bridge.Prelude.{
  ℕ, ◌≡◌, refl, sym, ap, inl, inr, Bool, Bool-cases, List, Option, none, some, text_eq, codes,
}
use wemo_matter_bridge.Adapter.Types.{WemoStateEvent}
use wemo_matter_bridge.Device.Class.{Sdk}
use wemo_matter_bridge.Device.Sensors.{SensorSdk}
use wemo_matter_bridge.Bridge.State.{Bridge}
use wemo_matter_bridge.Bridge.Write.{Status, AttributePath, external_attribute_write}
use wemo_matter_bridge.Bridge.Event.{handle_wemo_event_on_matter_thread}
use wemo_matter_bridge.Bridge.Sensors.{PowerSourceAttribute, no_error, power_source_read}
use wemo_matter_bridge.Bridge.Preserved.{handle_wemo_event-IsWellFormed}
use wemo_matter_bridge.Bridge.Keeps.{event-Keeps}
use wemo_matter_bridge.Bridge.Faults.{external_write-Keeps}
use wemo_matter_bridge.Demo.Class.{DemoSdk, JsonLibrary}
use wemo_matter_bridge.Demo.State.{Demo, with_bridge, on_light}
use wemo_matter_bridge.Demo.Keys.{handle_key, bump_version}
use wemo_matter_bridge.Demo.Rooms.{run_on_off_room_action}
use wemo_matter_bridge.Demo.Commands.{
  Handled, handled, died, faulted, or_faulted, k_name, handle_command,
}
use wemo_matter_bridge.Demo.Steps.{Ensures, handle_key-Kept, light1-Kept, bump_kind}
use wemo_matter_bridge.Demo.Safe.{IsSafe, IsSafe-IsClosed, framed-IsSafe}

module _ ⦃c : Sdk⦄ ⦃d : SensorSdk⦄ ⦃m : DemoSdk⦄ ⦃j : JsonLibrary⦄ where
  -- One thing that happens and does not fault.
  pub data Step (s t : Demo) : Type 0 where
    event :
        (ctx : WemoStateEvent) (now : ℕ) (b : Bridge)
        → handle_wemo_event_on_matter_thread ctx now s.bridge ≡ some b
        → t ≡ with_bridge s b
        → Step s t
    write :
        (endpoint : ℕ) (path : AttributePath) (buffer : List ℕ) (now later : ℕ)
        (r : Status × Bridge)
        → external_attribute_write endpoint path buffer now later s.bridge ≡ some r
        → t ≡ with_bridge s r.1
        → Step s t
    key : (unique_ids : Bool) (fuel ch : ℕ) → handle_key unique_ids fuel ch s ≡ some t → Step s t
    room_action :
        (room : m.Room) (on : Bool) (endpoint action_id invoke_id : ℕ) (has_invoke_id : Bool)
        → t ≡ (run_on_off_room_action room on endpoint action_id invoke_id has_invoke_id s).1
        → Step s t
    command : (value : j.Value) → handle_command value s ≡ handled t → Step s t

  pub data Reaches : Demo → Demo → Type 0 where
    here : {s : Demo} → Reaches s s
    after : {s t u : Demo} → Step s t → Reaches t u → Reaches s u

  handled_inj : {s t : Demo} → handled s ≡ handled t → ◌≡◌ {A = Option Demo} (some s) (some t)
  handled_inj e = ap result e
    where
      result : Handled Demo → Option Demo
      result (handled x) = some x
      result died = none
      result faulted = none

  abbrev Safe : Demo → Type 0
  Safe s = IsSafe s.bridge s.light1 s.light2

  handled-Safe : (o : Option Demo) (t : Demo) → Ensures IsSafe o → or_faulted o ≡ handled t → Safe t
  handled-Safe none t h e = cc
  handled-Safe (some s) t h e = subst (Ensures IsSafe) (handled_inj e) h

  handle_command-Safe :
      (value : j.Value) (s t : Demo) → handle_command value s ≡ handled t → Safe s → Safe t
  unfolding handle_command
  handle_command-Safe value s t e h = elim (Bool-cases (j.is_empty value)) [
    | inl q ↦ subst (Ensures IsSafe) (handled_inj (rw (q, handle_command) at e)) h
    | inr q ↦
        let name = j.as_string (j.get value k_name) in
        let e' = rw (q, handle_command) at e in
        elim (Bool-cases (text_eq name (codes "SimulateConfigurationVersionChange"))) [
          | inl p ↦
              handled-Safe (on_light s.light1 bump_version s) t
                (light1-Kept IsSafe IsSafe-IsClosed bump_version s bump_kind h) (rw p at e')
          | inr p ↦ absurd (cc (rw p at e'))
        ]
  ]

  Step-Safe : (s t : Demo) → Step s t → Safe s → Safe t
  unfolding run_on_off_room_action
  Step-Safe s t (event ctx now b e f) h =
      subst Safe (sym f) (framed-IsSafe h (event-Keeps ctx now s.bridge b h.well_formed e))
  Step-Safe s t (write endpoint path buffer now later r e f) h = subst Safe (sym f) (
      framed-IsSafe h
        (external_write-Keeps endpoint path buffer now later s.bridge h.well_formed e))
  Step-Safe s t (key unique_ids fuel ch e) h =
      subst (Ensures IsSafe) e (handle_key-Kept IsSafe IsSafe-IsClosed unique_ids fuel ch s h)
  Step-Safe s t (room_action room on endpoint action_id invoke_id has_invoke_id f) h =
      subst Safe (sym f) (IsSafe-IsClosed.effects s.light1 s.light2 s.bridge _ h)
  Step-Safe s t (command value e) h = handle_command-Safe value s t e h

  Reaches-Safe : {s t : Demo} → Safe s → Reaches s t → Safe t
  Reaches-Safe h here = h
  Reaches-Safe {s} h (after {t = v} st r) = Reaches-Safe (Step-Safe s v st h) r

  -- In every state that is reached, by steps that do not fault, from one with well-formed databases,
  -- the static lights alive and no power source: the same holds again, every event of the engine is
  -- handled without a fault, and every read of the power source answers no error without a value.
  pub reached-IsSafe :
      {s t : Demo} (ctx : WemoStateEvent) (now endpoint : ℕ) (source : ℕ → Option d.PowerSource)
      (attribute : PowerSourceAttribute)
      → IsSafe s.bridge s.light1 s.light2
      → Reaches s t
      → IsSafe t.bridge t.light1 t.light2
        × ((b : Bridge) × (handle_wemo_event_on_matter_thread ctx now t.bridge ≡ some b))
        × (power_source_read source endpoint attribute t.bridge ≡ some (no_error none))
  unfolding power_source_read
  reached-IsSafe {t = t} ctx now endpoint source attribute h r =
      let k = Reaches-Safe h r in
      let (b, e, _) = handle_wemo_event-IsWellFormed ctx now t.bridge k.well_formed in
      (k, (b, e), rw (k.no_power_source, power_source_read) refl)

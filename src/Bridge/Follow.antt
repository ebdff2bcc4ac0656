-- ===== src/Bridge/Follow.antt =====
-- Events that no pending command contradicts: the bridge shows what the device reports.
use wemo_matter_bridge.Prelude.{
  ℕ, pos, ◌%◌, ◌≡◌, ap, ◌∙◌, true, false, not, some, find_first, find_first_holds,
  find_first-update_first,
}
use wemo_matter_bridge.Level.{matter_level_of_percent}
use wemo_matter_bridge.Adapter.Types.{WemoStateEvent}
use wemo_matter_bridge.Device.Class.{Sdk}
use wemo_matter_bridge.Device.Setters.{level_of}
use wemo_matter_bridge.Device.Light.{Light, is_on, is_reachable}
use wemo_matter_bridge.Bridge.State.{Bridge, BridgedWemoLight}
use wemo_matter_bridge.Bridge.Event.{matches, is_zero, handle_wemo_event_on_matter_thread}
use wemo_matter_bridge.Bridge.Event.Body.{PendingOnOff, PendingLevel, apply_event_keeps}
use wemo_matter_bridge.Bridge.Event.Outcome.{
  apply_event-follows, apply_event-level_follows, apply_event-offline,
}
use wemo_matter_bridge.Bridge.Event.Handled.{
  after_event, Reaches-handled, found_Reaches, after_event_object,
}
use wemo_matter_bridge.Bridge.WellFormed.{IsWellFormed}

module _ ⦃c : Sdk⦄ where
  -- An event of an online device that no pending command of the other value contradicts: the light
  -- of the first entry with its id becomes reachable and takes the reported on/off state.
  pub event_sets_on_off :
      (ctx : WemoStateEvent) (now : ℕ) (s : Bridge) {e : BridgedWemoLight}
      → IsWellFormed s
      → find_first (matches ctx) s.lights ≡ some e
      → ctx.is_online ≡ true
      → ¬ PendingOnOff (is_zero ctx.state) now e
      → (s' : Bridge) × (l' : Light) × (handle_wemo_event_on_matter_thread ctx now s ≡ some s')
        × (s'.heap e.device ≡ some l')
        × (is_on l' ≡ not (is_zero ctx.state))
        × (is_reachable l' ≡ true)
  event_sets_on_off ctx now s {e} w found on free =
      let (e', l, l', r, h, _) = found_Reaches ctx now s w found in
      let keeps = apply_event_keeps ctx now e l {e' = e'} {l' = l'} {r = r} h.applied in
      (
        after_event ctx s e e' l' r,
        l',
        Reaches-handled ctx now s h,
        after_event_object ctx s e e' l' r,
        apply_event-follows ctx now e l {e' = e'} {l' = l'} {r = r} h.applied on free,
        keeps.1 ∙ on,
      )

  -- An event of an online dimmer with a level, no pending level command of another level standing
  -- against it: the light of the first entry with its id takes the Matter level of the percent.
  pub event_sets_level :
      (ctx : WemoStateEvent) (now p : ℕ) (s : Bridge) {e : BridgedWemoLight}
      → IsWellFormed s
      → find_first (matches ctx) s.lights ≡ some e
      → ctx.is_online ≡ true
      → e.is_dimmable ≡ true
      → ctx.level ≡ pos p
      → ((v : ℕ) → PendingLevel v now e → matter_level_of_percent p ≡ v % 256)
      → (s' : Bridge) × (l' : Light) × (handle_wemo_event_on_matter_thread ctx now s ≡ some s')
        × (s'.heap e.device ≡ some l')
        × (level_of l' ≡ matter_level_of_percent p)
  event_sets_level ctx now p s {e} w found on g k free =
      let (e', l, l', r, h, kind) = found_Reaches ctx now s w found in
      (
        after_event ctx s e e' l' r,
        l',
        Reaches-handled ctx now s h,
        after_event_object ctx s e e' l' r,
        apply_event-level_follows ctx now e l {e' = e'} {l' = l'} {r = r} h.applied p on g
            (kind ∙ g) k free,
      )

  -- An event of an offline device makes the light of the first entry with its id unreachable, and
  -- changes neither its on/off state, nor its level, nor a pending command.
  pub event_offline :
      (ctx : WemoStateEvent) (now : ℕ) (s : Bridge) {e : BridgedWemoLight}
      → IsWellFormed s
      → find_first (matches ctx) s.lights ≡ some e
      → ctx.is_online ≡ false
      → (s' : Bridge) × (l : Light) × (l' : Light) × (handle_wemo_event_on_matter_thread ctx now s
          ≡ some s')
        × (s.heap e.device ≡ some l)
        × (s'.heap e.device ≡ some l')
        × (is_reachable l' ≡ false)
        × (is_on l' ≡ is_on l)
        × (level_of l' ≡ level_of l)
        × (find_first (matches ctx) s'.lights ≡ some e)
  event_offline ctx now s {e} w found off =
      let (e', l, l', r, h, _) = found_Reaches ctx now s w found in
      let keeps = apply_event_keeps ctx now e l {e' = e'} {l' = l'} {r = r} h.applied in
      let same = apply_event-offline ctx now e l {e' = e'} {l' = l'} {r = r} h.applied off in
      (
        after_event ctx s e e' l' r,
        l,
        l',
        Reaches-handled ctx now s h,
        h.object,
        after_event_object ctx s e e' l' r,
        keeps.1 ∙ off,
        same.0,
        same.1,
        find_first-update_first (matches ctx) (λ _. e') s.lights found
              (rw same.2 (find_first_holds (matches ctx) s.lights found))
            ∙ ap some same.2,
      )

-- ===== src/Bridge/Event/Handled.antt =====
-- The cases of `HandleWemoEventOnMatterThread`: no entry is for the event, or the first that is.
use wemo_matter_bridge.Prelude.{
  ℕ, Bool, ◌≡◌, refl, ◌⊎◌, inl, inr, List, ◌++◌, map, Option, none, some, arith, Option-cases,
  All-find_first, find_first, update_first, ==_iff,
}
use wemo_matter_bridge.Adapter.Types.{WemoStateEvent}
use wemo_matter_bridge.Device.Class.{Sdk, Report}
use wemo_matter_bridge.Device.Light.{Light, is_dimmer}
use wemo_matter_bridge.Bridge.State.{Bridge, BridgedWemoLight, reported, store}
use wemo_matter_bridge.Bridge.Event.{matches, apply_event, handle_wemo_event_on_matter_thread}
use wemo_matter_bridge.Bridge.Event.Body.{apply_event_total}
use wemo_matter_bridge.Bridge.WellFormed.{IsWellFormed, Fits, EntryOk}

module _ ⦃c : Sdk⦄ where
  abbrev pub after_event :
      WemoStateEvent → Bridge → BridgedWemoLight → BridgedWemoLight → Light → List Report → Bridge
  after_event ctx s e e' l' r = record s {
    heap = store s.heap e.device (some l');
    lights = update_first (matches ctx) (λ _. e') s.lights;
    effects = s.effects ++ map reported r;
  }

  -- The event reaches the entry `e` with its light `l`, and makes `e'` and `l'` of them.
  pub record Reaches (ctx : WemoStateEvent) (now : ℕ) (s : Bridge) (e e' : BridgedWemoLight)
      (l l' : Light) (r : List Report) : Type 0 where
    pub found : find_first (matches ctx) s.lights ≡ some e
    pub object : s.heap e.device ≡ some l
    pub applied : apply_event ctx now e l ≡ some (e', l', r)

  pub Fits-object :
      (o : Option Light) (b : Bool) → Fits o b → (l : Light) × (o ≡ some l) × (is_dimmer l ≡ b)
  Fits-object none b f = absurd f
  Fits-object (some l) b f = (l, refl, f)

  pub Reaches-handled :
      (ctx : WemoStateEvent) (now : ℕ) (s : Bridge) {e e' : BridgedWemoLight} {l l' : Light}
      {r : List Report}
      → Reaches ctx now s e e' l l' r
      → handle_wemo_event_on_matter_thread ctx now s ≡ some (after_event ctx s e e' l' r)
  unfolding handle_wemo_event_on_matter_thread
  Reaches-handled ctx now s h =
      rw (h.found, handle_wemo_event_on_matter_thread) (ground (arith, h.object, h.applied))

  pub found_Reaches :
      (ctx : WemoStateEvent) (now : ℕ) (s : Bridge) {e : BridgedWemoLight}
      → IsWellFormed s
      → find_first (matches ctx) s.lights ≡ some e
      → (e' : BridgedWemoLight) × (l : Light) × (l' : Light) × (r : List Report) × Reaches ctx now s
          e e' l l' r
        × (is_dimmer l ≡ e.is_dimmable)
  found_Reaches ctx now s {e} w found =
      let ok = All-find_first (EntryOk s) (matches ctx) s.lights w.entries found in
      let (l, object, kind) = Fits-object (s.heap e.device) e.is_dimmable ok.0 in
      reach l object kind (apply_event ctx now e l) refl
    where
      reach :
          (l : Light)
          → s.heap e.device ≡ some l
          → is_dimmer l ≡ e.is_dimmable
          → (o : Option (BridgedWemoLight × Light × List Report)) → apply_event ctx now e l ≡ o
          → (e' : BridgedWemoLight) × (l : Light) × (l' : Light) × (r : List Report) × Reaches ctx
              now s e e' l l' r
            × (is_dimmer l ≡ e.is_dimmable)
      reach l object kind none q = absurd (apply_event_total ctx now e l kind q)
      reach l object kind (some (e', l', r)) q =
          (e', l, l', r, record { found = found; object = object; applied = q }, kind)

  pub event_cases :
      (ctx : WemoStateEvent) (now : ℕ) (s : Bridge)
      → IsWellFormed s
      → ((find_first (matches ctx) s.lights ≡ none)
          × (handle_wemo_event_on_matter_thread ctx now s ≡ some s))
        ⊎ ((e : BridgedWemoLight) × (e' : BridgedWemoLight) × (l : Light) × (l' : Light) × (r : List
              Report)
            × Reaches ctx now s e e' l l' r)
  unfolding handle_wemo_event_on_matter_thread
  event_cases ctx now s w = elim (Option-cases (find_first (matches ctx) s.lights)) [
    | inl none_found ↦ inl (none_found, rw (none_found, handle_wemo_event_on_matter_thread) refl)
    | inr (e, found) ↦
        let (e', l, l', r, h, _) = found_Reaches ctx now s w found in inr (e, e', l, l', r, h)
  ]

  pub after_event_object :
      (ctx : WemoStateEvent) (s : Bridge) (e e' : BridgedWemoLight) (l' : Light) (r : List Report)
      → (after_event ctx s e e' l' r).heap e.device ≡ some l'
  after_event_object ctx s e e' l' r = rw ((==_iff e.device e.device).1 refl) refl

-- ===== src/Demo/Started.antt =====
-- The start-up of matter-bridge-app/main.cpp leaves the static lights alone, and what holds in every
-- state that follows it.
use mathlib.Core.Path.{subst}
use wemo_matter_bridge.Prelude.{
  ℕ, ◌≤◌, ◌<◌, ◌≡◌, ◌≢◌, refl, ap, ◌∙◌, inl, inr, List, [], ◌∷◌, Option, none, some, some_inj,
  arith, leb, get_elem?, get_elem?-set_ne, set, length, Bool-cases, Option-cases,
}
use wemo_matter_bridge.Adapter.Types.{WemoDevice, WemoStateEvent}
use wemo_matter_bridge.Device.Class.{Sdk}
use wemo_matter_bridge.Device.Sensors.{SensorSdk}
use wemo_matter_bridge.Bridge.State.{Bridge}
use wemo_matter_bridge.Bridge.Write.{k_dynamic_endpoint_count}
use wemo_matter_bridge.Bridge.Event.{handle_wemo_event_on_matter_thread}
use wemo_matter_bridge.Bridge.Sensors.{PowerSourceAttribute, no_error, power_source_read}
use wemo_matter_bridge.Bridge.Endpoints.{add_device_endpoint}
use wemo_matter_bridge.Bridge.Startup.{
  new_light, push_entry, finish_publish, publish, publish_all, reset, application_init,
  sort_devices,
}
use wemo_matter_bridge.Bridge.WellFormed.{IsWellFormed, Live}
use wemo_matter_bridge.Bridge.Placed.{Moved, add_device_endpoint-Outcome, stored_self}
use wemo_matter_bridge.Bridge.Published.{published, dropped, published_heap, dropped_heap}
use wemo_matter_bridge.Bridge.Publish.{
  AddOutcome, publish-IsWellFormed, reset-IsWellFormed, application_init-IsWellFormed,
}
use wemo_matter_bridge.Demo.Class.{DemoSdk, JsonLibrary}
use wemo_matter_bridge.Demo.State.{Demo, with_bridge}
use wemo_matter_bridge.Demo.Safe.{IsSafe}
use wemo_matter_bridge.Demo.System.{Reaches, reached-IsSafe}

module _ ⦃c : Sdk⦄ where
  -- The objects below the next address and the slot behind the last endpoint stay.
  record Grows (s s' : Bridge) : Type 0 where
    kept : (a : ℕ) → a < s.next_address → s'.heap a ≡ s.heap a
    next : s.next_address ≤ s'.next_address
    last_slot :
        get_elem? s'.devices k_dynamic_endpoint_count ≡ get_elem? s.devices k_dynamic_endpoint_count

  Grows-refl : (s : Bridge) → Grows s s
  Grows-refl s = record { kept = λ a h. refl; next = omega arith; last_slot = refl }

  Grows-trans : {s t u : Bridge} → Grows s t → Grows t u → Grows s u
  Grows-trans f g = record {
    kept = λ a h. g.kept a (omega (arith, h, f.next)) ∙ f.kept a h;
    next = omega (arith, f.next, g.next);
    last_slot = g.last_slot ∙ f.last_slot;
  }

  -- Adding an endpoint changes no slot but one of an endpoint.
  added_last :
      (d : WemoDevice) (s : Bridge) (o : Option ℕ) (s₁ : Bridge)
      → AddOutcome d s o s₁
      → get_elem? s₁.devices k_dynamic_endpoint_count ≡ get_elem? s.devices k_dynamic_endpoint_count
  unfolding push_entry
  added_last d s o s₁ (inl (_, _, same)) =
      ap (λ t. get_elem? t.devices k_dynamic_endpoint_count) same
  added_last d s none s₁ (inr (index, inside, _, out)) =
      let differs : index ≢ k_dynamic_endpoint_count = λ e. omega (arith, inside, e) in
      rw out.0 (
        get_elem?-set_ne (set s.devices index (some s.next_address)) index k_dynamic_endpoint_count
          none differs
        ∙ get_elem?-set_ne s.devices index k_dynamic_endpoint_count (some s.next_address) differs)
  added_last d s (some i) s₁ (inr (index, inside, _, out)) = rw out.1 (
      get_elem?-set_ne s.devices index k_dynamic_endpoint_count (some s.next_address)
        (λ e. omega (arith, inside, e)))

  finished-Grows :
      (d : WemoDevice) (s : Bridge) (o : Option ℕ) (s₁ s' : Bridge)
      → IsWellFormed s
      → length s.lights < k_dynamic_endpoint_count
      → Moved s.next_address (new_light d) (push_entry d s) s₁
      → AddOutcome d s o s₁
      → finish_publish d s (o, s₁) ≡ some s'
      → Grows s s'
  unfolding finish_publish push_entry published dropped
  finished-Grows d s none s₁ s' w room m out h = subst (Grows s) (some_inj h) (record {
    kept = dropped_heap d s s₁ w room m;
    next = omega (arith, m.next);
    last_slot = added_last d s none s₁ out;
  })
  finished-Grows d s (some i) s₁ s' w room m out h =
      subst (Grows s) (some_inj (rw (m.object, finish_publish) at h)) (record {
        kept = published_heap d s s₁ w room m;
        next = omega (arith, m.next);
        last_slot = added_last d s (some i) s₁ out;
      })

  publish-Grows :
      (fuel : ℕ) (d : WemoDevice) (s s' : Bridge)
      → IsWellFormed s
      → publish fuel d s ≡ some s'
      → Grows s s'
  unfolding publish
  publish-Grows fuel d s s' w h =
      elim (Bool-cases (leb k_dynamic_endpoint_count (length s.lights))) [
        | inl full ↦ subst (Grows s) (some_inj (rw (full, publish) at h)) (Grows-refl s)
        | inr room ↦
            elim (Option-cases (add_device_endpoint fuel s.next_address 1 (push_entry d s))) [
              | inl q ↦ absurd (none-ne-some (rw (q, publish) at (rw (room, publish) at h)))
              | inr ((o, s₁), q) ↦
                  let (m, out) =
                    add_device_endpoint-Outcome fuel s.next_address 1 (push_entry d s) s₁ o
                      (stored_self s.heap s.next_address (some (new_light d))) q in
                  finished-Grows d s o s₁ s' w (ground arith) m (unfold push_entry in out)
                    (rw (q, publish) at (rw (room, publish) at h))
            ]
      ]
    where
      none-ne-some : none ≡ some s' → ⊥
      none-ne-some e = cc

  publish_all-Grows :
      (fuel : ℕ) (ds : List WemoDevice) (s s' : Bridge)
      → IsWellFormed s
      → publish_all fuel ds s ≡ some s'
      → Grows s s'
  unfolding publish_all
  publish_all-Grows fuel [] s s' w h = subst (Grows s) (some_inj h) (Grows-refl s)
  publish_all-Grows fuel (d ∷ ds) s s' w h = elim (Option-cases (publish fuel d s)) [
    | inl q ↦ absurd (none-ne-some (rw (q, publish_all) at h))
    | inr (s₁, q) ↦ Grows-trans (publish-Grows fuel d s s₁ w q) (
        publish_all-Grows fuel ds s₁ s' (publish-IsWellFormed fuel d s s₁ w q)
          (rw (q, publish_all) at h))
  ]
    where
      none-ne-some : none ≡ some s' → ⊥
      none-ne-some e = cc

  -- Before the start-up no light is published, and the static lights are there.
  pub record IsFresh (s : Bridge) (a b : ℕ) : Type 0 where
    pub no_lights : s.lights ≡ []
    pub live1 : Live (s.heap a)
    pub live2 : Live (s.heap b)
    pub below1 : a < s.next_address
    pub below2 : b < s.next_address

  application_init-IsSafe :
      (fuel last : ℕ) (discovered : List WemoDevice) (s s' : Bridge) (a b : ℕ)
      → IsFresh s a b
      → application_init fuel last discovered s ≡ some s'
      → IsSafe s' a b
  unfolding application_init reset
  application_init-IsSafe fuel last discovered s s' a b f h =
      let g =
        publish_all-Grows fuel (sort_devices discovered) (reset last s) s'
          (reset-IsWellFormed last s) h in
      record {
        well_formed = application_init-IsWellFormed fuel last discovered s s' h;
        live1 = rw (g.kept a f.below1) (unfreed a f.live1);
        live2 = rw (g.kept b f.below2) (unfreed b f.live2);
        below1 = omega (arith, g.next, f.below1);
        below2 = omega (arith, g.next, f.below2);
        no_power_source = g.last_slot;
      }
    where
      unfreed : (p : ℕ) → Live (s.heap p) → Live ((reset last s).heap p)
      unfreed p k = rw f.no_lights k

module _ ⦃c : Sdk⦄ ⦃d : SensorSdk⦄ ⦃m : DemoSdk⦄ ⦃j : JsonLibrary⦄ where
  -- Let no light be published and the static lights be there, let start-up end with whatever devices
  -- were discovered, and let any steps follow that do not fault: events, writes, keys, room actions
  -- and commands in any order. Then the databases are well formed, the static lights are there and no
  -- power source is in its slot, every event of the engine is handled without a fault, and every read
  -- of the power source answers no error without a value.
  pub started-IsSafe :
      (fuel last : ℕ) (discovered : List WemoDevice) (s t : Demo) (b : Bridge)
      (ctx : WemoStateEvent) (now endpoint : ℕ) (source : ℕ → Option d.PowerSource)
      (attribute : PowerSourceAttribute)
      → IsFresh s.bridge s.light1 s.light2
      → application_init fuel last discovered s.bridge ≡ some b
      → Reaches (with_bridge s b) t
      → IsSafe t.bridge t.light1 t.light2
        × ((b' : Bridge) × (handle_wemo_event_on_matter_thread ctx now t.bridge ≡ some b'))
        × (power_source_read source endpoint attribute t.bridge ≡ some (no_error none))
  started-IsSafe fuel last discovered s t b ctx now endpoint source attribute f h r =
      reached-IsSafe {s = with_bridge s b} {t = t} ctx now endpoint source attribute
        (application_init-IsSafe fuel last discovered s.bridge b s.light1 s.light2 f h) r

-- ===== src/Bridge/Frontier.antt =====
-- The start-up of matter-bridge-app/main.cpp ends: the ids from a frontier on are unused, and each
-- `AddDeviceEndpoint` moves the frontier by at most one.
use wemo_matter_bridge.Prelude.{
  ℕ, suc, ◌+◌, ◌%◌, ◌≤◌, ◌<◌, ◌≡◌, refl, ◌∙◌, inl, inr, false, List, [], ◌∷◌, Option, none, some,
  arith, leb, length, length-append, Bool-cases,
}
use wemo_matter_bridge.Adapter.Types.{WemoDevice}
use wemo_matter_bridge.Device.Class.{Sdk}
use wemo_matter_bridge.Device.Light.{Light}
use wemo_matter_bridge.Bridge.State.{Bridge, store}
use wemo_matter_bridge.Bridge.Write.{k_dynamic_endpoint_count}
use wemo_matter_bridge.Bridge.Startup.{
  new_light, new_entry, install_callback, push_entry, finish_publish, publish, publish_all, reset,
  application_init, sort_devices,
}
use wemo_matter_bridge.Bridge.WellFormed.{IsWellFormed}
use wemo_matter_bridge.Bridge.Placed.{Moved, add_device_endpoint-Outcome, stored_self}
use wemo_matter_bridge.Bridge.Publish.{application_init-IsWellFormed}
use wemo_matter_bridge.Bridge.Search.{Frontier, placed, add_ends}

module _ ⦃c : Sdk⦄ where
  -- What start-up keeps while it publishes: the ids used so far are at most as many as the lights.
  abbrev Ready : ℕ → ℕ → Bridge → Type 0
  Ready start f s =
      Frontier f s × (s.first_dynamic_endpoint_id ≡ start) × (f ≤ start + length s.lights)

  abbrev finished : WemoDevice → Bridge → Bridge → Light → Bridge
  finished d s s₁ light = record s₁ {
    heap = store s₁.heap s.next_address (some (install_callback light));
    device_to_udn = (s.next_address, d.udn) ∷ s₁.device_to_udn;
  }

  finish_ends :
      (d : WemoDevice) (s : Bridge) (start f : ℕ) (o : Option ℕ) (s₁ : Bridge)
      → Moved s.next_address (new_light d) (push_entry d s) s₁
      → Frontier f s₁
      → s₁.first_dynamic_endpoint_id ≡ start
      → f ≤ (start + length s.lights) + placed o
      → (s' : Bridge) × (g : ℕ) × (finish_publish d s (o, s₁) ≡ some s') × Ready start g s'
  unfolding finish_publish push_entry
  finish_ends d s start f none s₁ m w q h = (
    _,
    f,
    refl,
    (record { above = w.above; near = w.near; first = w.first; free = w.free }, q, omega arith),
  )
  finish_ends d s start f (some i) s₁ m w q h = (
    finished d s s₁ m.light,
    f,
    rw (m.object, finish_publish) refl,
    (
      record { above = w.above; near = w.near; first = w.first; free = w.free },
      q,
      rw m.lights (rw (length-append s.lights (new_entry d s.next_address ∷ [])) (omega arith)),
    ),
  )

  publish_ends :
      (n start f : ℕ) (d : WemoDevice) (s : Bridge)
      → start + k_dynamic_endpoint_count < 65536
      → Ready start f s
      → (s' : Bridge) × (g : ℕ) × (publish (suc (suc n)) d s ≡ some s') × Ready start g s'
  unfolding publish
  publish_ends n start f d s room (w, q, h) =
      elim (Bool-cases (leb k_dynamic_endpoint_count (length s.lights))) [
        | inl full ↦ (s, f, rw (full, publish) refl, (w, q, h))
        | inr free ↦
            let (o, s₁, g, ran, w₁, grown, kept_first) =
              add_ends n f s.next_address 1 (new_light d) (push_entry d s) pushed pushed_unused
                (ground arith) in
            let (m, _) =
              add_device_endpoint-Outcome (suc (suc n)) s.next_address 1 (push_entry d s) s₁ o
                pushed ran in
            let (s', g', fin, ready) =
              finish_ends d s start g o s₁ m w₁ (kept_first ∙ first_pushed) (omega arith) in
            (s', g', rw (free, publish) (rw (ran, publish) fin), ready)
      ]
    where
      pushed : (push_entry d s).heap s.next_address ≡ some (new_light d)
      pushed = stored_self s.heap s.next_address (some (new_light d))

      first_pushed : (push_entry d s).first_dynamic_endpoint_id ≡ start
      first_pushed = q

      pushed_unused : Frontier f (push_entry d s)
      pushed_unused = record { above = w.above; near = w.near; first = w.first; free = w.free }

  publish_all_ends :
      (n start f : ℕ) (ds : List WemoDevice) (s : Bridge)
      → start + k_dynamic_endpoint_count < 65536
      → Ready start f s
      → (s' : Bridge) × (publish_all (suc (suc n)) ds s ≡ some s')
  unfolding publish_all
  publish_all_ends n start f [] s room ready = (s, refl)
  publish_all_ends n start f (d ∷ ds) s room ready =
      let (s₁, g, ran, ready₁) = publish_ends n start f d s room ready in
      let (s', all) = publish_all_ends n start g ds s₁ room ready₁ in
      (s', rw (ran, publish_all) all)

  -- Let at least 17 ids follow the last fixed endpoint's id, and none of the ids after it be in use.
  -- Then start-up ends, whatever devices were discovered and whatever state it starts in, with two
  -- rounds of search for each device, and leaves the databases well formed: every entry has a live
  -- object of its kind and the udn map holds its udn, no two entries share an object, every filled
  -- endpoint slot points to a live object, there are at most 16 entries, and the table has 17 slots.
  pub application_init_ends :
      (n last : ℕ) (discovered : List WemoDevice) (s : Bridge)
      → last + 17 < 65536
      → ((k : ℕ) → last < k → k < 65536 → c.is_used s.endpoints k ≡ false)
      → (s' : Bridge) × (application_init (suc (suc n)) last discovered s ≡ some s')
        × IsWellFormed s'
  unfolding application_init reset
  application_init_ends n last discovered s room free =
      let (s', ran) =
        publish_all_ends n (last + 1) (last + 1) (sort_devices discovered) (reset last s)
          (omega arith) started_up in
      (s', ran, application_init-IsWellFormed (suc (suc n)) last discovered s s' ran)
    where
      first_is : (last + 1) % 65536 ≡ last + 1
      first_is = omega arith

      started_up : Ready (last + 1) (last + 1) (reset last s)
      started_up = (
        record {
          above = omega (arith, first_is);
          near = omega (arith, first_is);
          first = omega arith;
          free = λ k lo hi. free k (omega arith) hi;
        },
        first_is,
        omega arith,
      )

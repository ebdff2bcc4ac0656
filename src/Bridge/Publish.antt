-- ===== src/Bridge/Publish.antt =====
-- `ApplicationInit` of matter-bridge-app/main.cpp sets up well-formed databases.
use mathlib.Core.Path.{subst}
use wemo_matter_bridge.Prelude.{
  ℕ, ◌<◌, ◌≡◌, ◌≢◌, refl, ap, inl, inr, ◌⊎◌, List, [], ◌∷◌, Option, none, some, some_inj, arith,
  leb, get_elem?, set, length, Bool-cases, Option-cases, All-imp, All-replicate,
}
use wemo_matter_bridge.Adapter.Types.{WemoDevice}
use wemo_matter_bridge.Device.Class.{Sdk}
use wemo_matter_bridge.Bridge.State.{Bridge}
use wemo_matter_bridge.Bridge.Write.{k_dynamic_endpoint_count}
use wemo_matter_bridge.Bridge.Endpoints.{add_device_endpoint}
use wemo_matter_bridge.Bridge.Startup.{
  new_light, push_entry, finish_publish, publish, publish_all, reset, application_init,
  sort_devices,
}
use wemo_matter_bridge.Bridge.WellFormed.{IsWellFormed, SlotOk}
use wemo_matter_bridge.Bridge.Placed.{Moved, Outcome, add_device_endpoint-Outcome, stored_self}
use wemo_matter_bridge.Bridge.Published.{
  published, dropped, dropped_slot, published-IsWellFormed, dropped-IsWellFormed, dropped_cleared,
}

module _ ⦃c : Sdk⦄ where
  abbrev pub AddOutcome : WemoDevice → Bridge → Option ℕ → Bridge → Type 0
  AddOutcome d s o s₁ =
      (((i : ℕ) → i < k_dynamic_endpoint_count → get_elem? s.devices i ≢ some none)
        × (o ≡ none)
        × (s₁ ≡ push_entry d s))
      ⊎ ((index : ℕ) × (index < k_dynamic_endpoint_count)
          × (get_elem? s.devices index ≡ some none)
          × Outcome s.next_address index
              (record (push_entry d s) { devices = set s.devices index (some s.next_address) }) o
              s₁)

  finished-IsWellFormed :
      (d : WemoDevice) (s : Bridge) (o : Option ℕ) (s₁ s' : Bridge)
      → IsWellFormed s
      → length s.lights < k_dynamic_endpoint_count
      → Moved s.next_address (new_light d) (push_entry d s) s₁
      → AddOutcome d s o s₁
      → finish_publish d s (o, s₁) ≡ some s'
      → IsWellFormed s'
  unfolding finish_publish push_entry published dropped
  finished-IsWellFormed d s none s₁ s' w room m (inl (_, _, same)) h =
      subst IsWellFormed (some_inj h) (
        dropped-IsWellFormed d s s₁ w room m s.devices (ap (λ t. t.devices) same)
          (All-imp s.devices (dropped_slot d s s₁ w room m) w.slots) w.size)
  finished-IsWellFormed d s (some i) s₁ s' w room m (inl (_, e, _)) h = cc
  finished-IsWellFormed d s none s₁ s' w room m (inr (index, _, _, out)) h =
      subst IsWellFormed (some_inj h) (dropped_cleared d s s₁ w room m index out.0)
  finished-IsWellFormed d s (some i) s₁ s' w room m (inr (index, _, _, out)) h =
      subst IsWellFormed (some_inj (rw (m.object, finish_publish) at h))
        (published-IsWellFormed d s s₁ w room m index out.1)

  pub publish-IsWellFormed :
      (fuel : ℕ) (d : WemoDevice) (s s' : Bridge)
      → IsWellFormed s
      → publish fuel d s ≡ some s'
      → IsWellFormed s'
  unfolding publish
  publish-IsWellFormed fuel d s s' w h =
      elim (Bool-cases (leb k_dynamic_endpoint_count (length s.lights))) [
        | inl full ↦ subst IsWellFormed (some_inj (rw (full, publish) at h)) w
        | inr room ↦
            elim (Option-cases (add_device_endpoint fuel s.next_address 1 (push_entry d s))) [
              | inl q ↦ absurd (none-ne-some (rw (q, publish) at (rw (room, publish) at h)))
              | inr ((o, s₁), q) ↦
                  let (m, out) =
                    add_device_endpoint-Outcome fuel s.next_address 1 (push_entry d s) s₁ o pushed
                      q in
                  finished-IsWellFormed d s o s₁ s' w (ground arith) m (unfold push_entry in out)
                    (rw (q, publish) at (rw (room, publish) at h))
            ]
      ]
    where
      pushed : (push_entry d s).heap s.next_address ≡ some (new_light d)
      pushed = stored_self s.heap s.next_address (some (new_light d))

      none-ne-some : none ≡ some s' → ⊥
      none-ne-some e = cc

  publish_all-IsWellFormed :
      (fuel : ℕ) (ds : List WemoDevice) (s s' : Bridge)
      → IsWellFormed s
      → publish_all fuel ds s ≡ some s'
      → IsWellFormed s'
  unfolding publish_all
  publish_all-IsWellFormed fuel [] s s' w h = subst IsWellFormed (some_inj h) w
  publish_all-IsWellFormed fuel (d ∷ ds) s s' w h = elim (Option-cases (publish fuel d s)) [
    | inl q ↦ absurd (none-ne-some (rw (q, publish_all) at h))
    | inr (s₁, q) ↦
        publish_all-IsWellFormed fuel ds s₁ s' (publish-IsWellFormed fuel d s s₁ w q)
          (rw (q, publish_all) at h)
  ]
    where
      none-ne-some : none ≡ some s' → ⊥
      none-ne-some e = cc

  pub reset-IsWellFormed : (last : ℕ) (s : Bridge) → IsWellFormed (reset last s)
  unfolding reset
  reset-IsWellFormed last s = record {
    entries = tt;
    distinct = tt;
    slots = All-replicate (SlotOk (reset last s)) 17 none tt;
    capacity = omega arith;
    size = refl;
  }

  -- A start-up that ends leaves the databases well formed.
  pub application_init-IsWellFormed :
      (fuel last : ℕ) (discovered : List WemoDevice) (s s' : Bridge)
      → application_init fuel last discovered s ≡ some s'
      → IsWellFormed s'
  unfolding application_init
  application_init-IsWellFormed fuel last discovered s s' h =
      publish_all-IsWellFormed fuel (sort_devices discovered) (reset last s) s'
        (reset-IsWellFormed last s) h

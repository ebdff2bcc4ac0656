-- ===== src/Bridge/Assign.antt =====
-- `AddDeviceEndpoint` of matter-bridge-app/main.cpp: it ends, and what it leaves behind.
use wemo_matter_bridge.Prelude.{
  ℕ, zero, suc, ◌-◌, ◌≤◌, ◌<◌, ◌≡◌, ◌≢◌, refl, ◌∙◌, inl, inr, ◌⊎◌, false, Option, none, some, arith,
  set, Option-cases,
}
use wemo_matter_bridge.Device.Class.{Sdk, ChipError, no_error, endpoint_exists, other_error}
use wemo_matter_bridge.Device.Light.{Light, on_off_light, dimmable_light, is_dimmer, endpoint_of}
use wemo_matter_bridge.Bridge.State.{Bridge, store}
use wemo_matter_bridge.Bridge.Write.{k_dynamic_endpoint_count}
use wemo_matter_bridge.Bridge.Endpoints.{
  free_slot, next_endpoint_id, ensure_unique_id, place, add_loop, add_device_endpoint,
}
use wemo_matter_bridge.Bridge.Slots.{candidate, candidate_reaches}

pub ChipError-cases : (e : ChipError) → (e ≡ no_error) ⊎ (e ≡ endpoint_exists) ⊎ (e ≡ other_error)
ChipError-cases no_error = inl refl
ChipError-cases endpoint_exists = inr (inl refl)
ChipError-cases other_error = inr (inr refl)

module _ ⦃c : Sdk⦄ where
  pub place_kind : (e p : ℕ) (l : Light) → is_dimmer (place e p l) ≡ is_dimmer l
  unfolding place
  place_kind e p (on_off_light d) = refl
  place_kind e p (dimmable_light d) = refl

  pub place_endpoint : (e p : ℕ) (l : Light) → endpoint_of (place e p l) ≡ e
  unfolding place
  place_endpoint e p (on_off_light d) =
      c.endpoint_id-set_parent_endpoint_id p _ ∙ c.endpoint_id-set_endpoint_id e d.object
  place_endpoint e p (dimmable_light d) =
      c.endpoint_id-set_parent_endpoint_id p _ ∙ c.endpoint_id-set_endpoint_id e d.on_off.object

  pub ensure_kind : (l : Light) → is_dimmer (ensure_unique_id l) ≡ is_dimmer l
  unfolding ensure_unique_id
  ensure_kind (on_off_light d) = ground arith
  ensure_kind (dimmable_light d) = ground arith

  pub ensure_endpoint : (l : Light) → endpoint_of (ensure_unique_id l) ≡ endpoint_of l
  unfolding ensure_unique_id
  ensure_endpoint (on_off_light d) = ground (arith, c.endpoint_id-generate_unique_id d.object)
  ensure_endpoint (dimmable_light d) =
      ground (arith, c.endpoint_id-generate_unique_id d.on_off.object)

  -- The state in which the next id is tried.
  abbrev pub retried : ℕ → ℕ → ℕ → Light → Bridge → Bridge
  retried dev index parent light s = record s {
    heap = store s.heap dev (some (place s.current_endpoint_id parent light));
    endpoints = (c.set_dynamic_endpoint index s.current_endpoint_id s.endpoints).1;
    current_endpoint_id = next_endpoint_id s.first_dynamic_endpoint_id s.current_endpoint_id;
  }

  abbrev IsFree : Bridge → ℕ → Type 0
  IsFree s k =
      c.is_used s.endpoints (candidate s.first_dynamic_endpoint_id s.current_endpoint_id k) ≡ false

  -- After a refusal because the id is in use, the free id is one round nearer.
  nearer :
      (fuel dev index parent k : ℕ) (light : Light) (s : Bridge)
      → k < suc fuel
      → IsFree s k
      → (c.set_dynamic_endpoint index s.current_endpoint_id s.endpoints).0 ≡ endpoint_exists
      → (j : ℕ) × (j < fuel) × IsFree (retried dev index parent light s) j
  unfolding candidate
  nearer fuel dev index parent zero light s h free q =
      absurd (ground (arith, c.endpoint_exists_used index s.current_endpoint_id s.endpoints q))
  nearer fuel dev index parent (suc k) light s h free q = (
    k,
    omega arith,
    rw (c.refused_unchanged index s.current_endpoint_id s.endpoints (λ e. ground arith)) free,
  )

  -- With an id that is not in use within the rounds that the fuel allows, the loop ends.
  add_loop_total :
      (fuel dev index parent k : ℕ) (light : Light) (s : Bridge)
      → k < fuel
      → IsFree s k
      → add_loop fuel dev index parent light s ≢ none
  unfolding add_loop
  add_loop_total zero dev index parent k light s h free = absurd (omega arith)
  add_loop_total (suc fuel) dev index parent k light s h free =
      elim (ChipError-cases (c.set_dynamic_endpoint index s.current_endpoint_id s.endpoints).0) [
        | inl q ↦ rw (q, add_loop) (λ e. cc)
        | inr (inr q) ↦ rw (q, add_loop) (λ e. cc)
        | inr (inl q) ↦
            let (j, near, free') = nearer fuel dev index parent k light s h free q in
            rw (q, add_loop)
              (add_loop_total fuel dev index parent j (place s.current_endpoint_id parent light)
                (retried dev index parent light s) near free')
      ]

  -- For a live device pointer, and as long as some dynamic id is not in use, the search of
  -- `AddDeviceEndpoint` ends within one round trip through the dynamic ids, from whatever id it
  -- starts; the fuel is the number of those ids.
  pub add_device_endpoint_terminates :
      (dev parent target : ℕ) (s : Bridge) {l : Light}
      → s.heap dev ≡ some l
      → s.first_dynamic_endpoint_id ≤ s.current_endpoint_id
      → s.current_endpoint_id < 65536
      → s.first_dynamic_endpoint_id ≤ target
      → target < 65536
      → c.is_used s.endpoints target ≡ false
      → (r : Option ℕ × Bridge) × (add_device_endpoint
            (65536 - s.first_dynamic_endpoint_id)
            dev
            parent
            s
          ≡ some r)
  unfolding add_device_endpoint
  add_device_endpoint_terminates dev parent target s {l} object a b lo hi free =
      elim (Option-cases (free_slot k_dynamic_endpoint_count s.devices)) [
        | inl q ↦ ((none, s), rw (q, add_device_endpoint) refl)
        | inr (index, q) ↦
            rw (q, add_device_endpoint) (rw (object, add_device_endpoint) (ends index))
      ]
    where
      fuel : ℕ
      fuel = 65536 - s.first_dynamic_endpoint_id

      reach :
          (k : ℕ) × (k < 65536 - s.first_dynamic_endpoint_id)
          × (candidate s.first_dynamic_endpoint_id s.current_endpoint_id k ≡ target)
      reach = candidate_reaches s.first_dynamic_endpoint_id s.current_endpoint_id target a b lo hi

      ends :
          (index : ℕ)
          → (r : Option ℕ × Bridge) × (add_loop fuel dev index parent l
                (record s { devices = set s.devices index (some dev) })
              ≡ some r)
      ends index =
          elim (Option-cases (
            add_loop fuel dev index parent l
              (record s { devices = set s.devices index (some dev) }))) [
                | inr found ↦ found
                | inl q ↦ absurd (
                    add_loop_total fuel dev index parent reach.0 l
                      (record s { devices = set s.devices index (some dev) }) reach.1
                      (rw reach.2 free) q)
              ]

-- ===== src/Bridge/Search.antt =====
-- How `AddDeviceEndpoint` of matter-bridge-app/main.cpp moves the frontier from which on all endpoint
-- ids are unused: by at most one, and in at most two rounds.
use wemo_matter_bridge.Prelude.{
  ℕ, suc, ◌+◌, ◌≤◌, ◌<◌, ◌≡◌, ◌≢◌, refl, ◌∙◌, inl, inr, false, Option, none, some, arith, ◌==◌,
  ==_iff, set, Bool-cases, Option-cases,
}
use wemo_matter_bridge.Device.Class.{Sdk, no_error, endpoint_exists}
use wemo_matter_bridge.Device.Light.{Light}
use wemo_matter_bridge.Bridge.State.{Bridge}
use wemo_matter_bridge.Bridge.Write.{k_dynamic_endpoint_count}
use wemo_matter_bridge.Bridge.Endpoints.{
  free_slot, next_endpoint_id, place, add_loop, add_device_endpoint,
}
use wemo_matter_bridge.Bridge.Assign.{ChipError-cases, retried}
use wemo_matter_bridge.Bridge.Placed.{kept, cleared}

module _ ⦃c : Sdk⦄ where
  -- No id from `f` on is in use, and the search of the next id starts at `f` or right before it.
  pub record Frontier (f : ℕ) (s : Bridge) : Type 0 where
    pub above : s.current_endpoint_id ≤ f
    pub near : f ≤ s.current_endpoint_id + 1
    pub first : s.first_dynamic_endpoint_id ≤ s.current_endpoint_id
    pub free : (k : ℕ) → f ≤ k → k < 65536 → c.is_used s.endpoints k ≡ false

  abbrev pub placed : Option ℕ → ℕ
  placed none = 0
  placed (some i) = 1

  -- The result of a search that ends, with the frontier that it leaves.
  abbrev pub Searched : ℕ → ℕ → Option (Option ℕ × Bridge) → Type 0
  Searched f start result =
      (o : Option ℕ) × (s' : Bridge) × (f' : ℕ) × (result ≡ some (o, s'))
      × Frontier f' s'
      × (f' ≤ f + placed o)
      × (s'.first_dynamic_endpoint_id ≡ start)

  accepted_unused :
      (f index : ℕ) (s : Bridge)
      → Frontier f s
      → (c.set_dynamic_endpoint index s.current_endpoint_id s.endpoints).0 ≡ no_error
      → (k : ℕ) → s.current_endpoint_id + 1 ≤ k
      → f ≤ k
      → k < 65536
      → c.is_used (c.set_dynamic_endpoint index s.current_endpoint_id s.endpoints).1 k ≡ false
  accepted_unused f index s w q k far lo hi =
      c.accepted_used index s.current_endpoint_id s.endpoints k q
      ∙ rw (w.free k lo hi, differs) refl
    where
      differs : (k == s.current_endpoint_id) ≡ false
      differs = ground arith

  -- A round that ends the search, in success or in failure.
  round_ends :
      (n f dev index parent : ℕ) (l : Light) (s : Bridge)
      → Frontier f s
      → (c.set_dynamic_endpoint index s.current_endpoint_id s.endpoints).0 ≢ endpoint_exists
      → Searched f s.first_dynamic_endpoint_id (add_loop (suc n) dev index parent l s)
  unfolding add_loop
  round_ends n f dev index parent l s w ne =
      elim (ChipError-cases (c.set_dynamic_endpoint index s.current_endpoint_id s.endpoints).0) [
        | inl q ↦ (
          some index,
          kept dev index parent l s,
          s.current_endpoint_id + 1,
          rw (q, add_loop) refl,
          record {
            above = omega arith;
            near = omega arith;
            first = w.first;
            free = λ k lo hi. accepted_unused f index s w q k lo (omega (arith, w.near)) hi;
          },
          omega (arith, w.above),
          refl,
        )
        | inr (inl q) ↦ absurd (ne q)
        | inr (inr q) ↦ (
          none,
          cleared dev index parent l s,
          f,
          rw (q, add_loop) refl,
          record {
            above = w.above;
            near = w.near;
            first = w.first;
            free = λ k lo hi.
                rw (c.refused_unchanged index s.current_endpoint_id s.endpoints (λ e. ground arith))
                  (w.free k lo hi);
          },
          omega arith,
          refl,
        )
      ]

  -- Two rounds are enough: at most the id before the frontier is in use.
  search_ends :
      (n f dev index parent : ℕ) (l : Light) (s : Bridge)
      → Frontier f s
      → f < 65536
      → Searched f s.first_dynamic_endpoint_id (add_loop (suc (suc n)) dev index parent l s)
  unfolding add_loop next_endpoint_id
  search_ends n f dev index parent l s w small =
      elim (ChipError-cases (c.set_dynamic_endpoint index s.current_endpoint_id s.endpoints).0) [
        | inl q ↦ round_ends (suc n) f dev index parent l s w (λ e. ground arith)
        | inr (inr q) ↦ round_ends (suc n) f dev index parent l s w (λ e. ground arith)
        | inr (inl q) ↦
            rw (q, add_loop)
              (round_ends n f dev index parent (place s.current_endpoint_id parent l)
                (retried dev index parent l s) (advanced q) (unused q))
      ]
    where
      behind :
          (c.set_dynamic_endpoint index s.current_endpoint_id s.endpoints).0 ≡ endpoint_exists
          → f ≡ s.current_endpoint_id + 1
      behind q = elim (Bool-cases (f == s.current_endpoint_id)) [
        | inl e ↦
            let used = c.endpoint_exists_used index s.current_endpoint_id s.endpoints q in
            let unused =
              w.free s.current_endpoint_id (omega (arith, (==_iff f s.current_endpoint_id).0 e))
                (omega (arith, w.above)) in
            absurd (cc)
        | inr e ↦ ground (arith, w.above, w.near)
      ]

      next_is :
          (c.set_dynamic_endpoint index s.current_endpoint_id s.endpoints).0 ≡ endpoint_exists
          → next_endpoint_id s.first_dynamic_endpoint_id s.current_endpoint_id ≡ f
      next_is q = let b = behind q in ground (arith, b, w.first)

      advanced :
          (c.set_dynamic_endpoint index s.current_endpoint_id s.endpoints).0 ≡ endpoint_exists
          → Frontier f (retried dev index parent l s)
      advanced q = record {
        above = rw (next_is q) (omega arith);
        near = rw (next_is q) (omega arith);
        first = rw (next_is q) (omega (arith, w.above, w.first));
        free = λ k lo hi.
            rw (c.refused_unchanged index s.current_endpoint_id s.endpoints (λ e. ground arith))
              (w.free k lo hi);
      }

      unused :
          (c.set_dynamic_endpoint index s.current_endpoint_id s.endpoints).0 ≡ endpoint_exists
          → (c.set_dynamic_endpoint index
              (next_endpoint_id s.first_dynamic_endpoint_id s.current_endpoint_id)
              (c.set_dynamic_endpoint index s.current_endpoint_id s.endpoints).1).0
            ≢ endpoint_exists
      unused q e =
          let used =
            c.endpoint_exists_used index
              (next_endpoint_id s.first_dynamic_endpoint_id s.current_endpoint_id)
              (c.set_dynamic_endpoint index s.current_endpoint_id s.endpoints).1 e in
          let unused_id : c.is_used
                (c.set_dynamic_endpoint index s.current_endpoint_id s.endpoints).1
                (next_endpoint_id s.first_dynamic_endpoint_id s.current_endpoint_id)
              ≡ false =
            rw (next_is q) ((advanced q).free f (omega arith) small) in
          absurd (cc)

  pub add_ends :
      (n f dev parent : ℕ) (l : Light) (s : Bridge)
      → s.heap dev ≡ some l
      → Frontier f s
      → f < 65536
      → Searched f s.first_dynamic_endpoint_id (add_device_endpoint (suc (suc n)) dev parent s)
  unfolding add_device_endpoint
  add_ends n f dev parent l s object w small =
      elim (Option-cases (free_slot k_dynamic_endpoint_count s.devices)) [
        | inl q ↦ (none, s, f, rw (q, add_device_endpoint) refl, w, omega arith, refl)
        | inr (index, q) ↦
            rw (q, add_device_endpoint)
              (rw (object, add_device_endpoint)
                (search_ends n f dev index parent l
                  (record s { devices = set s.devices index (some dev) })
                  (record { above = w.above; near = w.near; first = w.first; free = w.free })
                  small))
      ]

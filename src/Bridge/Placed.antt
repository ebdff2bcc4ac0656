-- ===== src/Bridge/Placed.antt =====
-- What `AddDeviceEndpoint` of matter-bridge-app/main.cpp leaves behind, when it succeeds and when it
-- fails.
use wemo_matter_bridge.Prelude.{
  ℕ, zero, suc, ◌<◌, ◌≡◌, ◌≢◌, refl, sym, ap, ◌∙◌, inl, inr, true, false, Option, none, some,
  some_inj, arith, ◌⊎◌, ◌==◌, ==_iff, get_elem?, set, Bool-cases, Option-cases,
}
use mathlib.Core.Path.{subst}
use wemo_matter_bridge.Device.Class.{Sdk, no_error, endpoint_exists, other_error}
use wemo_matter_bridge.Device.Light.{Light, is_dimmer, endpoint_of}
use wemo_matter_bridge.Bridge.State.{Bridge, store}
use wemo_matter_bridge.Bridge.Write.{k_dynamic_endpoint_count}
use wemo_matter_bridge.Bridge.Endpoints.{
  free_slot, ensure_unique_id, place, add_loop, add_device_endpoint,
}
use wemo_matter_bridge.Bridge.Slots.{free_slot_found, free_slot_full}
use wemo_matter_bridge.Bridge.Assign.{
  ChipError-cases, place_kind, place_endpoint, ensure_kind, ensure_endpoint, retried,
}

module _ ⦃c : Sdk⦄ where
  -- The object behind `dev` is a light of the same kind, and all else that is no endpoint is as it was.
  pub record Moved (dev : ℕ) (l : Light) (s s' : Bridge) : Type 0 where
    pub lights : s'.lights ≡ s.lights
    pub udns : s'.device_to_udn ≡ s.device_to_udn
    pub next : s'.next_address ≡ s.next_address
    pub effects : s'.effects ≡ s.effects
    pub others : (d : ℕ) → d ≢ dev → s'.heap d ≡ s.heap d
    pub light : Light
    pub object : s'.heap dev ≡ some light
    pub kind : is_dimmer light ≡ is_dimmer l

  -- Success: the slot is left as it was filled, the endpoint id of the light was not in use, and is
  -- now. Failure: the slot is cleared, and the stack's table is as it was.
  abbrev pub Outcome : ℕ → ℕ → Bridge → Option ℕ → Bridge → Type 0
  Outcome dev index s (some i) s' =
      (i ≡ index)
      × (s'.devices ≡ s.devices)
      × ((l : Light) × (s'.heap dev ≡ some l)
          × (c.is_used s.endpoints (endpoint_of l) ≡ false)
          × (c.is_used s'.endpoints (endpoint_of l) ≡ true))
  Outcome dev index s none s' =
      (s'.devices ≡ set s.devices index none) × (s'.endpoints ≡ s.endpoints)

  pub stored_self : (h : ℕ → Option Light) (a : ℕ) (o : Option Light) → store h a o a ≡ o
  stored_self h a o = rw ((==_iff a a).1 refl) refl

  pub stored_other :
      (h : ℕ → Option Light) (a : ℕ) (o : Option Light) (d : ℕ) → d ≢ a → store h a o d ≡ h d
  stored_other h a o d ne = elim (Bool-cases (d == a)) [
    | inl e ↦ absurd (ne ((==_iff d a).0 e))
    | inr e ↦ rw e refl
  ]

  Outcome-retried :
      (dev index parent : ℕ) (l : Light) (s : Bridge) (o : Option ℕ) (s' : Bridge)
      → (c.set_dynamic_endpoint index s.current_endpoint_id s.endpoints).0 ≡ endpoint_exists
      → Outcome dev index (retried dev index parent l s) o s'
      → Outcome dev index s o s'
  Outcome-retried dev index parent l s none s' q h =
      (h.0, h.1 ∙ c.refused_unchanged index s.current_endpoint_id s.endpoints (λ e. ground arith))
  Outcome-retried dev index parent l s (some i) s' q h = (
    h.0,
    h.1,
    (
      h.2.0,
      h.2.1,
      rw (sym (c.refused_unchanged index s.current_endpoint_id s.endpoints (λ e. ground arith)))
          h.2.2,
      h.2.3,
    ),
  )

  -- The states in which the loop ends.
  abbrev pub kept : ℕ → ℕ → ℕ → Light → Bridge → Bridge
  kept dev index parent l s = record s {
    heap = store s.heap dev (some (ensure_unique_id (place s.current_endpoint_id parent l)));
    endpoints = (c.set_dynamic_endpoint index s.current_endpoint_id s.endpoints).1;
  }

  abbrev pub cleared : ℕ → ℕ → ℕ → Light → Bridge → Bridge
  cleared dev index parent l s = record s {
    heap = store s.heap dev (some (place s.current_endpoint_id parent l));
    endpoints = (c.set_dynamic_endpoint index s.current_endpoint_id s.endpoints).1;
    devices = set s.devices index none;
  }

  accepted :
      (dev index parent : ℕ) (l : Light) (s : Bridge)
      → (c.set_dynamic_endpoint index s.current_endpoint_id s.endpoints).0 ≡ no_error
      → Moved dev l s (kept dev index parent l s)
        × Outcome dev index s (some index) (kept dev index parent l s)
  accepted dev index parent l s q =
      let placed = place s.current_endpoint_id parent l in
      let id : endpoint_of (ensure_unique_id placed) ≡ s.current_endpoint_id =
        ensure_endpoint placed ∙ place_endpoint s.current_endpoint_id parent l in
      (
        record {
          lights = refl;
          udns = refl;
          next = refl;
          effects = refl;
          others = λ d ne. stored_other s.heap dev _ d ne;
          light = ensure_unique_id placed;
          object = stored_self s.heap dev _;
          kind = ensure_kind placed ∙ place_kind s.current_endpoint_id parent l;
        },
        (
          refl,
          refl,
          (
            ensure_unique_id placed,
            stored_self s.heap dev _,
            rw id (c.accepted_fresh index s.current_endpoint_id s.endpoints q),
            rw id (
                ground (
                  arith,
                  c.accepted_used index s.current_endpoint_id s.endpoints s.current_endpoint_id q,
                )),
          ),
        ),
      )

  refused :
      (dev index parent : ℕ) (l : Light) (s : Bridge)
      → (c.set_dynamic_endpoint index s.current_endpoint_id s.endpoints).0 ≡ other_error
      → Moved dev l s (cleared dev index parent l s)
        × Outcome dev index s none (cleared dev index parent l s)
  refused dev index parent l s q = (
    record {
      lights = refl;
      udns = refl;
      next = refl;
      effects = refl;
      others = λ d ne. stored_other s.heap dev _ d ne;
      light = place s.current_endpoint_id parent l;
      object = stored_self s.heap dev _;
      kind = place_kind s.current_endpoint_id parent l;
    },
    (refl, c.refused_unchanged index s.current_endpoint_id s.endpoints (λ e. ground arith)),
  )

  add_loop-Outcome :
      (fuel dev index parent : ℕ) (l : Light) (s : Bridge) (o : Option ℕ) (s' : Bridge)
      → add_loop fuel dev index parent l s ≡ some (o, s')
      → Moved dev l s s' × Outcome dev index s o s'
  unfolding add_loop
  add_loop-Outcome zero dev index parent l s o s' h = absurd (cc)
  add_loop-Outcome (suc fuel) dev index parent l s o s' h =
      elim (ChipError-cases (c.set_dynamic_endpoint index s.current_endpoint_id s.endpoints).0) [
        | inl q ↦
            subst (λ r. Moved dev l s r.1 × Outcome dev index s r.0 r.1)
              (some_inj (rw (q, add_loop) at h)) (accepted dev index parent l s q)
        | inr (inr q) ↦
            subst (λ r. Moved dev l s r.1 × Outcome dev index s r.0 r.1)
              (some_inj (rw (q, add_loop) at h)) (refused dev index parent l s q)
        | inr (inl q) ↦
            let (m, out) =
              add_loop-Outcome fuel dev index parent (place s.current_endpoint_id parent l)
                (retried dev index parent l s) o s' (rw (q, add_loop) at h) in
            (
              record {
                lights = m.lights;
                udns = m.udns;
                next = m.next;
                effects = m.effects;
                others = λ d ne. m.others d ne ∙ stored_other s.heap dev _ d ne;
                light = m.light;
                object = m.object;
                kind = m.kind ∙ place_kind s.current_endpoint_id parent l;
              },
              Outcome-retried dev index parent l s o s' q out,
            )
      ]

  pub add_device_endpoint-Outcome :
      (fuel dev parent : ℕ) (s s' : Bridge) (o : Option ℕ) {l : Light}
      → s.heap dev ≡ some l
      → add_device_endpoint fuel dev parent s ≡ some (o, s')
      → Moved dev l s s'
        × ((((i : ℕ) → i < k_dynamic_endpoint_count → get_elem? s.devices i ≢ some none)
              × (o ≡ none)
              × (s' ≡ s))
            ⊎ ((index : ℕ) × (index < k_dynamic_endpoint_count)
                × (get_elem? s.devices index ≡ some none)
                × Outcome dev index (record s { devices = set s.devices index (some dev) }) o s'))
  unfolding add_device_endpoint
  add_device_endpoint-Outcome fuel dev parent s s' o {l} object h =
      elim (Option-cases (free_slot k_dynamic_endpoint_count s.devices)) [
        | inl q ↦
            let same = some_inj (rw (q, add_device_endpoint) at h) in
            let none_left : none ≡ o = ap (λ r. r.0) same in
            let unchanged : s ≡ s' = ap (λ r. r.1) same in
            (
              subst (λ t. Moved dev l s t) unchanged
                  (record {
                    lights = refl;
                    udns = refl;
                    next = refl;
                    effects = refl;
                    others = λ d ne. refl;
                    light = l;
                    object = object;
                    kind = refl;
                  }),
              inl (
                free_slot_full k_dynamic_endpoint_count s.devices q,
                sym none_left,
                sym unchanged,
              ),
            )
        | inr (index, q) ↦
            let (below, null) = free_slot_found k_dynamic_endpoint_count s.devices index q in
            let (m, out) =
              add_loop-Outcome fuel dev index parent l
                (record s { devices = set s.devices index (some dev) }) o s'
                (rw (object, add_device_endpoint) at (rw (q, add_device_endpoint) at h)) in
            (
              record {
                lights = m.lights;
                udns = m.udns;
                next = m.next;
                effects = m.effects;
                others = m.others;
                light = m.light;
                object = m.object;
                kind = m.kind;
              },
              inr (index, below, null, out),
            )
      ]

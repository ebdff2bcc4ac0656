-- ===== src/Bridge/Endpoints.antt =====
-- The table of dynamic endpoints: `AddDeviceEndpoint` and `RemoveDeviceEndpoint` of
-- matter-bridge-app/main.cpp.
use wemo_matter_bridge.Prelude.{
  ℕ, zero, suc, ◌+◌, ◌%◌, List, [], ◌∷◌, Option, none, some, ◌==◌, ltb, if◌then◌else◌, set,
  is_empty,
}
use wemo_matter_bridge.Device.Class.{Sdk, no_error, endpoint_exists, other_error}
use wemo_matter_bridge.Device.Light.{Light, base, with_object}
use wemo_matter_bridge.Bridge.State.{Bridge, store}
use wemo_matter_bridge.Bridge.Write.{k_dynamic_endpoint_count}

-- The first of the first `n` slots that is null.
unfoldable pub free_slot : ℕ → List (Option ℕ) → Option ℕ
free_slot zero slots = none
free_slot (suc n) [] = none
free_slot (suc n) (none ∷ slots) = some 0
free_slot (suc n) (some d ∷ slots) = elim (free_slot n slots) [
  | none ↦ none
  | some i ↦ some (suc i)
]

-- The first of the first `n` slots that holds the pointer.
unfoldable pub slot_of : ℕ → ℕ → List (Option ℕ) → Option ℕ
slot_of zero dev slots = none
slot_of (suc n) dev [] = none
slot_of (suc n) dev (none ∷ slots) = elim (slot_of n dev slots) [
  | none ↦ none
  | some i ↦ some (suc i)
]
slot_of (suc n) dev (some d ∷ slots) =
    if d == dev
    then some 0
    else (elim (slot_of n dev slots) [ none ↦ none | some i ↦ some (suc i) ])

-- `if (++gCurrentEndpointId < gFirstDynamicEndpointId) gCurrentEndpointId = gFirstDynamicEndpointId`
-- on uint16_t.
unfoldable pub next_endpoint_id : ℕ → ℕ → ℕ
next_endpoint_id first id = let n = (id + 1) % 65536 in if ltb n first then first else n

module _ ⦃c : Sdk⦄ where
  -- `if (dev->GetUniqueId()[0] == '\0') dev->GenerateUniqueId()`.
  unfoldable pub ensure_unique_id : Light → Light
  ensure_unique_id l =
      if is_empty (c.get_unique_id (base l).object)
      then with_object l (c.generate_unique_id (base l).object)
      else l

  unfoldable pub place : ℕ → ℕ → Light → Light
  place endpoint parent l =
      with_object l (c.set_parent_endpoint_id parent (c.set_endpoint_id endpoint (base l).object))

  -- The `while (true)` loop, with fuel for its rounds; `none` means that the fuel ran out. The light
  -- is the object behind `dev`, and the result is the index, or `none` for -1.
  unfoldable pub add_loop : ℕ → ℕ → ℕ → ℕ → Light → Bridge → Option (Option ℕ × Bridge)
  unfolding place ensure_unique_id next_endpoint_id
  add_loop zero dev index parent light s = none
  add_loop (suc fuel) dev index parent light s =
      let light' = place s.current_endpoint_id parent light in
      let answer = c.set_dynamic_endpoint index s.current_endpoint_id s.endpoints in
      let s' = record s { heap = store s.heap dev (some light'); endpoints = answer.1 } in
      elim answer.0 [
        | no_error ↦
            some
              (some index, record s' { heap = store s.heap dev (some (ensure_unique_id light')) })
        | other_error ↦ some (none, record s' { devices = set s.devices index none })
        | endpoint_exists ↦ add_loop fuel dev index parent light' (record s' {
          current_endpoint_id = next_endpoint_id s.first_dynamic_endpoint_id s.current_endpoint_id;
        })
      ]

  -- `AddDeviceEndpoint` for the light behind `dev`; a dangling `dev` has no result.
  unfoldable pub add_device_endpoint : ℕ → ℕ → ℕ → Bridge → Option (Option ℕ × Bridge)
  unfolding free_slot add_loop
  add_device_endpoint fuel dev parent s = elim (free_slot k_dynamic_endpoint_count s.devices) [
    | none ↦ some (none, s)
    | some index ↦ elim (s.heap dev) [
      | none ↦ none
      | some light ↦
          add_loop fuel dev index parent light
            (record s { devices = set s.devices index (some dev) })
    ]
  ]

  -- `RemoveDeviceEndpoint`: the index, or `none` for -1.
  unfoldable pub remove_device_endpoint : ℕ → Bridge → Option ℕ × Bridge
  unfolding slot_of
  remove_device_endpoint dev s = elim (slot_of k_dynamic_endpoint_count dev s.devices) [
    | none ↦ (none, s)
    | some index ↦ (
      some index,
      record s {
        endpoints = c.clear_dynamic_endpoint index s.endpoints;
        devices = set s.devices index none;
      },
    )
  ]

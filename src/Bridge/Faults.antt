-- ===== src/Bridge/Faults.antt =====
-- When `emberAfExternalAttributeWriteCallback` of matter-bridge-app/main.cpp faults, and what it
-- leaves behind when it does not.
use mathlib.Core.Path.{subst}
use wemo_matter_bridge.Prelude.{
  ℕ, zero, suc, [], ◌∷◌, ◌<◌, ◌≡◌, ◌≢◌, ◌↔◌, ◌⊎◌, refl, sym, ◌∙◌, inl, inr, Bool, true, false, not,
  List, Option, none, some, some_inj, arith, ltb, ltb→lt, lt→ltb, if◌then◌else◌, length, get_elem?,
  All-get_elem?, Bool-cases,
}
use wemo_matter_bridge.Device.Class.{Sdk}
use wemo_matter_bridge.Device.Light.{Light, on_off_light, dimmable_light, is_dimmer, is_reachable}
use wemo_matter_bridge.Bridge.State.{Bridge}
use wemo_matter_bridge.Bridge.Write.{
  Status, failure, AttributePath, on_off_path, level_control_path, bridged_basic_path,
  temperature_path, other_path, BasicAttribute, is_node_label, k_dynamic_endpoint_count,
  k_node_label_size, first_byte, write_light, handle_write_level_control_attribute,
  handle_write_bridged_device_basic_attribute, external_attribute_write,
}
use wemo_matter_bridge.Bridge.WellFormed.{IsWellFormed, SlotOk, Live}
use wemo_matter_bridge.Bridge.Preserved.{
  write_on_off-IsWellFormed, write_level_control-IsWellFormed,
}
use wemo_matter_bridge.Bridge.Keeps.{Frame-refl, Keeps, light-Keeps}

-- The slot at an index.
get_elem-cases :
    (xs : List (Option ℕ)) (i : ℕ)
    → i < length xs
    → (get_elem? xs i ≡ some none) ⊎ ((d : ℕ) × (get_elem? xs i ≡ some (some d)))
get_elem-cases [] i h = absurd (omega (arith, h))
get_elem-cases (none ∷ xs) zero h = inl refl
get_elem-cases (some d ∷ xs) zero h = inr (d, refl)
get_elem-cases (x ∷ xs) (suc i) h = get_elem-cases xs i (omega (arith, h))

module _ ⦃c : Sdk⦄ where
  pub Live-object : (o : Option Light) → Live o → (l : Light) × (o ≡ some l)
  Live-object none h = absurd h
  Live-object (some l) h = (l, refl)

  -- In a well-formed state a slot of the table is empty or holds a light.
  pub slot_cases :
      (endpoint : ℕ) (s : Bridge)
      → IsWellFormed s
      → c.dynamic_index s.endpoints endpoint < k_dynamic_endpoint_count
      → (get_elem? s.devices (c.dynamic_index s.endpoints endpoint) ≡ some none)
        ⊎ ((dev : ℕ) × (l : Light) × (get_elem? s.devices (c.dynamic_index s.endpoints endpoint)
              ≡ some (some dev))
            × (s.heap dev ≡ some l))
  slot_cases endpoint s w inside =
      elim (get_elem-cases s.devices (c.dynamic_index s.endpoints endpoint)
        (omega (arith, inside, w.size))) [
          | inl e ↦ inl e
          | inr (dev, e) ↦
              let (l, object) =
                Live-object (s.heap dev) (All-get_elem? (SlotOk s) s.devices _ w.slots e).0 in
              inr (dev, l, e, object)
        ]

  -- The callback at the slot of a light.
  at_light :
      (endpoint dev : ℕ) (path : AttributePath) (buffer : List ℕ) (now later : ℕ) (s : Bridge)
      (l : Light)
      → c.dynamic_index s.endpoints endpoint < k_dynamic_endpoint_count
      → get_elem? s.devices (c.dynamic_index s.endpoints endpoint) ≡ some (some dev)
      → s.heap dev ≡ some l
      → external_attribute_write endpoint path buffer now later s
        ≡ (if is_reachable l then write_light dev path buffer now later s else some (failure, s))
  unfolding external_attribute_write
  at_light endpoint dev path buffer now later s l inside slot object =
      rw (lt→ltb _ _ inside, external_attribute_write)
        (rw (slot, external_attribute_write) (rw (object, external_attribute_write) refl))

  at_null :
      (endpoint : ℕ) (path : AttributePath) (buffer : List ℕ) (now later : ℕ) (s : Bridge)
      → c.dynamic_index s.endpoints endpoint < k_dynamic_endpoint_count
      → get_elem? s.devices (c.dynamic_index s.endpoints endpoint) ≡ some none
      → external_attribute_write endpoint path buffer now later s ≡ none
  unfolding external_attribute_write
  at_null endpoint path buffer now later s inside slot =
      rw (lt→ltb _ _ inside, external_attribute_write) (rw (slot, external_attribute_write) refl)

  outside :
      (endpoint : ℕ) (path : AttributePath) (buffer : List ℕ) (now later : ℕ) (s : Bridge)
      → ltb (c.dynamic_index s.endpoints endpoint) k_dynamic_endpoint_count ≡ false
      → external_attribute_write endpoint path buffer now later s ≡ some (failure, s)
  unfolding external_attribute_write
  outside endpoint path buffer now later s e = rw (e, external_attribute_write) refl

  pub external_write-Keeps :
      (endpoint : ℕ) (path : AttributePath) (buffer : List ℕ) (now later : ℕ) (s : Bridge)
      {r : Status × Bridge}
      → IsWellFormed s
      → external_attribute_write endpoint path buffer now later s ≡ some r
      → Keeps s r
  external_write-Keeps endpoint path buffer now later s {r} w h =
      elim (Bool-cases (ltb (c.dynamic_index s.endpoints endpoint) k_dynamic_endpoint_count)) [
        | inr e ↦
            subst (Keeps s) (some_inj (sym (outside endpoint path buffer now later s e) ∙ h))
              (w, Frame-refl s)
        | inl e ↦
            let inside = ltb→lt _ _ e in
            elim (slot_cases endpoint s w inside) [
              | inl empty ↦
                  absurd
                    (none-ne-some (sym (at_null endpoint path buffer now later s inside empty) ∙ h))
              | inr (dev, l, slot, object) ↦
                  written dev l object
                    (sym (at_light endpoint dev path buffer now later s l inside slot object) ∙ h)
            ]
      ]
    where
      none-ne-some : none ≡ some r → ⊥
      none-ne-some e = cc

      written :
          (dev : ℕ) (l : Light)
          → s.heap dev ≡ some l
          → (if is_reachable l then write_light dev path buffer now later s else some (failure, s))
            ≡ some r
          → Keeps s r
      written dev l object k = elim (Bool-cases (is_reachable l)) [
        | inl up ↦ light-Keeps dev path buffer now later s l w object (rw up at k)
        | inr down ↦ subst (Keeps s) (some_inj (rw down at k)) (w, Frame-refl s)
      ]

  abbrev pub is_level_path : AttributePath → Bool
  is_level_path (level_control_path a) = true
  is_level_path _ = false

  basic_total :
      (dev : ℕ) (a : BasicAttribute) (buffer : List ℕ) (s : Bridge) {l : Light}
      → s.heap dev ≡ some l
      → handle_write_bridged_device_basic_attribute dev a buffer s ≢ none
  unfolding handle_write_bridged_device_basic_attribute
  basic_total dev a buffer s object = elim (Bool-cases (not (is_node_label a))) [
    | inl q ↦ rw (q, handle_write_bridged_device_basic_attribute) (λ e. cc)
    | inr q ↦
        rw (q, handle_write_bridged_device_basic_attribute)
          (elim (Bool-cases (ltb k_node_label_size (length (c.from_zcl_string buffer)))) [
            | inl long ↦ rw long (λ e. cc)
            | inr fits ↦
                rw fits (rw (object, handle_write_bridged_device_basic_attribute) (λ e. cc))
          ])
  ]

  none_of : {A : Type 0} {o : Option A} {x : A} → o ≡ some x → o ≢ none
  none_of e f = cc

  -- With a light behind the pointer only the cast of a plain light to a dimmer faults.
  light_faults :
      (dev : ℕ) (path : AttributePath) (buffer : List ℕ) (now later : ℕ) (s : Bridge) (l : Light)
      → IsWellFormed s
      → s.heap dev ≡ some l
      → write_light dev path buffer now later s ≡ none
      → (is_dimmer l ≡ false) × (is_level_path path ≡ true)
  unfolding write_light
  light_faults dev (on_off_path a) buffer now later s l w object h =
      absurd (none_of (write_on_off-IsWellFormed dev a (first_byte buffer) now s w object).1 h)
  light_faults dev (level_control_path a) buffer now later s (on_off_light d) w object h =
      (refl, refl)
  light_faults dev (level_control_path a) buffer now later s (dimmable_light d) w object h =
      absurd (
        none_of (write_level_control-IsWellFormed dev a (first_byte buffer) now later s w object).1
          h)
  light_faults dev (bridged_basic_path a) buffer now later s l w object h =
      absurd (basic_total dev a buffer s object h)
  light_faults dev temperature_path buffer now later s l w object h = absurd (none_of refl h)
  light_faults dev other_path buffer now later s l w object h = absurd (none_of refl h)

  cast_faults :
      (dev : ℕ) (path : AttributePath) (buffer : List ℕ) (now later : ℕ) (s : Bridge) (l : Light)
      → s.heap dev ≡ some l
      → is_dimmer l ≡ false
      → is_level_path path ≡ true
      → write_light dev path buffer now later s ≡ none
  unfolding write_light handle_write_level_control_attribute
  cast_faults dev (level_control_path a) buffer now later s (on_off_light d) object plain level =
      rw (object, handle_write_level_control_attribute) refl
  cast_faults dev (level_control_path a) buffer now later s (dimmable_light d) object plain level =
      cc
  cast_faults dev (on_off_path a) buffer now later s l object plain level = cc
  cast_faults dev (bridged_basic_path a) buffer now later s l object plain level = cc
  cast_faults dev temperature_path buffer now later s l object plain level = cc
  cast_faults dev other_path buffer now later s l object plain level = cc

  -- The slot of the endpoint is empty, or it holds a reachable plain light and the cluster is level
  -- control.
  abbrev pub Faults : ℕ → AttributePath → Bridge → Type 0
  Faults endpoint path s =
      (c.dynamic_index s.endpoints endpoint < k_dynamic_endpoint_count)
      × ((get_elem? s.devices (c.dynamic_index s.endpoints endpoint) ≡ some none)
          ⊎ ((dev : ℕ) × (l : Light) × (get_elem? s.devices (c.dynamic_index s.endpoints endpoint)
                ≡ some (some dev))
              × (s.heap dev ≡ some l)
              × (is_reachable l ≡ true)
              × (is_dimmer l ≡ false)
              × (is_level_path path ≡ true)))

  -- In a well-formed state the write callback faults exactly if the index of the endpoint is in the
  -- table and either its slot is empty, or the slot holds a reachable light that is no dimmer and the
  -- write is to the level control cluster.
  pub external_write-Faults :
      (endpoint : ℕ) (path : AttributePath) (buffer : List ℕ) (now later : ℕ) (s : Bridge)
      → IsWellFormed s
      → (external_attribute_write endpoint path buffer now later s ≡ none) ↔ Faults endpoint path s
  external_write-Faults endpoint path buffer now later s w = (forward, backward)
    where
      at_slot :
          (dev : ℕ) (l : Light)
          → s.heap dev ≡ some l
          → (if is_reachable l then write_light dev path buffer now later s else some (failure, s))
            ≡ none
          → (is_reachable l ≡ true) × (is_dimmer l ≡ false) × (is_level_path path ≡ true)
      at_slot dev l object k = elim (Bool-cases (is_reachable l)) [
        | inl up ↦
            let (plain, level) = light_faults dev path buffer now later s l w object (rw up at k) in
            (up, plain, level)
        | inr down ↦ absurd (none_of refl (rw down at k))
      ]

      forward :
          external_attribute_write endpoint path buffer now later s ≡ none → Faults endpoint path s
      forward h =
          elim (Bool-cases (ltb (c.dynamic_index s.endpoints endpoint) k_dynamic_endpoint_count)) [
            | inr e ↦ absurd (none_of (outside endpoint path buffer now later s e) h)
            | inl e ↦
                let inside = ltb→lt _ _ e in
                elim (slot_cases endpoint s w inside) [
                  | inl empty ↦ (inside, inl empty)
                  | inr (dev, l, slot, object) ↦
                      let (up, plain, level) = at_slot dev l object (
                        sym (at_light endpoint dev path buffer now later s l inside slot object)
                        ∙ h) in
                      (inside, inr (dev, l, slot, object, up, plain, level))
                ]
          ]

      backward :
          Faults endpoint path s → external_attribute_write endpoint path buffer now later s ≡ none
      backward (inside, inl empty) = at_null endpoint path buffer now later s inside empty
      backward (inside, inr (dev, l, slot, object, up, plain, level)) =
          at_light endpoint dev path buffer now later s l inside slot object
          ∙ rw up (cast_faults dev path buffer now later s l object plain level)

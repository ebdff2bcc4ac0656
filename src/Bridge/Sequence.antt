-- ===== src/Bridge/Sequence.antt =====
-- The order of the entries that `ApplicationInit` of matter-bridge-app/main.cpp publishes.
use mathlib.Core.Path.{subst}
use mathlib.Core.List.{Memᴰ}
use wemo_matter_bridge.Prelude.{
  ℕ, ◌≡◌, ◌⊎◌, refl, inl, inr, false, List, [], ◌∷◌, ◌++◌, Option, none, some, some_inj, length,
  leb, Bool-cases, Option-cases, All, All-append, All-imp, text_lt,
}
use wemo_matter_bridge.Adapter.Types.{WemoDevice}
use wemo_matter_bridge.Device.Class.{Sdk}
use wemo_matter_bridge.Bridge.State.{Bridge, BridgedWemoLight}
use wemo_matter_bridge.Bridge.Write.{k_dynamic_endpoint_count}
use wemo_matter_bridge.Bridge.Endpoints.{add_device_endpoint}
use wemo_matter_bridge.Bridge.Startup.{
  new_light, new_entry, push_entry, finish_publish, publish, publish_all, reset, sort_devices,
  application_init,
}
use wemo_matter_bridge.Bridge.Placed.{Moved, add_device_endpoint-Outcome, stored_self}
use wemo_matter_bridge.Bridge.Order.{Ordered, All-insert, sort_devices_lem, udn_not_before}

-- No later entry has a udn that comes before that of an earlier one.
abbrev pub Sorted : List BridgedWemoLight → Type 0
Sorted [] = Unit
Sorted (e ∷ es) = All (λ x. text_lt x.udn e.udn ≡ false) es × Sorted es

-- The udn of the device is not before that of any entry.
abbrev Behind : List BridgedWemoLight → WemoDevice → Type 0
Behind es d = All (λ e. text_lt d.udn e.udn ≡ false) es

append-Sorted :
    (es : List BridgedWemoLight) (x : BridgedWemoLight)
    → Sorted es
    → All (λ e. text_lt x.udn e.udn ≡ false) es
    → Sorted (es ++ x ∷ [])
append-Sorted [] x h k = (tt, tt)
append-Sorted (e ∷ es) x h k =
    (All-append (λ y. text_lt y.udn e.udn ≡ false) es x h.0 k.0, append-Sorted es x h.1 k.1)

-- Devices that come behind the entries and behind `d` come behind the entries with that of `d`.
append-Behind :
    (es : List BridgedWemoLight) (d : WemoDevice) (a : ℕ) (ds : List WemoDevice)
    → All (Behind es) ds
    → All (λ x. text_lt x.udn d.udn ≡ false) ds
    → All (Behind (es ++ new_entry d a ∷ [])) ds
append-Behind es d a [] h k = tt
append-Behind es d a (x ∷ ds) h k = (
  All-append (λ e. text_lt x.udn e.udn ≡ false) es (new_entry d a) h.0 k.0,
  append-Behind es d a ds h.1 k.1,
)

-- The entry has the udn, the id and the kind of one of the devices.
abbrev pub Published : List WemoDevice → BridgedWemoLight → Type 0
Published ds e =
    (d : WemoDevice) × Memᴰ d ds
    × (e.udn ≡ d.udn)
    × (e.wemo_id ≡ d.wemo_id)
    × (e.is_dimmable ≡ d.supports_level)

All-Memᴰ : (ds : List WemoDevice) → All (λ d. Memᴰ d ds) ds
All-Memᴰ [] = tt
All-Memᴰ (d ∷ ds) = (Memᴰ.head refl, All-imp ds (λ x. Memᴰ.tail) (All-Memᴰ ds))

pub sort_devices-All :
    (P : WemoDevice → Type 0) (ds : List WemoDevice) → All P ds → All P (sort_devices ds)
unfolding sort_devices
sort_devices-All P [] h = tt
sort_devices-All P (d ∷ ds) h = All-insert P d (sort_devices ds) h.0 (sort_devices-All P ds h.1)

module _ ⦃c : Sdk⦄ where
  -- An entry is added behind the others, or none.
  abbrev Added : WemoDevice → Bridge → Bridge → Type 0
  Added d s s' = (s'.lights ≡ s.lights) ⊎ (s'.lights ≡ s.lights ++ new_entry d s.next_address ∷ [])

  finish-Added :
      (d : WemoDevice) (s : Bridge) (o : Option ℕ) (s₁ s' : Bridge)
      → Moved s.next_address (new_light d) (push_entry d s) s₁
      → finish_publish d s (o, s₁) ≡ some s'
      → Added d s s'
  unfolding finish_publish push_entry
  finish-Added d s none s₁ s' m e = subst (Added d s) (some_inj e) (inl refl)
  finish-Added d s (some i) s₁ s' m e =
      subst (Added d s) (some_inj (rw (m.object, finish_publish) at e)) (inr m.lights)

  publish-Added :
      (fuel : ℕ) (d : WemoDevice) (s s' : Bridge) → publish fuel d s ≡ some s' → Added d s s'
  unfolding publish
  publish-Added fuel d s s' e = elim (Bool-cases (leb k_dynamic_endpoint_count (length s.lights))) [
    | inl full ↦ subst (Added d s) (some_inj (rw (full, publish) at e)) (inl refl)
    | inr room ↦ elim (Option-cases (add_device_endpoint fuel s.next_address 1 (push_entry d s))) [
      | inl q ↦ absurd (none-ne-some (rw (q, publish) at (rw (room, publish) at e)))
      | inr ((o, s₁), q) ↦
          finish-Added d s o s₁ s'
            (add_device_endpoint-Outcome fuel s.next_address 1 (push_entry d s) s₁ o
              (stored_self s.heap s.next_address (some (new_light d))) q).0
            (rw (q, publish) at (rw (room, publish) at e))
    ]
  ]
    where
      none-ne-some : none ≡ some s' → ⊥
      none-ne-some k = cc

  Added-Sorted :
      (d : WemoDevice) (ds : List WemoDevice) (s s₁ : Bridge)
      → Added d s s₁
      → All (λ x. text_lt x.udn d.udn ≡ false) ds
      → Sorted s.lights
      → All (Behind s.lights) (d ∷ ds)
      → Sorted s₁.lights × All (Behind s₁.lights) ds
  Added-Sorted d ds s s₁ (inl q) o h b = rw q (h, b.1)
  Added-Sorted d ds s s₁ (inr q) o h b = rw q (
    append-Sorted s.lights (new_entry d s.next_address) h b.0,
    append-Behind s.lights d s.next_address ds b.1 o,
  )

  publish_all-Sorted :
      (fuel : ℕ) (ds : List WemoDevice) (s s' : Bridge)
      → Ordered ds
      → Sorted s.lights
      → All (Behind s.lights) ds
      → publish_all fuel ds s ≡ some s'
      → Sorted s'.lights
  unfolding publish_all
  publish_all-Sorted fuel [] s s' o h b e = subst (λ t. Sorted t.lights) (some_inj e) h
  publish_all-Sorted fuel (d ∷ ds) s s' o h b e = elim (Option-cases (publish fuel d s)) [
    | inl q ↦ absurd (none-ne-some (rw (q, publish_all) at e))
    | inr (s₁, q) ↦
        let (sorted, behind) =
          Added-Sorted d ds s s₁ (publish-Added fuel d s s₁ q)
            (All-imp ds (λ x. udn_not_before x d) o.0) h b in
        publish_all-Sorted fuel ds s₁ s' o.1 sorted behind (rw (q, publish_all) at e)
  ]
    where
      none-ne-some : none ≡ some s' → ⊥
      none-ne-some k = cc

  none_Behind : (ds : List WemoDevice) → All (Behind []) ds
  none_Behind [] = tt
  none_Behind (d ∷ ds) = (tt, none_Behind ds)

  Added-Published :
      (xs : List WemoDevice) (d : WemoDevice) (s s₁ : Bridge)
      → Added d s s₁
      → Memᴰ d xs
      → All (Published xs) s.lights
      → All (Published xs) s₁.lights
  Added-Published xs d s s₁ (inl q) mem h = rw q h
  Added-Published xs d s s₁ (inr q) mem h =
      rw q (
        All-append (Published xs) s.lights (new_entry d s.next_address) h
          (d, mem, refl, refl, refl))

  publish_all-Published :
      (xs : List WemoDevice) (fuel : ℕ) (ds : List WemoDevice) (s s' : Bridge)
      → All (λ d. Memᴰ d xs) ds
      → All (Published xs) s.lights
      → publish_all fuel ds s ≡ some s'
      → All (Published xs) s'.lights
  unfolding publish_all
  publish_all-Published xs fuel [] s s' ms h e =
      subst (λ t. All (Published xs) t.lights) (some_inj e) h
  publish_all-Published xs fuel (d ∷ ds) s s' ms h e = elim (Option-cases (publish fuel d s)) [
    | inl q ↦ absurd (none-ne-some (rw (q, publish_all) at e))
    | inr (s₁, q) ↦
        publish_all-Published xs fuel ds s₁ s' ms.1
          (Added-Published xs d s s₁ (publish-Added fuel d s s₁ q) ms.0 h)
          (rw (q, publish_all) at e)
  ]
    where
      none-ne-some : none ≡ some s' → ⊥
      none-ne-some k = cc

  -- A start-up that ends publishes discovered devices only, in the order of their udns, byte by byte,
  -- whatever devices were discovered in whatever order: each entry has the udn, the id and the kind of
  -- a discovered device, and no later entry has a udn before that of an earlier one.
  pub application_init-Sorted :
      (fuel last : ℕ) (ds : List WemoDevice) (s s' : Bridge)
      → application_init fuel last ds s ≡ some s'
      → All (Published ds) s'.lights × Sorted s'.lights
  unfolding application_init reset
  application_init-Sorted fuel last ds s s' e = (
    publish_all-Published ds fuel (sort_devices ds) (reset last s) s'
        (sort_devices-All (λ d. Memᴰ d ds) ds (All-Memᴰ ds)) tt e,
    publish_all-Sorted fuel (sort_devices ds) (reset last s) s' (sort_devices_lem ds).1 tt
        (none_Behind (sort_devices ds)) e,
  )

-- ===== src/Bridge/Published.antt =====
-- One published or dropped entry of `ApplicationInit`, matter-bridge-app/main.cpp: the databases it
-- leaves.
use mathlib.Core.List.{map-append}
use wemo_matter_bridge.Prelude.{
  ℕ, ◌<◌, ◌≡◌, ◌≢◌, refl, sym, ◌∙◌, inl, inr, Bool, List, [], ◌∷◌, ◌++◌, map, Option, none, some,
  arith, ◌==◌, ==_iff, set, set-set, length, length-set, length-append, Bool-cases, All, All-imp,
  All-set, All-append, Distinct-append, Text,
}
use wemo_matter_bridge.Adapter.Types.{WemoDevice}
use wemo_matter_bridge.Device.Class.{Sdk}
use wemo_matter_bridge.Device.Light.{Light, on_off_light, dimmable_light, is_dimmer}
use wemo_matter_bridge.Bridge.State.{Bridge, BridgedWemoLight, store, find_udn}
use wemo_matter_bridge.Bridge.Write.{k_dynamic_endpoint_count}
use wemo_matter_bridge.Bridge.Startup.{new_light, new_entry, install_callback, push_entry}
use wemo_matter_bridge.Bridge.WellFormed.{IsWellFormed, EntryOk, SlotOk, Fits, device_of}
use wemo_matter_bridge.Bridge.Placed.{Moved, stored_self, stored_other}

module _ ⦃c : Sdk⦄ where
  pub new_light_kind : (d : WemoDevice) → is_dimmer (new_light d) ≡ d.supports_level
  unfolding new_light
  new_light_kind d = elim (Bool-cases d.supports_level) [
    | inl q ↦ rw (q, new_light) refl
    | inr q ↦ rw (q, new_light) refl
  ]

  install_kind : (l : Light) → is_dimmer (install_callback l) ≡ is_dimmer l
  unfolding install_callback
  install_kind (on_off_light d) = refl
  install_kind (dimmable_light d) = refl

  -- An object below the next address is not the one that is allocated now.
  below-ne : (a n : ℕ) → a < n → a ≢ n
  below-ne a n h e = absurd (omega arith)

  find_udn-other :
      (a b : ℕ) (udn : Text) (m : List (ℕ × Text))
      → a ≢ b
      → find_udn a ((b, udn) ∷ m) ≡ find_udn a m
  find_udn-other a b udn m ne = elim (Bool-cases (b == a)) [
    | inl q ↦ absurd (ne (sym ((==_iff b a).0 q)))
    | inr q ↦ rw q refl
  ]

  Fits-kind : (l : Light) (o : Option Light) (b : Bool) → o ≡ some l → is_dimmer l ≡ b → Fits o b
  Fits-kind l o b p q = rw p q

  module _ (d : WemoDevice) (s s₁ : Bridge) (w : IsWellFormed s)
      (room : length s.lights < k_dynamic_endpoint_count)
      (m : Moved s.next_address (new_light d) (push_entry d s) s₁) where
    -- The object of an older entry is where it was.
    older : (a : ℕ) → a < s.next_address → s₁.heap a ≡ s.heap a
    unfolding push_entry
    older a h =
        m.others a (below-ne a s.next_address h)
        ∙ stored_other s.heap s.next_address (some (new_light d)) a (below-ne a s.next_address h)

    unfoldable pub published : Bridge
    published = record s₁ {
      heap = store s₁.heap s.next_address (some (install_callback m.light));
      device_to_udn = (s.next_address, d.udn) ∷ s₁.device_to_udn;
    }

    unfoldable pub dropped : Bridge
    dropped = record s₁ { lights = s.lights; heap = store s₁.heap s.next_address none }

    pub published_heap : (a : ℕ) → a < s.next_address → published.heap a ≡ s.heap a
    unfolding published
    published_heap a h =
        stored_other s₁.heap s.next_address _ a (below-ne a s.next_address h) ∙ older a h

    pub dropped_heap : (a : ℕ) → a < s.next_address → dropped.heap a ≡ s.heap a
    unfolding dropped
    dropped_heap a h =
        stored_other s₁.heap s.next_address _ a (below-ne a s.next_address h) ∙ older a h

    published_entry : (e : BridgedWemoLight) → EntryOk s e → EntryOk published e
    unfolding published push_entry
    published_entry e (fits, below, udn) = (
      rw (published_heap e.device below) fits,
      rw m.next (omega arith),
      find_udn-other e.device s.next_address d.udn s₁.device_to_udn
            (below-ne e.device s.next_address below)
          ∙ rw m.udns udn,
    )

    dropped_entry : (e : BridgedWemoLight) → EntryOk s e → EntryOk dropped e
    unfolding dropped push_entry
    dropped_entry e (fits, below, udn) =
        (rw (dropped_heap e.device below) fits, rw m.next (omega arith), rw m.udns udn)

    published_slot : (o : Option ℕ) → SlotOk s o → SlotOk published o
    unfolding published push_entry
    published_slot none h = tt
    published_slot (some a) (live, below) =
        (rw (published_heap a below) live, rw m.next (omega arith))

    pub dropped_slot : (o : Option ℕ) → SlotOk s o → SlotOk dropped o
    unfolding dropped push_entry
    dropped_slot none h = tt
    dropped_slot (some a) (live, below) = (rw (dropped_heap a below) live, rw m.next (omega arith))

    fresh_address : All (λ a. a ≢ s.next_address) (map device_of s.lights)
    fresh_address = go s.lights w.entries
      where
        go :
            (es : List BridgedWemoLight)
            → All (EntryOk s) es
            → All (λ a. a ≢ s.next_address) (map device_of es)
        go [] h = tt
        go (e ∷ es) h = (below-ne e.device s.next_address h.0.1, go es h.1)

    published_lights : published.lights ≡ s.lights ++ new_entry d s.next_address ∷ []
    unfolding published push_entry
    published_lights = m.lights

    new_entry_ok : EntryOk published (new_entry d s.next_address)
    unfolding published push_entry
    new_entry_ok = (
      Fits-kind (install_callback m.light) _ d.supports_level (stored_self s₁.heap s.next_address _)
          (install_kind m.light ∙ (m.kind ∙ new_light_kind d)),
      rw m.next (omega arith),
      rw ((==_iff s.next_address s.next_address).1 refl) refl,
    )

    live_slot : SlotOk published (some s.next_address)
    unfolding published push_entry
    live_slot = (
      rw (stored_self s₁.heap s.next_address (some (install_callback m.light))) tt,
      rw m.next (omega arith),
    )

    pub published-IsWellFormed :
        (index : ℕ)
        → s₁.devices ≡ set s.devices index (some s.next_address)
        → IsWellFormed published
    unfolding published
    published-IsWellFormed index q = record {
      entries = rw published_lights (
          All-append (EntryOk published) s.lights (new_entry d s.next_address)
            (All-imp s.lights published_entry w.entries) new_entry_ok);
      distinct = rw published_lights (
          rw (map-append device_of s.lights (new_entry d s.next_address ∷ []))
            (Distinct-append (map device_of s.lights) s.next_address w.distinct fresh_address));
      slots = rw q (
          All-set (SlotOk published) s.devices index (some s.next_address)
            (All-imp s.devices published_slot w.slots) live_slot);
      capacity =
          rw published_lights
            (omega (arith, length-append s.lights (new_entry d s.next_address ∷ [])));
      size = rw q (length-set s.devices index (some s.next_address) ∙ w.size);
    }

    pub dropped-IsWellFormed :
        (ds : List (Option ℕ))
        → s₁.devices ≡ ds
        → All (SlotOk dropped) ds
        → length ds ≡ 17
        → IsWellFormed dropped
    unfolding dropped
    dropped-IsWellFormed ds q slots size = record {
      entries = All-imp s.lights dropped_entry w.entries;
      distinct = w.distinct;
      slots = rw q slots;
      capacity = w.capacity;
      size = rw q size;
    }

    pub dropped_cleared :
        (index : ℕ)
        → s₁.devices ≡ set (set s.devices index (some s.next_address)) index none
        → IsWellFormed dropped
    dropped_cleared index q =
        dropped-IsWellFormed (set s.devices index none)
          (q ∙ set-set s.devices index (some s.next_address) none)
          (All-set (SlotOk dropped) s.devices index none (All-imp s.devices dropped_slot w.slots)
            tt)
          (length-set s.devices index none ∙ w.size)

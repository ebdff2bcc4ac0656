-- ===== src/Bridge/Static.antt =====
-- `AddDeviceEndpoint` and `RemoveDeviceEndpoint` of matter-bridge-app/main.cpp for a device that the
-- bridge does not own keep the databases well formed.
use mathlib.Core.Path.{subst}
use wemo_matter_bridge.Prelude.{
  ℕ, zero, suc, [], ◌∷◌, All, some_inj, ◌<◌, ◌≡◌, ◌≢◌, refl, sym, ap, ◌∙◌, inl, inr, Bool, List,
  Option, none, some, arith, ◌==◌, ==_iff, All-imp, All-set, get_elem?, get_elem?-set_ne, set,
  set-set, length-set, Option-cases, Bool-cases,
}
use wemo_matter_bridge.Device.Class.{Sdk}
use wemo_matter_bridge.Device.Light.{Light}
use wemo_matter_bridge.Bridge.State.{Bridge, BridgedWemoLight}
use wemo_matter_bridge.Bridge.Write.{k_dynamic_endpoint_count}
use wemo_matter_bridge.Bridge.Endpoints.{add_device_endpoint, remove_device_endpoint, slot_of}
use wemo_matter_bridge.Bridge.Placed.{Moved, Outcome, add_device_endpoint-Outcome}
use wemo_matter_bridge.Bridge.WellFormed.{IsWellFormed, EntryOk, SlotOk, Fits, Live}
use wemo_matter_bridge.Bridge.Keeps.{Frame, Frame-refl}

module _ ⦃c : Sdk⦄ where
  module _ (dev : ℕ) (l : Light) (s s' : Bridge) (m : Moved dev l s s')
      (object : s.heap dev ≡ some l) where
    moved-Fits : (a : ℕ) (b : Bool) → Fits (s.heap a) b → Fits (s'.heap a) b
    moved-Fits a b f = elim (Bool-cases (a == dev)) [
      | inr e ↦ rw (m.others a (λ q. absurd (ground (arith, (==_iff a dev).1 q)))) f
      | inl e ↦
          let q : a ≡ dev = (==_iff a dev).0 e in rw (q, m.object) (m.kind ∙ (rw (q, object) at f))
    ]

    moved-Live : (a : ℕ) → Live (s.heap a) → Live (s'.heap a)
    moved-Live a f = elim (Bool-cases (a == dev)) [
      | inr e ↦ rw (m.others a (λ q. absurd (ground (arith, (==_iff a dev).1 q)))) f
      | inl e ↦ rw ((==_iff a dev).0 e, m.object) tt
    ]

    moved_entry : (e : BridgedWemoLight) → EntryOk s e → EntryOk s' e
    moved_entry e (fits, below, udn) =
        (moved-Fits e.device e.is_dimmable fits, rw m.next below, rw m.udns udn)

    moved_slot : (o : Option ℕ) → SlotOk s o → SlotOk s' o
    moved_slot none h = tt
    moved_slot (some a) (live, below) = (moved-Live a live, rw m.next below)

    moved-IsWellFormed :
        (index : ℕ) (o : Option ℕ)
        → IsWellFormed s
        → SlotOk s' o
        → s'.devices ≡ set s.devices index o
        → IsWellFormed s'
    moved-IsWellFormed index o w ok q = record {
      entries = rw m.lights (All-imp s.lights moved_entry w.entries);
      distinct = rw m.lights w.distinct;
      slots =
          rw q (All-set (SlotOk s') s.devices index o (All-imp s.devices moved_slot w.slots) ok);
      capacity = rw m.lights w.capacity;
      size = rw q (length-set s.devices index o ∙ w.size);
    }

    moved-Frame :
        (index : ℕ) (o : Option ℕ)
        → index < k_dynamic_endpoint_count
        → s'.devices ≡ set s.devices index o
        → Frame s s'
    moved-Frame index o below q = record {
      alive = moved-Live;
      next = m.next;
      last_slot = rw q (
          get_elem?-set_ne s.devices index k_dynamic_endpoint_count o
            (λ e. omega (arith, below, e)));
    }

  -- A device with a live object below the next address may be added.
  pub add-Keeps :
      (fuel dev parent : ℕ) (s s' : Bridge) (o : Option ℕ) {l : Light}
      → IsWellFormed s
      → s.heap dev ≡ some l
      → dev < s.next_address
      → add_device_endpoint fuel dev parent s ≡ some (o, s')
      → IsWellFormed s' × Frame s s'
  add-Keeps fuel dev parent s s' o {l} w object below h =
      let (m, cases) = add_device_endpoint-Outcome fuel dev parent s s' o object h in
      elim cases [
        | inl (_, _, same) ↦ subst (λ t. IsWellFormed t × Frame s t) (sym same) (w, Frame-refl s)
        | inr (index, inside, _, out) ↦
            let (filled, q, ok) = slot_left index o m out in
            (
              moved-IsWellFormed dev l s s' m object index filled w ok q,
              moved-Frame dev l s s' m object index filled inside q,
            )
      ]
    where
      slot_left :
          (index : ℕ) (o : Option ℕ)
          → Moved dev l s s'
          → Outcome dev index (record s { devices = set s.devices index (some dev) }) o s'
          → (x : Option ℕ) × (s'.devices ≡ set s.devices index x) × SlotOk s' x
      slot_left index none m out = (none, out.0 ∙ set-set s.devices index (some dev) none, tt)
      slot_left index (some i) m out = (some dev, out.1, (rw m.object tt, rw m.next below))

  pub slot_of_found :
      (n dev : ℕ) (slots : List (Option ℕ)) (i : ℕ)
      → slot_of n dev slots ≡ some i
      → (i < n) × (get_elem? slots i ≡ some (some dev))
  unfolding slot_of
  slot_of_found zero dev slots i h = absurd (cc)
  slot_of_found (suc n) dev [] i h = absurd (cc)
  slot_of_found (suc n) dev (none ∷ slots) zero h = ground (arith, slot_of_found n dev slots zero)
  slot_of_found (suc n) dev (none ∷ slots) (suc i) h = ground (arith, slot_of_found n dev slots i)
  slot_of_found (suc n) dev (some d ∷ slots) zero h = ground (arith, slot_of_found n dev slots zero)
  slot_of_found (suc n) dev (some d ∷ slots) (suc i) h = ground (arith, slot_of_found n dev slots i)

  pub remove-Keeps :
      (dev : ℕ) (s : Bridge)
      → IsWellFormed s
      → IsWellFormed (remove_device_endpoint dev s).1 × Frame s (remove_device_endpoint dev s).1
  unfolding remove_device_endpoint
  remove-Keeps dev s w = elim (Option-cases (slot_of k_dynamic_endpoint_count dev s.devices)) [
    | inl q ↦ rw (q, remove_device_endpoint) (w, Frame-refl s)
    | inr (index, q) ↦
        let (inside, _) = slot_of_found k_dynamic_endpoint_count dev s.devices index q in
        rw (q, remove_device_endpoint)
          (
            record {
              entries = w.entries;
              distinct = w.distinct;
              slots = All-set (SlotOk s) s.devices index none w.slots tt;
              capacity = w.capacity;
              size = length-set s.devices index none ∙ w.size;
            },
            record {
              alive = λ a h. h;
              next = refl;
              last_slot =
                  get_elem?-set_ne s.devices index k_dynamic_endpoint_count none
                    (λ e. omega (arith, inside, e));
            },
          )
  ]

  -- The slot that a device in no slot is put into is where it is found.
  slot_of-set :
      (n dev : ℕ) (slots : List (Option ℕ)) (i : ℕ)
      → i < n
      → get_elem? slots i ≡ some none
      → All (λ o. o ≢ some dev) slots
      → slot_of n dev (set slots i (some dev)) ≡ some i
  unfolding slot_of
  slot_of-set zero dev slots i h q k = absurd (omega (arith, h))
  slot_of-set (suc n) dev [] i h q k = absurd (cc)
  slot_of-set (suc n) dev (o ∷ slots) zero h q k = ground (arith, (==_iff dev dev).1 refl)
  slot_of-set (suc n) dev (none ∷ slots) (suc i) h q k =
      rw (slot_of-set n dev slots i (omega (arith, h)) q k.1, slot_of) refl
  slot_of-set (suc n) dev (some d ∷ slots) (suc i) h q k = elim (Bool-cases (d == dev)) [
    | inl e ↦ absurd (k.0 (ap some ((==_iff d dev).0 e)))
    | inr e ↦ rw e (rw (slot_of-set n dev slots i (omega (arith, h)) q k.1, slot_of) refl)
  ]

  set_same :
      (slots : List (Option ℕ)) (i : ℕ) (o : Option ℕ)
      → get_elem? slots i ≡ some o
      → set slots i o ≡ slots
  set_same [] i o h = refl
  set_same (x ∷ slots) zero o h = ap (λ y. y ∷ slots) (sym (some_inj h))
  set_same (x ∷ slots) (suc i) o h = ap (λ ys. x ∷ ys) (set_same slots i o h)

  -- A removal from the slot that the device was put into.
  removed_from :
      (dev index : ℕ) (slots : List (Option ℕ)) (s' : Bridge)
      → index < k_dynamic_endpoint_count
      → get_elem? slots index ≡ some none
      → All (λ o. o ≢ some dev) slots
      → s'.devices ≡ set slots index (some dev)
      → ((remove_device_endpoint dev s').0 ≡ some index)
        × ((remove_device_endpoint dev s').1.devices ≡ slots)
  unfolding remove_device_endpoint
  removed_from dev index slots s' inside empty apart q =
      let found : slot_of k_dynamic_endpoint_count dev s'.devices ≡ some index =
        ap (slot_of k_dynamic_endpoint_count dev) q
        ∙ slot_of-set k_dynamic_endpoint_count dev slots index inside empty apart in
      rw (found, remove_device_endpoint)
        (
          refl,
          ap (λ ds. set ds index none) q
              ∙ (set-set slots index (some dev) none ∙ set_same slots index none empty),
        )

  -- An added device that was in no slot is removed from the slot that it was added to: the removal
  -- answers the index that the addition answered, and leaves the slots as they were before the
  -- addition.
  pub remove-add :
      (fuel dev parent i : ℕ) (s s' : Bridge) {l : Light}
      → s.heap dev ≡ some l
      → All (λ o. o ≢ some dev) s.devices
      → add_device_endpoint fuel dev parent s ≡ some (some i, s')
      → ((remove_device_endpoint dev s').0 ≡ some i)
        × ((remove_device_endpoint dev s').1.devices ≡ s.devices)
  remove-add fuel dev parent i s s' object apart h =
      elim (add_device_endpoint-Outcome fuel dev parent s s' (some i) object h).1 [
        | inl (_, e, _) ↦ absurd (cc e)
        | inr (index, inside, empty, out) ↦
            let (answer, slots) = removed_from dev index s.devices s' inside empty apart out.1 in
            (answer ∙ ap some (sym out.0), slots)
      ]

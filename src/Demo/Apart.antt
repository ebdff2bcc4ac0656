-- ===== src/Demo/Apart.antt =====
-- The keys of matter-bridge-app/main.cpp and the published lights.
use mathlib.Core.Path.{subst}
use wemo_matter_bridge.Prelude.{
  ℕ, ◌≡◌, ◌≢◌, refl, sym, ap, ◌∙◌, inl, inr, Bool, List, [], ◌∷◌, Option, none, some, some_inj,
  get_elem?, get_elem?-set_ne, set, set-set, Option-cases,
}
use wemo_matter_bridge.Device.Class.{Sdk, Report}
use wemo_matter_bridge.Device.Light.{Light}
use wemo_matter_bridge.Device.Sensors.{SensorSdk}
use wemo_matter_bridge.Bridge.State.{Bridge}
use wemo_matter_bridge.Bridge.Write.{k_dynamic_endpoint_count}
use wemo_matter_bridge.Bridge.Endpoints.{
  add_device_endpoint, remove_device_endpoint, slot_of, free_slot,
}
use wemo_matter_bridge.Bridge.Placed.{Moved, Outcome, add_device_endpoint-Outcome, stored_other}
use wemo_matter_bridge.Bridge.Static.{slot_of_found}
use wemo_matter_bridge.Demo.Class.{DemoSdk}
use wemo_matter_bridge.Demo.State.{Demo, update_light}
use wemo_matter_bridge.Demo.Keys.{handle_key}
use wemo_matter_bridge.Demo.Steps.{IsClosed, Ensures, handle_key-Kept}

module _ ⦃c : Sdk⦄ (s₀ : Bridge) (a₀ b₀ : ℕ) where
  -- The two lights are where they were, at `a₀` and `b₀`. The entries and the udn map are those of
  -- `s₀`, and so is every object but the two lights, and every slot that holds another one.
  pub record Apart (s : Bridge) (a b : ℕ) : Type 0 where
    pub same1 : a ≡ a₀
    pub same2 : b ≡ b₀
    pub lights : s.lights ≡ s₀.lights
    pub udns : s.device_to_udn ≡ s₀.device_to_udn
    pub objects : (p : ℕ) → p ≢ a → p ≢ b → s.heap p ≡ s₀.heap p
    pub slots :
        (i p : ℕ)
        → p ≢ a
        → p ≢ b
        → get_elem? s₀.devices i ≡ some (some p)
        → get_elem? s.devices i ≡ some (some p)

  -- A change of the object at one of the two, and of a slot that is empty or holds one of them.
  changed-Apart :
      (s s' : Bridge) (a b x index : ℕ) (old new : Option ℕ)
      → Apart s a b
      → ((p : ℕ) → p ≢ a → p ≢ b → p ≢ x)
      → ((p : ℕ) → p ≢ a → p ≢ b → old ≢ some p)
      → s'.lights ≡ s.lights
      → s'.device_to_udn ≡ s.device_to_udn
      → ((p : ℕ) → p ≢ x → s'.heap p ≡ s.heap p)
      → get_elem? s.devices index ≡ some old
      → s'.devices ≡ set s.devices index new
      → Apart s' a b
  changed-Apart s s' a b x index old new h one other ls us os was q = record {
    same1 = h.same1;
    same2 = h.same2;
    lights = ls ∙ h.lights;
    udns = us ∙ h.udns;
    objects = λ p na nb. os p (one p na nb) ∙ h.objects p na nb;
    slots = λ i p na nb e.
        let kept = h.slots i p na nb e in
        let differs : index ≢ i =
          λ k. other p na nb (some_inj (sym was ∙ (ap (get_elem? s.devices) k ∙ kept))) in
        ap (λ ds. get_elem? ds i) q ∙ (get_elem?-set_ne s.devices index i new differs ∙ kept);
  }

  none_differs : (p : ℕ) → none ≢ some p
  none_differs p e = cc

  added-Apart :
      (fuel x : ℕ) (s s' : Bridge) (o : Option ℕ) (a b : ℕ) {l : Light}
      → s.heap x ≡ some l
      → ((p : ℕ) → p ≢ a → p ≢ b → p ≢ x)
      → Apart s a b
      → add_device_endpoint fuel x 1 s ≡ some (o, s')
      → Apart s' a b
  added-Apart fuel x s s' o a b {l} object one h e =
      let (m, cases) = add_device_endpoint-Outcome fuel x 1 s s' o object e in
      elim cases [
        | inl (_, _, same) ↦ subst (λ t. Apart t a b) (sym same) h
        | inr (index, _, empty, out) ↦ filled o m index empty out
      ]
    where
      filled :
          (o : Option ℕ)
          → Moved x l s s'
          → (index : ℕ) → get_elem? s.devices index ≡ some none
          → Outcome x index (record s { devices = set s.devices index (some x) }) o s'
          → Apart s' a b
      filled none m index empty out =
          changed-Apart s s' a b x index none none h one (λ p na nb. none_differs p) m.lights m.udns
            m.others empty (out.0 ∙ set-set s.devices index (some x) none)
      filled (some i) m index empty out =
          changed-Apart s s' a b x index none (some x) h one (λ p na nb. none_differs p) m.lights
            m.udns m.others empty out.1

  -- The same whether there is an object or not.
  add-Apart :
      (fuel x : ℕ) (s s' : Bridge) (o : Option ℕ) (a b : ℕ)
      → ((p : ℕ) → p ≢ a → p ≢ b → p ≢ x)
      → Apart s a b
      → add_device_endpoint fuel x 1 s ≡ some (o, s')
      → Apart s' a b
  unfolding add_device_endpoint
  add-Apart fuel x s s' o a b one h e = elim (Option-cases (s.heap x)) [
    | inr (l, object) ↦ added-Apart fuel x s s' o a b object one h e
    | inl gone ↦ elim (Option-cases (free_slot k_dynamic_endpoint_count s.devices)) [
      | inl full ↦ subst (λ r. Apart r.1 a b) (some_inj (rw (full, add_device_endpoint) at e)) h
      | inr (index, q) ↦
          absurd (cc (rw (gone, add_device_endpoint) at (rw (q, add_device_endpoint) at e)))
    ]
  ]

  remove-Apart : (a b : ℕ) (s : Bridge) → Apart s a b → Apart (remove_device_endpoint a s).1 a b
  unfolding remove_device_endpoint
  remove-Apart a b s h = elim (Option-cases (slot_of k_dynamic_endpoint_count a s.devices)) [
    | inl q ↦ rw (q, remove_device_endpoint) h
    | inr (index, q) ↦
        rw (q, remove_device_endpoint)
          (changed-Apart s _ a b a index (some a) none h (λ p na nb. na)
            (λ p na nb e. na (sym (some_inj e))) refl refl (λ p ne. refl)
            (slot_of_found k_dynamic_endpoint_count a s.devices index q).1 refl)
  ]

module _ ⦃c : Sdk⦄ ⦃d : SensorSdk⦄ ⦃m : DemoSdk⦄ where
  updated-Apart :
      (s₀ : Bridge) (a₀ b₀ x : ℕ) (f : Light → Light × List Report) (s s' : Bridge) (a b : ℕ)
      → ((p : ℕ) → p ≢ a → p ≢ b → p ≢ x)
      → Apart s₀ a₀ b₀ s a b
      → update_light x f s ≡ some s'
      → Apart s₀ a₀ b₀ s' a b
  unfolding update_light
  updated-Apart s₀ a₀ b₀ x f s s' a b one h e = elim (Option-cases (s.heap x)) [
    | inl q ↦ absurd (cc (rw (q, update_light) at e))
    | inr (l, q) ↦
        subst (λ t. Apart s₀ a₀ b₀ t a b) (some_inj (rw (q, update_light) at e))
          (record {
            same1 = h.same1;
            same2 = h.same2;
            lights = h.lights;
            udns = h.udns;
            objects = λ p na nb. stored_other s.heap x _ p (one p na nb) ∙ h.objects p na nb;
            slots = h.slots;
          })
  ]

  Apart-IsClosed : (s₀ : Bridge) (a₀ b₀ : ℕ) → IsClosed (Apart s₀ a₀ b₀)
  Apart-IsClosed s₀ a₀ b₀ = record {
    add1 = λ fuel a b s s' o h e. add-Apart s₀ a₀ b₀ fuel a s s' o a b (λ p na nb. na) h e;
    add2 = λ fuel a b s s' o h e. add-Apart s₀ a₀ b₀ fuel b s s' o a b (λ p na nb. nb) h e;
    remove1 = remove-Apart s₀ a₀ b₀;
    update1 = λ a b f s s' kind h e. updated-Apart s₀ a₀ b₀ a f s s' a b (λ p na nb. na) h e;
    update2 = λ a b f s s' kind h e. updated-Apart s₀ a₀ b₀ b f s s' a b (λ p na nb. nb) h e;
    effects = λ a b s es h. record {
      same1 = h.same1;
      same2 = h.same2;
      lights = h.lights;
      udns = h.udns;
      objects = h.objects;
      slots = h.slots;
    };
  }

  -- Keys that are pressed one after another.
  unfoldable pub press : Bool → ℕ → List ℕ → Demo → Option Demo
  unfolding handle_key
  press unique_ids fuel [] s = some s
  press unique_ids fuel (ch ∷ keys) s = elim (handle_key unique_ids fuel ch s) [
    | none ↦ none
    | some t ↦ press unique_ids fuel keys t
  ]

  press-Apart :
      (s₀ : Bridge) (a₀ b₀ : ℕ) (unique_ids : Bool) (fuel : ℕ) (keys : List ℕ) (s t : Demo)
      → Apart s₀ a₀ b₀ s.bridge s.light1 s.light2
      → press unique_ids fuel keys s ≡ some t
      → Apart s₀ a₀ b₀ t.bridge t.light1 t.light2
  unfolding press
  press-Apart s₀ a₀ b₀ unique_ids fuel [] s t h e = subst (Ensures (Apart s₀ a₀ b₀)) e h
  press-Apart s₀ a₀ b₀ unique_ids fuel (ch ∷ keys) s t h e =
      elim (Option-cases (handle_key unique_ids fuel ch s)) [
        | inl q ↦ absurd (cc (rw (q, press) at e))
        | inr (u, q) ↦
            press-Apart s₀ a₀ b₀ unique_ids fuel keys u t
              (subst (Ensures (Apart s₀ a₀ b₀)) q
                (handle_key-Kept (Apart s₀ a₀ b₀) (Apart-IsClosed s₀ a₀ b₀) unique_ids fuel ch s h))
              (rw (q, press) at e)
      ]

  -- Whatever keys are pressed in whatever order, in either build and whether or not an endpoint can
  -- be added: when they have been handled, the entries and the udn map of the published lights are as
  -- they were, the two demo lights are where they were, and a slot that held any other object holds
  -- it still, with the object as it was.
  pub keys_keep_published :
      (unique_ids : Bool) (fuel : ℕ) (keys : List ℕ) (s t : Demo) (i p : ℕ)
      → p ≢ s.light1
      → p ≢ s.light2
      → get_elem? s.bridge.devices i ≡ some (some p)
      → press unique_ids fuel keys s ≡ some t
      → (t.bridge.lights ≡ s.bridge.lights)
        × (t.bridge.device_to_udn ≡ s.bridge.device_to_udn)
        × (t.light1 ≡ s.light1)
        × (t.light2 ≡ s.light2)
        × (get_elem? t.bridge.devices i ≡ some (some p))
        × (t.bridge.heap p ≡ s.bridge.heap p)
  keys_keep_published unique_ids fuel keys s t i p na nb slot e =
      let h = press-Apart s.bridge s.light1 s.light2 unique_ids fuel keys s t start e in
      let na' : p ≢ t.light1 = λ k. na (k ∙ h.same1) in
      let nb' : p ≢ t.light2 = λ k. nb (k ∙ h.same2) in
      (h.lights, h.udns, h.same1, h.same2, h.slots i p na' nb' slot, h.objects p na' nb')
    where
      start : Apart s.bridge s.light1 s.light2 s.bridge s.light1 s.light2
      start = record {
        same1 = refl;
        same2 = refl;
        lights = refl;
        udns = refl;
        objects = λ p na nb. refl;
        slots = λ i p na nb k. k;
      }

-- ===== src/Demo/Steps.antt =====
-- What the keys of matter-bridge-app/main.cpp keep of the bridge, from what their steps keep.
use wemo_matter_bridge.Prelude.{
  ℕ, ◌≡◌, refl, inl, inr, Bool, true, false, not, ◌&&◌, List, Option, none, some, ◌==◌,
  if◌then◌else◌, Option-cases, codes,
}
use wemo_matter_bridge.Device.Class.{Sdk, Report, Announcement}
use wemo_matter_bridge.Device.Light.{Light, on_off_light, dimmable_light, is_dimmer}
use wemo_matter_bridge.Device.Light
use wemo_matter_bridge.Device.Sensors.{SensorSdk}
use wemo_matter_bridge.Bridge.State.{Bridge, Effect}
use wemo_matter_bridge.Bridge.Endpoints.{add_device_endpoint, remove_device_endpoint}
use wemo_matter_bridge.Bridge.Keeps.{is_dimmer-set_name}
use wemo_matter_bridge.Demo.Class.{DemoSdk}
use wemo_matter_bridge.Demo.State.{◌>>=◌, Demo, change_light, update_light, on_light}
use wemo_matter_bridge.Demo.Keys.{
  when, add_light, add_or_remove, add_back, rename, toggle_lights, warm, change_rooms,
  change_reachable, bump_version, handle_key,
}

module _ ⦃c : Sdk⦄ ⦃d : SensorSdk⦄ ⦃m : DemoSdk⦄ where
  -- What the operations of the demo lights, at `a` and `b`, keep of the bridge.
  pub record IsClosed (P : Bridge → ℕ → ℕ → Type 0) : Type 0 where
    pub add1 :
        (fuel a b : ℕ) (s s' : Bridge) (o : Option ℕ)
        → P s a b
        → add_device_endpoint fuel a 1 s ≡ some (o, s')
        → P s' a b
    pub add2 :
        (fuel a b : ℕ) (s s' : Bridge) (o : Option ℕ)
        → P s a b
        → add_device_endpoint fuel b 1 s ≡ some (o, s')
        → P s' a b
    pub remove1 : (a b : ℕ) (s : Bridge) → P s a b → P (remove_device_endpoint a s).1 a b
    pub update1 :
        (a b : ℕ) (f : Light → Light × List Report) (s s' : Bridge)
        → ((l : Light) → is_dimmer (f l).0 ≡ is_dimmer l)
        → P s a b
        → update_light a f s ≡ some s'
        → P s' a b
    pub update2 :
        (a b : ℕ) (f : Light → Light × List Report) (s s' : Bridge)
        → ((l : Light) → is_dimmer (f l).0 ≡ is_dimmer l)
        → P s a b
        → update_light b f s ≡ some s'
        → P s' a b
    pub effects :
        (a b : ℕ) (s : Bridge) (es : List Effect) → P s a b → P (record s { effects = es }) a b

  -- A step that ends, ends in a state with the property.
  abbrev pub Ensures : (Bridge → ℕ → ℕ → Type 0) → Option Demo → Type 0
  Ensures P none = Unit
  Ensures P (some s) = P s.bridge s.light1 s.light2

  -- The types of the two kinds of lights are not changed by the setters.
  change_kind :
      (f : c.Object → c.Object) (g : c.Object → List Announcement) (l : Light)
      → is_dimmer (change_light f g l).0 ≡ is_dimmer l
  change_kind f g (on_off_light x) = refl
  change_kind f g (dimmable_light x) = refl

  pub bump_kind : (l : Light) → is_dimmer (bump_version l).0 ≡ is_dimmer l
  bump_kind (on_off_light x) = refl
  bump_kind (dimmable_light x) = refl

module _ ⦃c : Sdk⦄ ⦃d : SensorSdk⦄ ⦃m : DemoSdk⦄ (P : Bridge → ℕ → ℕ → Type 0)
    (closed : IsClosed P) where
  abbrev Kept : Demo → Type 0
  Kept s = P s.bridge s.light1 s.light2

  Ensures-bind :
      (o : Option Demo) (k : Demo → Option Demo)
      → Ensures P o
      → ((s : Demo) → Kept s → Ensures P (k s))
      → Ensures P (o >>= k)
  Ensures-bind none k h f = tt
  Ensures-bind (some s) k h f = f s h

  Ensures-when :
      (b : Bool) (step : Demo → Option Demo) (s : Demo)
      → Kept s
      → Ensures P (step s)
      → Ensures P (when b step s)
  Ensures-when true step s h e = e
  Ensures-when false step s h e = h

  Ensures-if :
      (b : Bool) (x y : Option Demo) → Ensures P x → Ensures P y → Ensures P (if b then x else y)
  Ensures-if true x y h k = h
  Ensures-if false x y h k = k

  add1-Kept : (fuel : ℕ) (s : Demo) → Kept s → Ensures P (add_light fuel s.light1 s)
  add1-Kept fuel s h = elim (Option-cases (add_device_endpoint fuel s.light1 1 s.bridge)) [
    | inl q ↦ rw (q, ◌>>=◌) tt
    | inr ((o, b), q) ↦ rw (q, ◌>>=◌) (closed.add1 fuel s.light1 s.light2 s.bridge b o h q)
  ]

  add2-Kept : (fuel : ℕ) (s : Demo) → Kept s → Ensures P (add_light fuel s.light2 s)
  add2-Kept fuel s h = elim (Option-cases (add_device_endpoint fuel s.light2 1 s.bridge)) [
    | inl q ↦ rw (q, ◌>>=◌) tt
    | inr ((o, b), q) ↦ rw (q, ◌>>=◌) (closed.add2 fuel s.light1 s.light2 s.bridge b o h q)
  ]

  pub light1-Kept :
      (f : Light → Light × List Report) (s : Demo)
      → ((l : Light) → is_dimmer (f l).0 ≡ is_dimmer l)
      → Kept s
      → Ensures P (on_light s.light1 f s)
  light1-Kept f s kind h = elim (Option-cases (update_light s.light1 f s.bridge)) [
    | inl q ↦ rw (q, ◌>>=◌) tt
    | inr (b, q) ↦ rw (q, ◌>>=◌) (closed.update1 s.light1 s.light2 f s.bridge b kind h q)
  ]

  light2-Kept :
      (f : Light → Light × List Report) (s : Demo)
      → ((l : Light) → is_dimmer (f l).0 ≡ is_dimmer l)
      → Kept s
      → Ensures P (on_light s.light2 f s)
  light2-Kept f s kind h = elim (Option-cases (update_light s.light2 f s.bridge)) [
    | inl q ↦ rw (q, ◌>>=◌) tt
    | inr (b, q) ↦ rw (q, ◌>>=◌) (closed.update2 s.light1 s.light2 f s.bridge b kind h q)
  ]

  add_or_remove-Kept : (fuel ch : ℕ) (s : Demo) → Kept s → Ensures P (add_or_remove fuel ch s)
  unfolding add_or_remove
  add_or_remove-Kept fuel ch s h =
      Ensures-if ((ch == b'2') && not s.light2_added) _ _
        (Ensures-bind (add_light fuel s.light2 s) (λ t. some (record t { light2_added = true }))
          (add2-Kept fuel s h) (λ t k. k))
        (Ensures-if ((ch == b'4') && s.light1_added) _ _
          (closed.remove1 s.light1 s.light2 s.bridge h) h)

  add_back-Kept :
      (unique_ids : Bool) (fuel ch : ℕ) (s : Demo)
      → Kept s
      → Ensures P (add_back unique_ids fuel ch s)
  unfolding add_back
  add_back-Kept unique_ids fuel ch s h =
      Ensures-if ((ch == b'5') && not s.light1_added) _ _
        (Ensures-bind (add_light fuel (if unique_ids then s.light1 else s.light2) s)
          (λ t. some (record t { light1_added = true }))
          (elim unique_ids
            as (λ b. Ensures P (add_light fuel (if b then s.light1 else s.light2) s)) [
              | true ↦ add1-Kept fuel s h
              | false ↦ add2-Kept fuel s h
            ])
          (λ t k. k))
        h

  -- Both lights, each if it is added.
  abbrev both : (Light → Light × List Report) → (Light → Light × List Report) → Demo → Option Demo
  both f g s = when s.light1_added (on_light s.light1 f) s >>= λ t.
      when t.light2_added (on_light t.light2 g) t

  both-Kept :
      (f g : Light → Light × List Report) (s : Demo)
      → ((l : Light) → is_dimmer (f l).0 ≡ is_dimmer l)
      → ((l : Light) → is_dimmer (g l).0 ≡ is_dimmer l)
      → Kept s
      → Ensures P (both f g s)
  both-Kept f g s p q h =
      Ensures-bind (when s.light1_added (on_light s.light1 f) s)
        (λ t. when t.light2_added (on_light t.light2 g) t)
        (Ensures-when s.light1_added (on_light s.light1 f) s h (light1-Kept f s p h))
        (λ t k. Ensures-when t.light2_added (on_light t.light2 g) t k (light2-Kept g t q k))

  rename-Kept : (ch : ℕ) (s : Demo) → Kept s → Ensures P (rename ch s)
  unfolding rename
  rename-Kept ch s h =
      Ensures-if (ch == b'b') _ _
        (both-Kept (Light.set_name (codes "Light 1b")) (Light.set_name (codes "Light 2b")) s
          (is_dimmer-set_name _) (is_dimmer-set_name _) h)
        h

  toggle_lights-Kept : (ch : ℕ) (s : Demo) → Kept s → Ensures P (toggle_lights ch s)
  unfolding toggle_lights
  toggle_lights-Kept ch s h =
      Ensures-if (ch == b'c') _ _
        (both-Kept (change_light m.toggle m.toggle_announces)
          (change_light m.toggle m.toggle_announces) s (change_kind m.toggle m.toggle_announces)
          (change_kind m.toggle m.toggle_announces) h)
        h

  warm-Kept : (ch : ℕ) (s : Demo) → Kept s → Ensures P (warm ch s)
  unfolding warm
  warm-Kept ch s h = Ensures-if (ch == b't') _ _ h h

  change_rooms-Kept : (ch : ℕ) (s : Demo) → Kept s → Ensures P (change_rooms ch s)
  unfolding change_rooms
  change_rooms-Kept ch s h =
      Ensures-if (ch == b'r') _ _ (closed.effects s.light1 s.light2 s.bridge _ h) (
        Ensures-if (ch == b'f') _ _ (closed.effects s.light1 s.light2 s.bridge _ h) (
          Ensures-if (ch == b'i') _ _ h (
            Ensures-if (ch == b'l') _ _ (closed.effects s.light1 s.light2 s.bridge _ h) (
              Ensures-if (ch == b'm') _ _ h
                (Ensures-if (ch == b'n') _ _ h (Ensures-if (ch == b'o') _ _ h h))))))

  change_reachable-Kept : (ch : ℕ) (s : Demo) → Kept s → Ensures P (change_reachable ch s)
  unfolding change_reachable
  change_reachable-Kept ch s h = Ensures-if (ch == b'u') _ _ h (Ensures-if (ch == b'v') _ _ h h)

  pub handle_key-Kept :
      (unique_ids : Bool) (fuel ch : ℕ) (s : Demo)
      → Kept s
      → Ensures P (handle_key unique_ids fuel ch s)
  unfolding handle_key
  handle_key-Kept unique_ids fuel ch s h =
      Ensures-bind (add_or_remove fuel ch s) _ (add_or_remove-Kept fuel ch s h) (λ s₁ h₁.
        Ensures-bind (add_back unique_ids fuel ch s₁) _ (add_back-Kept unique_ids fuel ch s₁ h₁)
          (λ s₂ h₂. Ensures-bind (rename ch s₂) _ (rename-Kept ch s₂ h₂) (λ s₃ h₃.
            Ensures-bind (toggle_lights ch s₃) _ (toggle_lights-Kept ch s₃ h₃) (λ s₄ h₄.
              Ensures-bind (warm ch s₄) _ (warm-Kept ch s₄ h₄) (λ s₅ h₅.
                Ensures-bind (change_rooms ch s₅) _ (change_rooms-Kept ch s₅ h₅) (λ s₆ h₆.
                  Ensures-bind (change_reachable ch s₆) _ (change_reachable-Kept ch s₆ h₆) (λ s₇ h₇.
                    Ensures-when (ch == b'w') (on_light s₇.light1 bump_version) s₇ h₇
                      (light1-Kept bump_version s₇ bump_kind h₇))))))))

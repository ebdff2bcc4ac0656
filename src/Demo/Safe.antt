-- ===== src/Demo/Safe.antt =====
-- What the demo devices of matter-bridge-app/main.cpp keep of the bridge's databases.
use mathlib.Core.Path.{subst}
use wemo_matter_bridge.Demo.Steps.{IsClosed}
use wemo_matter_bridge.Prelude.{
  some_inj, ℕ, ◌<◌, ◌≡◌, refl, ◌∙◌, inl, inr, List, Option, none, some, get_elem?, Option-cases,
}
use wemo_matter_bridge.Device.Class.{Sdk, Report}
use wemo_matter_bridge.Device.Light.{Light, is_dimmer}
use wemo_matter_bridge.Device.Sensors.{SensorSdk}
use wemo_matter_bridge.Bridge.State.{Bridge, Effect}
use wemo_matter_bridge.Bridge.Write.{k_dynamic_endpoint_count}
use wemo_matter_bridge.Bridge.Endpoints.{add_device_endpoint}
use wemo_matter_bridge.Bridge.WellFormed.{IsWellFormed, Live, store-IsWellFormed}
use wemo_matter_bridge.Bridge.Keeps.{Frame, stored-Frame}
use wemo_matter_bridge.Bridge.Faults.{Live-object}
use wemo_matter_bridge.Bridge.Static.{add-Keeps, remove-Keeps}
use wemo_matter_bridge.Demo.Class.{DemoSdk}
use wemo_matter_bridge.Demo.State.{update_light}

module _ ⦃c : Sdk⦄ where
  -- The databases are well formed, the static lights at `a` and `b` are there, and the slot of the
  -- power source is empty.
  pub record IsSafe (s : Bridge) (a b : ℕ) : Type 0 where
    pub well_formed : IsWellFormed s
    pub live1 : Live (s.heap a)
    pub live2 : Live (s.heap b)
    pub below1 : a < s.next_address
    pub below2 : b < s.next_address
    pub no_power_source : get_elem? s.devices k_dynamic_endpoint_count ≡ some none

  pub framed-IsSafe :
      {s s' : Bridge} {a b : ℕ} → IsSafe s a b → IsWellFormed s' × Frame s s' → IsSafe s' a b
  framed-IsSafe {s} {s'} {a} {b} h (w, f) = record {
    well_formed = w;
    live1 = f.alive a h.live1;
    live2 = f.alive b h.live2;
    below1 = rw f.next h.below1;
    below2 = rw f.next h.below2;
    no_power_source = f.last_slot ∙ h.no_power_source;
  }

  -- More effects change nothing of it.
  effects-IsSafe :
      (s : Bridge) (es : List Effect) {a b : ℕ}
      → IsSafe s a b
      → IsSafe (record s { effects = es }) a b
  effects-IsSafe s es h = framed-IsSafe h (
    record {
      entries = h.well_formed.entries;
      distinct = h.well_formed.distinct;
      slots = h.well_formed.slots;
      capacity = h.well_formed.capacity;
      size = h.well_formed.size;
    },
    record { alive = λ x k. k; next = refl; last_slot = refl },
  )

module _ ⦃c : Sdk⦄ ⦃d : SensorSdk⦄ ⦃m : DemoSdk⦄ where
  updated-IsSafe :
      (x : ℕ) (f : Light → Light × List Report) (s s' : Bridge) (a b : ℕ)
      → ((l : Light) → is_dimmer (f l).0 ≡ is_dimmer l)
      → IsSafe s a b
      → update_light x f s ≡ some s'
      → IsSafe s' a b
  unfolding update_light
  updated-IsSafe x f s s' a b kind h e = elim (Option-cases (s.heap x)) [
    | inl q ↦ absurd (cc (rw (q, update_light) at e))
    | inr (l, q) ↦
        subst (λ t. IsSafe t a b) (some_inj (rw (q, update_light) at e))
          (framed-IsSafe h (
            store-IsWellFormed s x l (f l).0 _ h.well_formed q (kind l),
            stored-Frame s x (f l).0 s.lights _,
          ))
  ]

  added-IsSafe :
      (fuel x : ℕ) (s s' : Bridge) (o : Option ℕ) (a b : ℕ)
      → IsSafe s a b
      → Live (s.heap x)
      → x < s.next_address
      → add_device_endpoint fuel x 1 s ≡ some (o, s')
      → IsSafe s' a b
  added-IsSafe fuel x s s' o a b h live below e =
      let (l, object) = Live-object (s.heap x) live in
      framed-IsSafe h (add-Keeps fuel x 1 s s' o h.well_formed object below e)

  pub IsSafe-IsClosed : IsClosed IsSafe
  IsSafe-IsClosed = record {
    add1 = λ fuel a b s s' o h e. added-IsSafe fuel a s s' o a b h h.live1 h.below1 e;
    add2 = λ fuel a b s s' o h e. added-IsSafe fuel b s s' o a b h h.live2 h.below2 e;
    remove1 = λ a b s h. framed-IsSafe h (remove-Keeps a s h.well_formed);
    update1 = λ a b f s s' kind h e. updated-IsSafe a f s s' a b kind h e;
    update2 = λ a b f s s' kind h e. updated-IsSafe b f s s' a b kind h e;
    effects = λ a b s es h. effects-IsSafe s es h;
  }

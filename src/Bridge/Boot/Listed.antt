-- ===== src/Bridge/Boot/Listed.antt =====
-- The entries that `ApplicationInit` of matter-bridge-app/main.cpp publishes are those of discovered
-- devices.
use mathlib.Core.Path.{subst}
use wemo_matter_bridge.Prelude.{
  ℕ, ◌≡◌, inl, inr, List, [], ◌∷◌, Option, none, some, some_inj, length, leb, Bool-cases,
  Option-cases, All, All-append, Text,
}
use wemo_matter_bridge.Adapter.Types.{WemoDevice}
use wemo_matter_bridge.Device.Class.{Sdk}
use wemo_matter_bridge.Bridge.State.{Bridge, BridgedWemoLight}
use wemo_matter_bridge.Bridge.Write.{k_dynamic_endpoint_count}
use wemo_matter_bridge.Bridge.Endpoints.{add_device_endpoint}
use wemo_matter_bridge.Bridge.Startup.{
  new_light, new_entry, push_entry, finish_publish, publish, publish_all, reset, sort_devices,
  application_init,
}
use wemo_matter_bridge.Bridge.Placed.{Moved, add_device_endpoint-Outcome, stored_self}
use wemo_matter_bridge.Bridge.Sequence.{sort_devices-All}

module _ ⦃c : Sdk⦄ (P : Text → Type 0) where
  abbrev OfEntry : BridgedWemoLight → Type 0
  OfEntry e = P e.udn

  abbrev OfDevice : WemoDevice → Type 0
  OfDevice d = P d.udn

  finish-All :
      (d : WemoDevice) (s : Bridge) (o : Option ℕ) (s₁ s' : Bridge)
      → P d.udn
      → All OfEntry s.lights
      → Moved s.next_address (new_light d) (push_entry d s) s₁
      → finish_publish d s (o, s₁) ≡ some s'
      → All OfEntry s'.lights
  unfolding finish_publish push_entry
  finish-All d s none s₁ s' p h m e = subst (λ t. All OfEntry t.lights) (some_inj e) h
  finish-All d s (some i) s₁ s' p h m e =
      subst (λ t. All OfEntry t.lights) (some_inj (rw (m.object, finish_publish) at e))
        (rw m.lights (All-append OfEntry s.lights (new_entry d s.next_address) h p))

  publish-All :
      (fuel : ℕ) (d : WemoDevice) (s s' : Bridge)
      → P d.udn
      → All OfEntry s.lights
      → publish fuel d s ≡ some s'
      → All OfEntry s'.lights
  unfolding publish
  publish-All fuel d s s' p h e =
      elim (Bool-cases (leb k_dynamic_endpoint_count (length s.lights))) [
        | inl full ↦ subst (λ t. All OfEntry t.lights) (some_inj (rw (full, publish) at e)) h
        | inr room ↦
            elim (Option-cases (add_device_endpoint fuel s.next_address 1 (push_entry d s))) [
              | inl q ↦ absurd (none-ne-some (rw (q, publish) at (rw (room, publish) at e)))
              | inr ((o, s₁), q) ↦
                  finish-All d s o s₁ s' p h
                    (add_device_endpoint-Outcome fuel s.next_address 1 (push_entry d s) s₁ o pushed
                      q).0
                    (rw (q, publish) at (rw (room, publish) at e))
            ]
      ]
    where
      pushed : (push_entry d s).heap s.next_address ≡ some (new_light d)
      pushed = stored_self s.heap s.next_address (some (new_light d))

      none-ne-some : none ≡ some s' → ⊥
      none-ne-some k = cc

  publish_all-All :
      (fuel : ℕ) (ds : List WemoDevice) (s s' : Bridge)
      → All OfDevice ds
      → All OfEntry s.lights
      → publish_all fuel ds s ≡ some s'
      → All OfEntry s'.lights
  unfolding publish_all
  publish_all-All fuel [] s s' ps h e = subst (λ t. All OfEntry t.lights) (some_inj e) h
  publish_all-All fuel (d ∷ ds) s s' ps h e = elim (Option-cases (publish fuel d s)) [
    | inl q ↦ absurd (none-ne-some (rw (q, publish_all) at e))
    | inr (s₁, q) ↦
        publish_all-All fuel ds s₁ s' ps.1 (publish-All fuel d s s₁ ps.0 h q)
          (rw (q, publish_all) at e)
  ]
    where
      none-ne-some : none ≡ some s' → ⊥
      none-ne-some k = cc

  pub application_init-All :
      (fuel last : ℕ) (ds : List WemoDevice) (s s' : Bridge)
      → All OfDevice ds
      → application_init fuel last ds s ≡ some s'
      → All OfEntry s'.lights
  unfolding application_init reset
  application_init-All fuel last ds s s' h e =
      publish_all-All fuel (sort_devices ds) (reset last s) s' (sort_devices-All OfDevice ds h) tt e

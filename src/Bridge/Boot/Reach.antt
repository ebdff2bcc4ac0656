-- ===== src/Bridge/Boot/Reach.antt =====
-- From start-up to the device: a write to a light that `ApplicationInit` of
-- matter-bridge-app/main.cpp has published reaches the engine.
use wemo_matter_bridge.Prelude.{
  ℕ, ◌≡◌, ◌≢◌, refl, sym, ap, ◌∙◌, inl, inr, ℤ, true, false, not, List, [], ◌∷◌, ◌++◌, Option, none,
  some, some_inj, ◌==◌, find_first, All, All-find_first, All-imp, Option-cases, Text, text_eq_refl,
  is_empty,
}
use mathlib.Core.Path.{subst}
use wemo_matter_bridge.Adapter.Types.{WemoDevice}
use wemo_matter_bridge.Device.Class.{Sdk}
use wemo_matter_bridge.Device.Light.{Light, is_reachable}
use wemo_matter_bridge.Adapter.Engine.{
  Engine, we_set_action, we_discover, we_register_event_callback,
}
use wemo_matter_bridge.Adapter.OpenWemo.{
  Adapter, call, find_id, discover, refresh, register_state_callback,
}
use wemo_matter_bridge.Adapter.Cache.{
  last_id, or_else, discover_lem, ensure_ready, command_cached, on_state,
}
use wemo_matter_bridge.Bridge.State.{Bridge, BridgedWemoLight, Command, owns}
use wemo_matter_bridge.Bridge.Write.{success, OnOffAttribute, handle_write_on_off_attribute}
use wemo_matter_bridge.Bridge.Startup.{application_init}
use wemo_matter_bridge.Bridge.Settle.{after_write, write_on_off_result}
use wemo_matter_bridge.Bridge.Publish.{application_init-IsWellFormed}
use wemo_matter_bridge.Bridge.Threads.{run_command, started_commands}
use wemo_matter_bridge.Bridge.Threads.Race.{started_then}
use wemo_matter_bridge.Bridge.Boot.{boot}
use wemo_matter_bridge.Bridge.Boot.Listed.{application_init-All}

-- A device with the udn was discovered, if it is one.
abbrev Known : List WemoDevice → Text → Type 0
Known ds udn = is_empty udn ≡ false → last_id udn ds ≢ none

or_else-some : (o : Option ℤ) (i : Option ℤ) → i ≢ none → or_else o i ≢ none
or_else-some none i h = h
or_else-some (some j) i h = λ e. cc

or_else-first : (o : Option ℤ) (i : Option ℤ) → o ≢ none → or_else o i ≢ none
or_else-first none i h = absurd (h refl)
or_else-first (some j) i h = λ e. cc

All-Known : (ds : List WemoDevice) → All (λ d. Known ds d.udn) ds
unfolding last_id
All-Known [] = tt
All-Known (d ∷ ds) = (
  λ h. rw (h, text_eq_refl d.udn) (or_else-some (last_id d.udn ds) (some d.wemo_id) (λ e. cc)),
  All-imp ds (λ x known h. or_else-first (last_id x.udn ds) _ (known h)) (All-Known ds),
)

module _ (g : Engine) where
  -- What follows the publishing leaves the cache and a ready engine as they are.
  register_ready :
      (a : Adapter)
      → a.initialized ≡ true
      → register_state_callback g a
        ≡ record (call we_register_event_callback a) { state_callback = true }
  unfolding register_state_callback
  register_ready a h = rw (ensure_ready g a h, register_state_callback) refl

  refresh_ready : (a : Adapter) → a.initialized ≡ true → refresh g a ≡ call we_discover a
  unfolding refresh
  refresh_ready a h = rw (ensure_ready g a h, refresh) refl

  abbrev after_boot : Adapter → Adapter
  after_boot a =
      call we_discover (record (call we_register_event_callback a) { state_callback = true })

  finish_ready :
      (a : Adapter) → a.initialized ≡ true → refresh g (register_state_callback g a) ≡ after_boot a
  finish_ready a h =
      ap (refresh g) (register_ready a h)
      ∙ refresh_ready (record (call we_register_event_callback a) { state_callback = true }) h

  -- After a discovery, a udn that was discovered is in the cache.
  cached-Known :
      (a : Adapter) (udn : Text)
      → is_empty udn ≡ false
      → Known (discover g a).0 udn
      → (id : ℤ) × (last_id udn (discover g a).0 ≡ some id)
        × (find_id udn (discover g a).1.udn_to_wemo_id ≡ some id)
  unfolding last_id
  cached-Known a udn proper known = elim (Option-cases (last_id udn (discover g a).0)) [
    | inl e ↦ absurd (known proper e)
    | inr (id, e) ↦ elim (discover_lem g a).cached [
      | inl (empty, _) ↦ absurd (known proper (rw empty nothing))
      | inr cached ↦ (id, e, cached udn ∙ e)
    ]
  ]
    where
      nothing : last_id udn [] ≡ none
      nothing = refl

module _ ⦃c : Sdk⦄ (g : Engine) where
  -- The parts of a start-up that ends.
  boot_parts :
      (fuel last : ℕ) (a a' : Adapter) (s s' : Bridge)
      → boot g fuel last a s ≡ some (s', a')
      → (application_init fuel last (discover g a).0 s ≡ some s')
        × (refresh g (register_state_callback g (discover g a).1) ≡ a')
  unfolding boot
  boot_parts fuel last a a' s s' h =
      elim (Option-cases (application_init fuel last (discover g a).0 s)) [
        | inl q ↦ absurd (none-ne-some (rw (q, boot) at h))
        | inr (s₁, q) ↦
            let same : ◌≡◌ {A = Bridge × Adapter}
                (s₁, refresh g (register_state_callback g (discover g a).1)) (s', a') =
              some_inj (rw (q, boot) at h) in
            (q ∙ ap (λ r. some (r.0)) same, ap (λ r. r.1) same)
      ]
    where
      none-ne-some : ◌≡◌ {A = Option (Bridge × Adapter)} none (some (s', a')) → ⊥
      none-ne-some e = cc

  -- After a start-up that ends with a ready engine, an on/off write to any reachable published light
  -- that has a udn succeeds and starts one thread more. Run on the adapter that start-up leaves, the
  -- thread makes one call of the engine, which sets the state of the byte on the id of the last
  -- discovered device with that udn.
  pub write_reaches_engine :
      (fuel last dev byte now : ℕ) (a a' : Adapter) (s s' : Bridge) {l : Light}
      {e : BridgedWemoLight}
      → boot g fuel last a s ≡ some (s', a')
      → (discover g a).1.initialized ≡ true
      → find_first (owns dev) s'.lights ≡ some e
      → is_empty e.udn ≡ false
      → s'.heap dev ≡ some l
      → is_reachable l ≡ true
      → let k = Command.set_on_off e.udn (not (byte == 0)) in
        (id : ℤ) × (s₂ : Bridge) × (last_id e.udn (discover g a).0 ≡ some id)
        × (handle_write_on_off_attribute dev OnOffAttribute.on_off byte now s' ≡ some (success, s₂))
        × (started_commands s₂.effects ≡ started_commands s'.effects ++ k ∷ [])
        × (run_command g k a' ≡ call (we_set_action id (on_state (not (byte == 0)))) a')
  unfolding run_command
  write_reaches_engine fuel last dev byte now a a' s s' {l} {e} booted ready found proper object
        up =
      let (ran, finished) = boot_parts fuel last a a' s s' booted in
      let w = application_init-IsWellFormed fuel last (discover g a).0 s s' ran in
      let known =
        All-find_first (λ x. Known (discover g a).0 x.udn) (owns dev) s'.lights
          (application_init-All (Known (discover g a).0) fuel last (discover g a).0 s s'
            (All-Known (discover g a).0) ran)
          found in
      let (id, listed, cached) = cached-Known g a e.udn proper known in
      let adapter_is : after_boot g (discover g a).1 ≡ a' =
        sym (finish_ready g (discover g a).1 ready) ∙ finished in
      let on = not (byte == 0) in
      (
        id,
        after_write dev on now s' l e,
        listed,
        write_on_off_result dev byte now s' w found object up,
        started_then s'.effects _ (Command.set_on_off e.udn on),
        subst
            (λ x.
              run_command g (Command.set_on_off e.udn on) x
              ≡ call (we_set_action id (on_state on)) x)
            adapter_is
            (ap (λ r. r.1)
              (command_cached g e.udn on 0 (after_boot g (discover g a).1) ready cached).0),
      )

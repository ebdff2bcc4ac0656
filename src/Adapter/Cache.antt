-- ===== src/Adapter/Cache.antt =====
-- The udn cache of the adapter: what a discovery puts there, and which device a command goes to.
use wemo_matter_bridge.Prelude.{
  ℕ, suc, ◌≤◌, ◌≡◌, refl, ap, ◌⊎◌, ◌∙◌, inl, inr, ℤ, pos, Bool, true, false, not, ◌&&◌, List, [],
  ◌∷◌, ◌++◌, map, Option, none, some, arith, Bool-cases, Option-cases, All, Text, if◌then◌else◌,
  text_eq, is_empty, ltb, clamp_at, minus_one, length, length-take-le,
}
use wemo_matter_bridge.Adapter.Types.{WemoDevice}
use wemo_matter_bridge.Adapter.Engine.{
  Engine, WeDeviceInfo, WeState, we_discover, we_list_devices, we_set_action,
}
use wemo_matter_bridge.Adapter.Setup.{maybe_configure_cases}
use wemo_matter_bridge.Adapter.OpenWemo.{
  maybe_configure_ipc_target, Adapter, call, clamp_count, to_device, enter_devices, find_id,
  ensure_engine_initialized, list_after_discover, discover_ready, discover, send_state,
  send_after_refresh, send_to_udn, set_on_off, set_level_percent, nonzero,
}

-- What a map owes to a list of devices: the id of the last one with the udn, and else its old value.
abbrev pub or_else {ℓ} : {A : Type ℓ} → Option A → Option A → Option A
or_else none b = b
or_else (some a) b = some a

-- The id of the last device of the list that has the udn; a device without a udn has none.
unfoldable pub last_id : Text → List WemoDevice → Option ℤ
last_id udn [] = none
last_id udn (d ∷ ds) =
    or_else (last_id udn ds)
      (if not (is_empty d.udn) && text_eq d.udn udn then some d.wemo_id else none)

find_id-enter_devices :
    (udn : Text) (items : List WeDeviceInfo) (m : List (Text × ℤ))
    → find_id udn (enter_devices items m)
      ≡ or_else (last_id udn (map to_device items)) (find_id udn m)
unfolding find_id enter_devices last_id to_device
find_id-enter_devices udn [] m = refl
find_id-enter_devices udn (d ∷ ds) m =
    find_id-enter_devices udn ds (if is_empty d.udn then m else (d.udn, d.wemo_id) ∷ m)
    ∙ ground arith

or_else-none : (a : Option ℤ) → or_else a none ≡ a
or_else-none none = refl
or_else-none (some a) = refl

-- The ranges of a discovered device.
abbrev pub InRange : WemoDevice → Type 0
InRange d = (d.level_percent ≤ 100) × (d.onoff ≤ 1)

to_device-InRange : (i : WeDeviceInfo) → InRange (to_device i)
unfolding to_device
to_device-InRange i = ground arith

map-InRange : (items : List WeDeviceInfo) → All InRange (map to_device items)
map-InRange [] = tt
map-InRange (i ∷ is) = (to_device-InRange i, map-InRange is)

length-map : (items : List WeDeviceInfo) → length (map to_device items) ≡ length items
length-map [] = refl
length-map (i ∷ is) = ap suc (length-map is)

clamp_count-le : (hi : ℕ) (n : ℤ) → clamp_count hi n ≤ hi
clamp_count-le hi n = ground arith

abbrev pub on_state : Bool → WeState
on_state on = record { is_online = pos 1; state = if on then pos 1 else pos 0; level = minus_one }

abbrev pub level_state : ℕ → WeState
level_state percent = record {
  is_online = pos 1;
  state = if ltb 0 percent then pos 1 else pos 0;
  level = pos percent;
}

maybe_configure_cache :
    (s : Adapter) → (maybe_configure_ipc_target s).udn_to_wemo_id ≡ s.udn_to_wemo_id
maybe_configure_cache s = elim (maybe_configure_cases s) [
  | inl same ↦ ap (λ t. t.udn_to_wemo_id) same
  | inr (host, port, set) ↦ ap (λ t. t.udn_to_wemo_id) set
]

module _ (g : Engine) where
  ensure_cache : (s : Adapter) → (ensure_engine_initialized g s).1.udn_to_wemo_id ≡ s.udn_to_wemo_id
  unfolding ensure_engine_initialized
  ensure_cache s = ground (arith, maybe_configure_cache s)

  pub ensure_ready :
      (s : Adapter) → s.initialized ≡ true → ensure_engine_initialized g s ≡ (true, s)
  unfolding ensure_engine_initialized
  ensure_ready s h = simp (h, ensure_engine_initialized)

  listed_cache : (s : Adapter) → (list_after_discover g s).1.udn_to_wemo_id ≡ s.udn_to_wemo_id
  unfolding list_after_discover
  listed_cache s = refl

  pub listed_calls :
      (s : Adapter)
      → (list_after_discover g s).1.calls ≡ (s.calls ++ we_discover ∷ []) ++ we_list_devices ∷ []
  unfolding list_after_discover
  listed_calls s = refl

  listed_bound :
      (s : Adapter) (items : List WeDeviceInfo)
      → (list_after_discover g s).0 ≡ some items
      → length items ≤ g.max_items
  unfolding list_after_discover
  listed_bound s items h =
      let list = (g.list_devices (s.calls ++ we_discover ∷ [])).1 in
      let n = clamp_count g.max_items list.count in
      ground (arith, length-take-le n list.items, clamp_count-le g.max_items list.count)

  -- What a discovery returns and leaves in the cache.
  pub record Discovered (s : Adapter) (r : List WemoDevice × Adapter) : Type 0 where
    pub ranges : All InRange r.0
    pub bounded : length r.0 ≤ g.max_items
    pub cached :
        ((r.0 ≡ []) × (r.1.udn_to_wemo_id ≡ s.udn_to_wemo_id))
        ⊎ ((udn : Text) → find_id udn r.1.udn_to_wemo_id ≡ last_id udn r.0)

  ready-Discovered : (s : Adapter) → Discovered s (discover_ready g s)
  unfolding discover_ready find_id
  ready-Discovered s = elim (Option-cases (list_after_discover g s).0) [
    | inl q ↦
        rw (q, discover_ready)
          (record { ranges = tt; bounded = omega arith; cached = inl (refl, listed_cache s) })
    | inr (items, q) ↦
        rw (q, discover_ready)
          (record {
            ranges = map-InRange items;
            bounded = omega (arith, length-map items, listed_bound s items q);
            cached = inr (λ udn. find_id-enter_devices udn items [] ∙ or_else-none _);
          })
  ]

  -- Every discovery, however the engine answers, returns at most as many devices as the engine's list
  -- holds, each with a level of at most 100 and an on/off value of 0 or 1. Either it returns no
  -- device and leaves the cache as it was, or the cache then holds, for every udn, the id of the last
  -- returned device with that udn, and nothing for a udn that no returned device has.
  pub discover_lem : (s : Adapter) → Discovered s (discover g s)
  unfolding discover
  discover_lem s = elim (Bool-cases (ensure_engine_initialized g s).0) [
    | inl q ↦ rw q (from_ready (ready-Discovered (ensure_engine_initialized g s).1))
    | inr q ↦
        rw q (record { ranges = tt; bounded = omega arith; cached = inl (refl, ensure_cache s) })
  ]
    where
      from_ready :
          {r : List WemoDevice × Adapter}
          → Discovered (ensure_engine_initialized g s).1 r
          → Discovered s r
      from_ready {r} h = record {
        ranges = h.ranges;
        bounded = h.bounded;
        cached = rw (ensure_cache s) at h.cached;
      }

  -- With a ready engine and a udn in the cache, a command goes to the cached id, in one call of the
  -- engine, and its result is whether that call answered other than 0. A level command sends the
  -- percent, cut to 100, with the state on exactly if that is not 0.
  pub command_cached :
      (udn : Text) (on : Bool) (percent : ℕ) (s : Adapter) {id : ℤ}
      → s.initialized ≡ true
      → find_id udn s.udn_to_wemo_id ≡ some id
      → let level = level_state (clamp_at 100 percent) in
        (set_on_off g udn on s ≡ (
          nonzero (g.set_action s.calls id (on_state on)),
          call (we_set_action id (on_state on)) s,
        ))
        × (set_level_percent g udn percent s
            ≡ (nonzero (g.set_action s.calls id level), call (we_set_action id level) s))
  unfolding set_on_off set_level_percent send_to_udn send_state
  command_cached udn on percent s {id} h q = (
    rw (ensure_ready s h, set_on_off) (rw (q, send_to_udn) refl),
    rw (ensure_ready s h, set_level_percent) (rw (q, send_to_udn) refl),
  )

  -- The state after a listing that is entered into the cache.
  unfoldable pub relisted : List WeDeviceInfo → Adapter → Adapter
  relisted items s = record ((list_after_discover g s).1) {
    udn_to_wemo_id = enter_devices items s.udn_to_wemo_id;
  }

  pub send_listed :
      (udn : Text) (state level : ℤ) (s : Adapter) (items : List WeDeviceInfo) {o : Option ℤ}
      → find_id udn s.udn_to_wemo_id ≡ none
      → (list_after_discover g s).0 ≡ some items
      → last_id udn (map to_device items) ≡ o
      → send_to_udn g udn state level s ≡ (elim o as (λ _. Bool × Adapter) [
        | none ↦ (false, relisted items s)
        | some id ↦ send_state g id state level (relisted items s)
      ])
  unfolding send_to_udn send_after_refresh relisted
  send_listed udn state level s items {o} q l m =
      rw (q, send_to_udn)
        (rw (l, send_after_refresh)
          (rw (find_id-enter_devices udn items s.udn_to_wemo_id, send_after_refresh)
            (rw (m, q) (rw (or_else-none o) refl))))

  -- With a ready engine and a udn that neither the cache nor the refreshed device list has, a command
  -- fails after a discovery and a listing, and nothing is sent to any device.
  pub command_unknown :
      (udn : Text) (on : Bool) (percent : ℕ) (s : Adapter) {items : List WeDeviceInfo}
      → s.initialized ≡ true
      → find_id udn s.udn_to_wemo_id ≡ none
      → (list_after_discover g s).0 ≡ some items
      → last_id udn (map to_device items) ≡ none
      → ((set_on_off g udn on s).0 ≡ false)
        × ((set_on_off g udn on s).1.calls ≡ (s.calls ++ we_discover ∷ []) ++ we_list_devices ∷ [])
        × ((set_level_percent g udn percent s).0 ≡ false)
        × ((set_level_percent g udn percent s).1.calls
            ≡ (s.calls ++ we_discover ∷ []) ++ we_list_devices ∷ [])
  unfolding set_on_off set_level_percent relisted
  command_unknown udn on percent s {items} h q l m =
      let sent = λ (state level : ℤ). send_listed udn state level s items q l m in
      (
        rw (ensure_ready s h, set_on_off) (ap (λ r. r.0) (sent _ _)),
        rw (ensure_ready s h, set_on_off) (ap (λ r. r.1.calls) (sent _ _) ∙ listed_calls s),
        rw (ensure_ready s h, set_level_percent) (ap (λ r. r.0) (sent _ _)),
        rw (ensure_ready s h, set_level_percent) (ap (λ r. r.1.calls) (sent _ _) ∙ listed_calls s),
      )

  -- With a ready engine, after a discovery that returned a device with the udn, an on/off command for
  -- the udn makes one call of the engine, which goes to the id of the last such device.
  pub discover_then_set :
      (udn : Text) (on : Bool) (s : Adapter) {id : ℤ}
      → (discover g s).1.initialized ≡ true
      → last_id udn (discover g s).0 ≡ some id
      → (set_on_off g udn on (discover g s).1).1.calls
        ≡ (discover g s).1.calls ++ we_set_action id (on_state on) ∷ []
  unfolding last_id
  discover_then_set udn on s {id} h q = elim (discover_lem s).cached [
    | inl (empty, _) ↦ absurd (no_device (rw empty at q))
    | inr cached ↦
        ap (λ r. r.1.calls) (command_cached udn on 0 (discover g s).1 h (cached udn ∙ q)).0
  ]
    where
      no_device : last_id udn [] ≡ some id → ⊥
      no_device e = cc

-- ===== src/Adapter/Setup.antt =====
-- How the operations of the adapter order their calls of the engine: set-up first, and only once.
use wemo_matter_bridge.Prelude.{
  ℕ, ◌+◌, ◌≤◌, ◌≡◌, refl, ◌∙◌, inl, inr, ℤ, Bool, true, false, List, [], ◌∷◌, ◌++◌, Option, none,
  some, arith, Bool-cases, Option-cases, All, All-append, Text, if◌then◌else◌, ◌⊎◌, ◌||◌, is_empty,
  atoi,
}
use wemo_matter_bridge.Adapter.Engine.{
  Engine, EngineCall, we_set_ipc_target, we_init, we_discover, we_list_devices,
}
use wemo_matter_bridge.Adapter.OpenWemo.{
  Adapter, call, maybe_configure_ipc_target, ensure_engine_initialized, list_after_discover,
  discover_ready, send_state, send_after_refresh, send_to_udn, find_id, split_last_colon,
  is_positive,
}

abbrev pub is_target : EngineCall → Bool
is_target (we_set_ipc_target host port) = true
is_target _ = false

abbrev pub count_targets : List EngineCall → ℕ
count_targets [] = 0
count_targets (k ∷ ks) = (if is_target k then 1 else 0) + count_targets ks

-- The calls that are made before the engine is initialised.
abbrev pub IsSetup : EngineCall → Type 0
IsSetup (we_set_ipc_target host port) = Unit
IsSetup we_init = Unit
IsSetup _ = ⊥

count_targets-append :
    (ks : List EngineCall) (k : EngineCall)
    → count_targets (ks ++ k ∷ []) ≡ count_targets ks + (if is_target k then 1 else 0)
count_targets-append [] k = omega arith
count_targets-append (j ∷ ks) k = omega (arith, count_targets-append ks k)

-- Before the target is configured the engine has not been called; the target is set at most once;
-- until the engine is initialised there are set-up calls only.
pub record IsOrdered (s : Adapter) : Type 0 where
  pub untouched : s.target_configured ≡ false → s.calls ≡ []
  pub configured : s.initialized ≡ true → s.target_configured ≡ true
  pub once : count_targets s.calls ≤ 1
  pub only_setup : s.initialized ≡ false → All IsSetup s.calls

-- A state in which the engine is ready, after any call that sets no target.
call-IsOrdered :
    (k : EngineCall) (s : Adapter)
    → s.initialized ≡ true
    → is_target k ≡ false
    → IsOrdered s
    → IsOrdered (call k s)
call-IsOrdered k s ready plain w = record {
  untouched = λ q. absurd (ground (arith, w.configured));
  configured = λ _. w.configured ready;
  once = ground (arith, count_targets-append s.calls k, w.once);
  only_setup = λ q. absurd (ground arith);
}

either :
    (a b : Bool) (x y : Adapter) → let z = if a then x else if b then y else x in (z ≡ x) ⊎ (z ≡ y)
either true b x y = inl refl
either false true x y = inr refl
either false false x y = inl refl

pub maybe_configure_cases :
    (s : Adapter)
    → (maybe_configure_ipc_target s ≡ s)
      ⊎ ((host : Text) × (port : ℤ) × (maybe_configure_ipc_target s
            ≡ call (we_set_ipc_target host port) s))
unfolding maybe_configure_ipc_target
maybe_configure_cases s = elim (Option-cases (split_last_colon s.engine_socket)) [
  | inl q ↦ inl (rw (q, maybe_configure_ipc_target) refl)
  | inr ((host, port), q) ↦
      rw (q, maybe_configure_ipc_target)
        (elim (either (is_empty host || is_empty port) (is_positive (atoi port)) s
          (call (we_set_ipc_target host (atoi port)) s)) [
            | inl same ↦ inl same
            | inr set ↦ inr (host, atoi port, set)
          ])
]

abbrev configure : Adapter → Adapter
configure s =
    if s.target_configured
    then s
    else record (maybe_configure_ipc_target s) { target_configured = true }

configure_once :
    (s : Adapter)
    → IsOrdered s
    → s.initialized ≡ false
    → ((configure s).target_configured ≡ true)
      × (count_targets (configure s).calls ≤ 1)
      × All IsSetup (configure s).calls
configure_once s w new = elim (Bool-cases s.target_configured) [
  | inl done ↦ simp done (refl, w.once, w.only_setup new)
  | inr first ↦ elim (maybe_configure_cases s) [
    | inl same ↦ simp (first, same) (refl, w.once, w.only_setup new)
    | inr (host, port, set) ↦ simp (first, set, w.untouched first) (refl, omega arith, (tt, tt))
  ]
]

-- A ready state: the engine is initialised.
pub record IsReady (s : Adapter) : Type 0 where
  pub ready : s.initialized ≡ true
  pub ordered : IsOrdered s

pub call-IsReady :
    (k : EngineCall) (s : Adapter) → is_target k ≡ false → IsReady s → IsReady (call k s)
call-IsReady k s plain w = record {
  ready = w.ready;
  ordered = call-IsOrdered k s w.ready plain w.ordered;
}

-- The order of the calls does not depend on the cache.
recache-IsReady :
    (m : List (Text × ℤ)) (s : Adapter) → IsReady s → IsReady (record s { udn_to_wemo_id = m })
recache-IsReady m s w = record {
  ready = w.ready;
  ordered = record {
    untouched = w.ordered.untouched;
    configured = w.ordered.configured;
    once = w.ordered.once;
    only_setup = w.ordered.only_setup;
  };
}

module _ (g : Engine) where
  -- Once it is told that the engine is ready, an operation adds no set-up call.
  pub ensure-IsOrdered :
      (s : Adapter)
      → IsOrdered s
      → IsOrdered (ensure_engine_initialized g s).1
        × ((ensure_engine_initialized g s).1.initialized ≡ (ensure_engine_initialized g s).0)
  unfolding ensure_engine_initialized
  ensure-IsOrdered s w = elim (Bool-cases s.initialized) [
    | inl ready ↦ simp (ready, ensure_engine_initialized) (w, refl)
    | inr new ↦
        simp (new, ensure_engine_initialized)
          (
            record {
              untouched = λ q. absurd (ground (arith, (configure_once s w new).0));
              configured = λ _. (configure_once s w new).0;
              once =
                  ground (
                    arith,
                    configure_once s w new,
                    count_targets-append (configure s).calls we_init,
                  );
              only_setup =
                  λ _. All-append IsSetup (configure s).calls we_init (configure_once s w new).2 tt;
            },
            refl,
          )
  ]

  listed-IsReady : (s : Adapter) → IsReady s → IsReady (list_after_discover g s).1
  unfolding list_after_discover
  listed-IsReady s w = call-IsReady we_list_devices _ refl (call-IsReady we_discover s refl w)

  pub discover_ready-IsReady : (s : Adapter) → IsReady s → IsReady (discover_ready g s).1
  unfolding discover_ready
  discover_ready-IsReady s w = elim (Option-cases (list_after_discover g s).0) [
    | inl q ↦ rw (q, discover_ready) (listed-IsReady s w)
    | inr (items, q) ↦ rw (q, discover_ready) (recache-IsReady _ _ (listed-IsReady s w))
  ]

  send_state-IsReady :
      (id state level : ℤ) (s : Adapter) → IsReady s → IsReady (send_state g id state level s).1
  unfolding send_state
  send_state-IsReady id state level s w = call-IsReady _ s refl w

  send_found-IsReady :
      (o : Option ℤ) (state level : ℤ) (s : Adapter)
      → IsReady s
      → IsReady
          (elim o as (λ _. Bool × Adapter) [
            | none ↦ (false, s)
            | some id ↦ send_state g id state level s
          ]).1
  send_found-IsReady none state level s w = w
  send_found-IsReady (some id) state level s w = send_state-IsReady id state level s w

  send_after_refresh-IsReady :
      (udn : Text) (state level : ℤ) (s : Adapter)
      → IsReady s
      → IsReady (send_after_refresh g udn state level s).1
  unfolding send_after_refresh
  send_after_refresh-IsReady udn state level s w = elim (Option-cases (list_after_discover g s).0) [
    | inl q ↦ rw (q, send_after_refresh) (listed-IsReady s w)
    | inr (items, q) ↦
        rw (q, send_after_refresh)
          (send_found-IsReady _ state level _ (recache-IsReady _ _ (listed-IsReady s w)))
  ]

  pub send_to_udn-IsReady :
      (udn : Text) (state level : ℤ) (s : Adapter)
      → IsReady s
      → IsReady (send_to_udn g udn state level s).1
  unfolding send_to_udn
  send_to_udn-IsReady udn state level s w = elim (Option-cases (find_id udn s.udn_to_wemo_id)) [
    | inl q ↦ rw (q, send_to_udn) (send_after_refresh-IsReady udn state level s w)
    | inr (id, q) ↦ rw (q, send_to_udn) (send_state-IsReady id state level s w)
  ]

  -- What an operation does once the engine is ready decides what it does to the order.
  pub guarded-IsOrdered {ℓ} :
      {A : Type ℓ} (s : Adapter) (fallback : A) (run : Adapter → A × Adapter)
      → ((t : Adapter) → IsReady t → IsReady (run t).1)
      → IsOrdered s
      → IsOrdered
          (let (ready, s₁) = ensure_engine_initialized g s in
            if ready then run s₁ else (fallback, s₁)).1
  guarded-IsOrdered s fallback run keeps w = elim (Bool-cases (ensure_engine_initialized g s).0) [
    | inl q ↦
        rw q
          (keeps _ (record {
            ready = (ensure-IsOrdered s w).1 ∙ q;
            ordered = (ensure-IsOrdered s w).0;
          })).ordered
    | inr q ↦ rw q (ensure-IsOrdered s w).0
  ]

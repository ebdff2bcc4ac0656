-- ===== src/Adapter/Uses.antt =====
-- Every use of the adapter, in any order: the engine is set up first, and its target only once.
use wemo_matter_bridge.Prelude.{
  ℕ, ◌≤◌, ◌≡◌, refl, ◌∙◌, inl, inr, pos, Bool, true, false, List, [], ◌∷◌, arith, Bool-cases, All,
  Text, if◌then◌else◌, ltb, clamp_at, minus_one,
}
use wemo_matter_bridge.Adapter.Engine.{Engine, we_discover, we_register_event_callback}
use wemo_matter_bridge.Adapter.OpenWemo.{
  Adapter, ensure_engine_initialized, discover_ready, discover, refresh, register_state_callback,
  send_to_udn, set_on_off, set_level_percent,
}
use wemo_matter_bridge.Adapter.Setup.{
  IsOrdered, IsReady, IsSetup, count_targets, ensure-IsOrdered, call-IsReady,
  discover_ready-IsReady, send_to_udn-IsReady, guarded-IsOrdered,
}

-- A use of the adapter.
pub data Use : Type 0 where
  discovers refreshes registers : Use
  sets_on_off : Text → Bool → Use
  sets_level : Text → ℕ → Use

-- A new adapter, before its first use.
unfoldable pub new_adapter : Text → Adapter
new_adapter socket = record {
  engine_socket = socket;
  udn_to_wemo_id = [];
  target_configured = false;
  initialized = false;
  state_callback = false;
  calls = [];
}

module _ (g : Engine) where
  unfoldable pub perform : Use → Adapter → Adapter
  unfolding discover refresh register_state_callback set_on_off set_level_percent
  perform discovers s = (discover g s).1
  perform refreshes s = refresh g s
  perform registers s = register_state_callback g s
  perform (sets_on_off udn on) s = (set_on_off g udn on s).1
  perform (sets_level udn percent) s = (set_level_percent g udn percent s).1

  unfoldable pub perform_all : List Use → Adapter → Adapter
  unfolding perform
  perform_all [] s = s
  perform_all (u ∷ us) s = perform_all us (perform u s)

  callback-IsReady : (s : Adapter) → IsReady s → IsReady (record s { state_callback = true })
  callback-IsReady s w = record {
    ready = w.ready;
    ordered = record {
      untouched = w.ordered.untouched;
      configured = w.ordered.configured;
      once = w.ordered.once;
      only_setup = w.ordered.only_setup;
    };
  }

  refresh-IsOrdered : (s : Adapter) → IsOrdered s → IsOrdered (refresh g s)
  unfolding refresh
  refresh-IsOrdered s w = elim (Bool-cases (ensure_engine_initialized g s).0) [
    | inl q ↦
        let (ordered, same) = ensure-IsOrdered g s w in
        rw (q, refresh)
          (call-IsReady we_discover _ refl (record { ready = same ∙ q; ordered = ordered })).ordered
    | inr q ↦ rw (q, refresh) (ensure-IsOrdered g s w).0
  ]

  register-IsOrdered : (s : Adapter) → IsOrdered s → IsOrdered (register_state_callback g s)
  unfolding register_state_callback
  register-IsOrdered s w = elim (Bool-cases (ensure_engine_initialized g s).0) [
    | inl q ↦
        let (ordered, same) = ensure-IsOrdered g s w in
        rw (q, register_state_callback)
          (callback-IsReady _ (
            call-IsReady we_register_event_callback _ refl
              (record { ready = same ∙ q; ordered = ordered }))).ordered
    | inr q ↦ rw (q, register_state_callback) (ensure-IsOrdered g s w).0
  ]

  perform-IsOrdered : (u : Use) (s : Adapter) → IsOrdered s → IsOrdered (perform u s)
  unfolding perform discover set_on_off set_level_percent
  perform-IsOrdered discovers s w =
      guarded-IsOrdered g s [] (discover_ready g) (discover_ready-IsReady g) w
  perform-IsOrdered refreshes s w = refresh-IsOrdered s w
  perform-IsOrdered registers s w = register-IsOrdered s w
  perform-IsOrdered (sets_on_off udn on) s w =
      let state = if on then pos 1 else pos 0 in
      guarded-IsOrdered g s false (send_to_udn g udn state minus_one)
        (send_to_udn-IsReady g udn state minus_one) w
  perform-IsOrdered (sets_level udn percent) s w =
      let clamped = clamp_at 100 percent in
      let state = if ltb 0 clamped then pos 1 else pos 0 in
      guarded-IsOrdered g s false (send_to_udn g udn state (pos clamped))
        (send_to_udn-IsReady g udn state (pos clamped)) w

  perform_all-IsOrdered : (us : List Use) (s : Adapter) → IsOrdered s → IsOrdered (perform_all us s)
  unfolding perform_all
  perform_all-IsOrdered [] s w = w
  perform_all-IsOrdered (u ∷ us) s w =
      perform_all-IsOrdered us (perform u s) (perform-IsOrdered u s w)

  new_adapter-IsOrdered : (socket : Text) → IsOrdered (new_adapter socket)
  unfolding new_adapter
  new_adapter-IsOrdered socket = record {
    untouched = λ _. refl;
    configured = λ q. absurd (cc);
    once = omega arith;
    only_setup = λ _. tt;
  }

  -- Whatever a new adapter is used for, and however the engine answers, the target of the engine is
  -- set at most once.
  pub target_set_once :
      (socket : Text) (us : List Use)
      → count_targets (perform_all us (new_adapter socket)).calls ≤ 1
  target_set_once socket us = (perform_all-IsOrdered us _ (new_adapter-IsOrdered socket)).once

  -- As long as no initialisation has succeeded, an adapter has made no call of the engine but those
  -- that set its target and try to initialise it.
  pub no_use_before_init :
      (socket : Text) (us : List Use)
      → (perform_all us (new_adapter socket)).initialized ≡ false
      → All IsSetup (perform_all us (new_adapter socket)).calls
  no_use_before_init socket us =
      (perform_all-IsOrdered us _ (new_adapter-IsOrdered socket)).only_setup

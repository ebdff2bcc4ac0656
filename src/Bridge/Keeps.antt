-- ===== src/Bridge/Keeps.antt =====
-- What the event handler and the write callback of matter-bridge-app/main.cpp leave alone.
use mathlib.Core.Path.{subst}
use wemo_matter_bridge.Prelude.{
  ℕ, ◌≡◌, refl, sym, ◌∙◌, inl, inr, Bool, not, ◌&&◌, List, ◌++◌, map, some, some_inj, ◌==◌, ltb,
  if◌then◌else◌, c_str, find_first, update_first, get_elem?, length, Text, Option-cases, Bool-cases,
}
use wemo_matter_bridge.Adapter.Types.{WemoStateEvent}
use wemo_matter_bridge.Device.Class.{Sdk}
use wemo_matter_bridge.Device.Dimmable.{DeviceDimmable, set_level}
use wemo_matter_bridge.Device.Light.{Light, on_off_light, dimmable_light, is_dimmer, is_reachable}
use wemo_matter_bridge.Device.Light
use wemo_matter_bridge.Bridge.State.{
  Bridge, BridgedWemoLight, Effect, reported, store, find_udn, owns, expire_on_off,
}
use wemo_matter_bridge.Bridge.Write.{
  Status, success, failure, is_on_off, is_current_level, is_node_label, OnOffAttribute,
  LevelControlAttribute, BasicAttribute, AttributePath, on_off_path, level_control_path,
  bridged_basic_path, temperature_path, other_path, first_byte, k_node_label_size,
  k_dynamic_endpoint_count, dispatch_on_off, dispatch_level, write_level, matched_ignores,
  handle_write_on_off_attribute, handle_write_level_control_attribute,
  handle_write_bridged_device_basic_attribute, write_light,
}
use wemo_matter_bridge.Bridge.Event.{handle_wemo_event_on_matter_thread}
use wemo_matter_bridge.Bridge.Event.Handled.{Reaches-handled, event_cases}
use wemo_matter_bridge.Bridge.WellFormed.{IsWellFormed, Live, Live-store, store-IsWellFormed}
use wemo_matter_bridge.Bridge.Preserved.{
  after_event-IsWellFormed, write_on_off-IsWellFormed, write_level-IsWellFormed,
}

module _ ⦃c : Sdk⦄ where
  -- Live objects stay live, nothing is allocated, and the slot behind the last endpoint stays.
  pub record Frame (s s' : Bridge) : Type 0 where
    pub alive : (a : ℕ) → Live (s.heap a) → Live (s'.heap a)
    pub next : s'.next_address ≡ s.next_address
    pub last_slot :
        get_elem? s'.devices k_dynamic_endpoint_count ≡ get_elem? s.devices k_dynamic_endpoint_count

  pub Frame-refl : (s : Bridge) → Frame s s
  Frame-refl s = record { alive = λ a h. h; next = refl; last_slot = refl }

  pub Frame-trans : {s t u : Bridge} → Frame s t → Frame t u → Frame s u
  Frame-trans f g = record {
    alive = λ a h. g.alive a (f.alive a h);
    next = g.next ∙ f.next;
    last_slot = g.last_slot ∙ f.last_slot;
  }

  pub stored-Frame :
      (s : Bridge) (dev : ℕ) (l : Light) (ls : List BridgedWemoLight) (es : List Effect)
      → Frame s (record s { heap = store s.heap dev (some l); lights = ls; effects = es })
  stored-Frame s dev l ls es = record {
    alive = λ a h. Live-store s.heap dev l a h;
    next = refl;
    last_slot = refl;
  }

  dispatch_on_off-Frame :
      (dev : ℕ) (b : Bool) (now : ℕ) (s : Bridge) → Frame s (dispatch_on_off dev b now s)
  unfolding dispatch_on_off
  dispatch_on_off-Frame dev b now s = elim (Option-cases (find_udn dev s.device_to_udn)) [
    | inl q ↦ rw (q, dispatch_on_off) (Frame-refl s)
    | inr (udn, q) ↦
        rw (q, dispatch_on_off) (record { alive = λ a h. h; next = refl; last_slot = refl })
  ]

  dispatch_level-Frame : (dev v now : ℕ) (s : Bridge) → Frame s (dispatch_level dev v now s)
  unfolding dispatch_level
  dispatch_level-Frame dev v now s = elim (Option-cases (find_udn dev s.device_to_udn)) [
    | inl q ↦ rw (q, dispatch_level) (Frame-refl s)
    | inr (udn, q) ↦
        rw (q, dispatch_level) (record { alive = λ a h. h; next = refl; last_slot = refl })
  ]

  write_level-Frame :
      (dev : ℕ) (d : DeviceDimmable) (v now later : ℕ) (s : Bridge)
      → Frame s (write_level dev d v now later s)
  unfolding write_level
  write_level-Frame dev d v now later s =
      elim (Bool-cases (matched_ignores v now (find_first (owns dev) s.lights))) [
        | inl q ↦ rw (q, write_level) (record { alive = λ a h. h; next = refl; last_slot = refl })
        | inr q ↦
            rw (q, write_level)
              (Frame-trans
                (stored-Frame s dev (dimmable_light (set_level v d).0)
                  (update_first (owns dev) (expire_on_off now) s.lights)
                  (s.effects ++ map reported (set_level v d).1))
                (dispatch_level-Frame dev v later _))
      ]

  -- A result that keeps the databases well formed, within the frame.
  abbrev pub Keeps : Bridge → Status × Bridge → Type 0
  Keeps s r = IsWellFormed r.1 × Frame s r.1

  on_off-Keeps :
      (dev : ℕ) (a : OnOffAttribute) (byte now : ℕ) (s : Bridge) {l : Light} {r : Status × Bridge}
      → IsWellFormed s
      → s.heap dev ≡ some l
      → handle_write_on_off_attribute dev a byte now s ≡ some r
      → Keeps s r
  unfolding handle_write_on_off_attribute
  on_off-Keeps dev a byte now s {l} {r} w object h =
      let (r', e, wf) = write_on_off-IsWellFormed dev a byte now s w object in
      (
        subst (λ x. IsWellFormed x.1) (some_inj (sym e ∙ h)) wf,
        elim (Bool-cases (is_on_off a && is_reachable l)) [
          | inr q ↦ subst (λ x. Frame s x.1) (some_inj (rw q at opened)) (Frame-refl s)
          | inl q ↦
              subst (λ x. Frame s x.1) (some_inj (rw q at opened))
                (Frame-trans
                  (stored-Frame s dev (Light.set_on_off (not (byte == 0)) l).0 s.lights _)
                  (dispatch_on_off-Frame dev (not (byte == 0)) now _))
        ],
      )
    where
      opened :
          (let (l', reports) = Light.set_on_off (not (byte == 0)) l in
            if is_on_off a && is_reachable l
            then some (
              success,
              dispatch_on_off dev (not (byte == 0)) now (record s {
                heap = store s.heap dev (some l');
                effects = s.effects ++ map reported reports;
              }),
            )
            else some (failure, s))
          ≡ some r
      opened = rw (object, handle_write_on_off_attribute) at h

  pub level-Keeps :
      (dev : ℕ) (a : LevelControlAttribute) (v now later : ℕ) (s : Bridge) (l : Light)
      {r : Status × Bridge}
      → IsWellFormed s
      → s.heap dev ≡ some l
      → handle_write_level_control_attribute dev a v now later s ≡ some r
      → Keeps s r
  unfolding handle_write_level_control_attribute
  level-Keeps dev a v now later s (on_off_light d) w object h =
      absurd (cc (rw (object, handle_write_level_control_attribute) at h))
  level-Keeps dev a v now later s (dimmable_light d) {r} w object h =
      elim (Bool-cases (is_current_level a && is_reachable (dimmable_light d))) [
        | inr q ↦ subst (Keeps s) (some_inj (rw q at opened)) (w, Frame-refl s)
        | inl q ↦ subst (Keeps s) (some_inj (rw q at opened)) (
          write_level-IsWellFormed dev d v now later s w object,
          write_level-Frame dev d v now later s,
        )
      ]
    where
      opened :
          (if is_current_level a && is_reachable (dimmable_light d)
            then some (success, write_level dev d v now later s)
            else some (failure, s))
          ≡ some r
      opened = rw (object, handle_write_level_control_attribute) at h

  pub is_dimmer-set_name : (n : Text) (l : Light) → is_dimmer (Light.set_name n l).0 ≡ is_dimmer l
  unfolding Light.set_name
  is_dimmer-set_name n (on_off_light d) = refl
  is_dimmer-set_name n (dimmable_light d) = refl

  basic-Keeps :
      (dev : ℕ) (a : BasicAttribute) (buffer : List ℕ) (s : Bridge) (l : Light)
      {r : Status × Bridge}
      → IsWellFormed s
      → s.heap dev ≡ some l
      → handle_write_bridged_device_basic_attribute dev a buffer s ≡ some r
      → Keeps s r
  unfolding handle_write_bridged_device_basic_attribute
  basic-Keeps dev a buffer s l w object h = elim (Bool-cases (not (is_node_label a))) [
    | inl q ↦
        subst (Keeps s) (some_inj (rw (q, handle_write_bridged_device_basic_attribute) at h))
          (w, Frame-refl s)
    | inr q ↦
        let h₁ = rw (q, handle_write_bridged_device_basic_attribute) at h in
        elim (Bool-cases (ltb k_node_label_size (length (c.from_zcl_string buffer)))) [
          | inl long ↦ subst (Keeps s) (some_inj (rw long at h₁)) (w, Frame-refl s)
          | inr fits ↦
              let name = c_str (c.from_zcl_string buffer) in
              subst (Keeps s)
                (some_inj
                  (rw (object, handle_write_bridged_device_basic_attribute) at (rw fits at h₁)))
                (
                  store-IsWellFormed s dev l (Light.set_name name l).0 _ w object
                      (is_dimmer-set_name name l),
                  stored-Frame s dev (Light.set_name name l).0 s.lights _,
                )
        ]
  ]

  pub light-Keeps :
      (dev : ℕ) (path : AttributePath) (buffer : List ℕ) (now later : ℕ) (s : Bridge) (l : Light)
      {r : Status × Bridge}
      → IsWellFormed s
      → s.heap dev ≡ some l
      → write_light dev path buffer now later s ≡ some r
      → Keeps s r
  unfolding write_light
  light-Keeps dev (on_off_path a) buffer now later s l w object h =
      on_off-Keeps dev a (first_byte buffer) now s w object h
  light-Keeps dev (level_control_path a) buffer now later s l w object h =
      level-Keeps dev a (first_byte buffer) now later s l w object h
  light-Keeps dev (bridged_basic_path a) buffer now later s l w object h =
      basic-Keeps dev a buffer s l w object h
  light-Keeps dev temperature_path buffer now later s l w object h =
      subst (Keeps s) (some_inj h) (w, Frame-refl s)
  light-Keeps dev other_path buffer now later s l w object h =
      subst (Keeps s) (some_inj h) (w, Frame-refl s)

  pub event-Keeps :
      (ctx : WemoStateEvent) (now : ℕ) (s s' : Bridge)
      → IsWellFormed s
      → handle_wemo_event_on_matter_thread ctx now s ≡ some s'
      → IsWellFormed s' × Frame s s'
  event-Keeps ctx now s s' w h = elim (event_cases ctx now s w) [
    | inl (_, q) ↦ subst (λ x. IsWellFormed x × Frame s x) (some_inj (sym q ∙ h)) (w, Frame-refl s)
    | inr (e, e', l, l', r, reach) ↦
        subst (λ x. IsWellFormed x × Frame s x)
          (some_inj (sym (Reaches-handled ctx now s reach) ∙ h))
          (after_event-IsWellFormed ctx now s w reach, stored-Frame s e.device l' _ _)
  ]

-- ===== src/Adapter/OpenWemo.antt =====
-- The class `WemoAdapterOpenWemo` with the file's static state, built with the engine
-- (HAVE_OPENWEMO_ENGINE). An operation returns its result and the new state; the locks that each
-- takes make it one step.
use wemo_matter_bridge.Prelude.{
  ℕ, ◌%◌, ℤ, pos, negsuc, minus_one, int_eq, Bool, true, false, not, ◌||◌, List, [], ◌∷◌, ◌++◌, map,
  Option, none, some, ◌==◌, ltb, if◌then◌else◌, take, Text, text_eq, is_empty, atoi, clamp_at,
}
use wemo_matter_bridge.Adapter.Types.{WemoDevice, WemoStateEvent}
use wemo_matter_bridge.Adapter.Engine.{
  Engine, EngineCall, WeDeviceInfo, WeState, we_set_ipc_target, we_init, we_discover,
  we_list_devices, we_set_action, we_register_event_callback,
}

-- `calls` holds the calls of the engine so far, oldest first; `state_callback` tells whether
-- `gStateCallback` is set.
pub record Adapter : Type 0 where
  pub engine_socket : Text
  pub udn_to_wemo_id : List (Text × ℤ)
  pub target_configured : Bool
  pub initialized : Bool
  pub state_callback : Bool
  pub calls : List EngineCall

-- The map: a later insertion stands before the earlier ones and hides those of its key.
unfoldable pub find_id : Text → List (Text × ℤ) → Option ℤ
find_id k [] = none
find_id k ((u, i) ∷ m) = if text_eq u k then some i else find_id k m

abbrev pub k_type_dimmer : ℕ
k_type_dimmer = 4

abbrev pub call : EngineCall → Adapter → Adapter
call k s = record s { calls = s.calls ++ k ∷ [] }

-- `rfind(':')` and the two `substr`: the text before the last colon and the text behind it.
unfoldable pub split_last_colon : Text → Option (Text × Text)
split_last_colon [] = none
split_last_colon (b ∷ t) = elim (split_last_colon t) [
  | some (host, port) ↦ some (b ∷ host, port)
  | none ↦ if b == b':' then some ([], t) else none
]

abbrev pub is_positive : ℤ → Bool
is_positive (pos n) = ltb 0 n
is_positive (negsuc n) = false

unfoldable pub maybe_configure_ipc_target : Adapter → Adapter
unfolding split_last_colon atoi
maybe_configure_ipc_target s = elim (split_last_colon s.engine_socket) [
  | none ↦ s
  | some (host, port_str) ↦
      if is_empty host || is_empty port_str
      then s
      else if is_positive (atoi port_str)
      then call (we_set_ipc_target host (atoi port_str)) s
      else s
]

abbrev pub nonzero : ℤ → Bool
nonzero a = not (int_eq a (pos 0))

-- `std::clamp(n, 0, hi)` of an int.
abbrev pub clamp_count : ℕ → ℤ → ℕ
clamp_count hi (pos n) = clamp_at hi n
clamp_count hi (negsuc n) = 0

abbrev pub has_level : ℤ → Bool
has_level (pos n) = true
has_level (negsuc n) = false

unfoldable pub to_device : WeDeviceInfo → WemoDevice
to_device info = record {
  wemo_id = info.wemo_id;
  udn = info.udn;
  friendly_name = info.friendly_name;
  is_online = nonzero info.is_online;
  onoff = if nonzero info.state then 1 else 0;
  supports_level = int_eq info.device_type (pos k_type_dimmer) || has_level info.level;
  level_percent = if has_level info.level then clamp_count 100 info.level % 256 else 0;
}

-- The loop that enters the listed devices into the map, in their order.
unfoldable pub enter_devices : List WeDeviceInfo → List (Text × ℤ) → List (Text × ℤ)
enter_devices [] m = m
enter_devices (d ∷ ds) m = enter_devices ds (if is_empty d.udn then m else (d.udn, d.wemo_id) ∷ m)

-- What `OnWeStateEvent` passes to the state callback, if it is set and there is data.
unfoldable pub on_we_state_event : Bool → ℤ → Option WeState → Option WemoStateEvent
on_we_state_event callback id none = none
on_we_state_event callback id (some st) =
    if callback
    then some (record {
      wemo_id = id;
      is_online = nonzero st.is_online;
      state = st.state;
      level = st.level;
    })
    else none

module _ (g : Engine) where
  unfoldable pub ensure_engine_initialized : Adapter → Bool × Adapter
  unfolding maybe_configure_ipc_target
  ensure_engine_initialized s =
      let s₁ =
        if s.target_configured
        then s
        else record (maybe_configure_ipc_target s) { target_configured = true } in
      let done = nonzero (g.init s₁.calls) in
      if s.initialized then (true, s) else (done, record (call we_init s₁) { initialized = done })

  unfoldable pub send_state : ℤ → ℤ → ℤ → Adapter → Bool × Adapter
  send_state id state level s =
      let target : WeState = record { is_online = pos 1; state = state; level = level } in
      (nonzero (g.set_action s.calls id target), call (we_set_action id target) s)

  -- `we_discover(0)` and `we_list_devices`: the listed devices, if the list was got.
  unfoldable pub list_after_discover : Adapter → Option (List WeDeviceInfo) × Adapter
  list_after_discover s =
      let s₁ = call we_discover s in
      let (rc, list) = g.list_devices s₁.calls in
      (
        if int_eq rc g.status_ok
            then some (take (clamp_count g.max_items list.count) list.items)
            else none,
        call we_list_devices s₁,
      )

  unfoldable pub discover_ready : Adapter → List WemoDevice × Adapter
  unfolding list_after_discover to_device enter_devices
  discover_ready s =
      let s₂ = (list_after_discover s).1 in
      elim (list_after_discover s).0 [
        | none ↦ ([], s₂)
        | some items ↦ (map to_device items, record s₂ { udn_to_wemo_id = enter_devices items [] })
      ]

  unfoldable pub discover : Adapter → List WemoDevice × Adapter
  unfolding ensure_engine_initialized discover_ready
  discover s =
      let (ready, s₁) = ensure_engine_initialized s in if ready then discover_ready s₁ else ([], s₁)

  unfoldable pub refresh : Adapter → Adapter
  unfolding ensure_engine_initialized
  refresh s =
      let (ready, s₁) = ensure_engine_initialized s in if ready then call we_discover s₁ else s₁

  unfoldable pub register_state_callback : Adapter → Adapter
  unfolding ensure_engine_initialized
  register_state_callback s =
      let (ready, s₁) = ensure_engine_initialized s in
      if ready then record (call we_register_event_callback s₁) { state_callback = true } else s₁

  -- The retry after a cache miss.
  unfoldable pub send_after_refresh : Text → ℤ → ℤ → Adapter → Bool × Adapter
  unfolding list_after_discover enter_devices find_id send_state
  send_after_refresh udn state level s =
      let s₂ = (list_after_discover s).1 in
      elim (list_after_discover s).0 [
        | none ↦ (false, s₂)
        | some items ↦
            let s₃ = record s₂ { udn_to_wemo_id = enter_devices items s.udn_to_wemo_id } in
            elim (find_id udn s₃.udn_to_wemo_id) [
              | none ↦ (false, s₃)
              | some id ↦ send_state id state level s₃
            ]
      ]

  -- The cache lookup with its fast path, and the retry.
  unfoldable pub send_to_udn : Text → ℤ → ℤ → Adapter → Bool × Adapter
  unfolding find_id send_state send_after_refresh
  send_to_udn udn state level s = elim (find_id udn s.udn_to_wemo_id) [
    | some id ↦ send_state id state level s
    | none ↦ send_after_refresh udn state level s
  ]

  unfoldable pub set_on_off : Text → Bool → Adapter → Bool × Adapter
  unfolding ensure_engine_initialized send_to_udn
  set_on_off udn on s =
      let (ready, s₁) = ensure_engine_initialized s in
      if ready then send_to_udn udn (if on then pos 1 else pos 0) minus_one s₁ else (false, s₁)

  unfoldable pub set_level_percent : Text → ℕ → Adapter → Bool × Adapter
  unfolding ensure_engine_initialized send_to_udn
  set_level_percent udn percent s =
      let (ready, s₁) = ensure_engine_initialized s in
      let clamped = clamp_at 100 percent in
      let state = if ltb 0 clamped then pos 1 else pos 0 in
      if ready then send_to_udn udn state (pos clamped) s₁ else (false, s₁)

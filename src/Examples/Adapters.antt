-- ===== src/Examples/Adapters.antt =====
-- The theorems about the adapter and the command-line tool, at an engine with one lamp.
use wemo_matter_bridge.Prelude.{
  map, ◌≢◌, none, arith, ℕ, ◌≤◌, ◌≡◌, refl, ℤ, pos, true, false, List, [], ◌∷◌, ◌++◌, some, codes,
  All,
}
use wemo_matter_bridge.Adapter.Engine.{
  Engine, WeDeviceInfo, we_discover, we_list_devices, we_set_action,
}
use wemo_matter_bridge.Adapter.OpenWemo.{
  Adapter, call, find_id, discover, set_on_off, set_level_percent, list_after_discover, to_device,
  ensure_engine_initialized,
}
use wemo_matter_bridge.Adapter.Miss.{looked_up, command_refreshed}
use wemo_matter_bridge.Examples.Database.{demo_sqlite, demo_sqlite-IsReliable}
use wemo_matter_bridge.Examples.Registry.{new_db, new_db-Counted}
use wemo_matter_bridge.Cli.{parse_percent, main, list_command, k_registry_path}
use wemo_matter_bridge.Cli.Listing.{list_command-lookup, device_of}
use wemo_matter_bridge.Registry.EndpointRegistry.{lookup}
use wemo_matter_bridge.Cli.Percent.{parse_percent_lem}
use wemo_matter_bridge.Cli.Main.{main-set_level}
use wemo_matter_bridge.Adapter.Setup.{count_targets, IsSetup}
use wemo_matter_bridge.Adapter.Uses.{
  discovers, refreshes, sets_on_off, perform_all, new_adapter, target_set_once, no_use_before_init,
}
use wemo_matter_bridge.Adapter.Cache.{
  Discovered, discover_lem, command_cached, command_unknown, on_state, level_state, last_id,
}
use wemo_matter_bridge.Examples.World.{demo_sdk}

-- An engine with one device, a lamp that is on.
abbrev pub lamp_info : WeDeviceInfo
lamp_info = record {
  wemo_id = pos 7;
  udn = codes "uuid:1";
  friendly_name = codes "Lamp";
  is_online = pos 1;
  state = pos 1;
  device_type = pos 4;
  level = pos 40;
}

abbrev pub engine : Engine
engine = record {
  init = λ calls. pos 1;
  list_devices = λ calls. (pos 0, record { count = pos 1; items = lamp_info ∷ [] });
  set_action = λ calls id target. pos 1;
  status_ok = pos 0;
  max_items = 64;
}

abbrev broken_engine : Engine
broken_engine = record engine { init = λ calls. pos 0 }

abbrev pub ready_adapter : List (List ℕ × ℤ) → Adapter
ready_adapter cache = record {
  engine_socket = codes "127.0.0.1:49153";
  udn_to_wemo_id = cache;
  target_configured = true;
  initialized = true;
  state_callback = false;
  calls = [];
}

discover_lem_example : Discovered engine (ready_adapter []) (discover engine (ready_adapter []))
discover_lem_example = discover_lem engine (ready_adapter [])

command_cached_example :
    (set_on_off engine (codes "uuid:1") true (ready_adapter ((codes "uuid:1", pos 7) ∷ [])) ≡ (
      true,
      call (we_set_action (pos 7) (on_state true)) (ready_adapter ((codes "uuid:1", pos 7) ∷ [])),
    ))
    × (set_level_percent engine (codes "uuid:1") 150 (ready_adapter ((codes "uuid:1", pos 7) ∷ []))
        ≡ (
          true,
          call
              (we_set_action (pos 7) (level_state 100))
              (ready_adapter ((codes "uuid:1", pos 7) ∷ [])),
        ))
unfolding find_id
command_cached_example =
    command_cached engine (codes "uuid:1") true 150 (ready_adapter ((codes "uuid:1", pos 7) ∷ []))
      refl refl

command_unknown_example :
    ((set_on_off engine (codes "uuid:2") true (ready_adapter [])).0 ≡ false)
    × ((set_on_off engine (codes "uuid:2") true (ready_adapter [])).1.calls
        ≡ we_discover ∷ we_list_devices ∷ [])
    × ((set_level_percent engine (codes "uuid:2") 50 (ready_adapter [])).0 ≡ false)
    × ((set_level_percent engine (codes "uuid:2") 50 (ready_adapter [])).1.calls
        ≡ we_discover ∷ we_list_devices ∷ [])
unfolding find_id list_after_discover last_id to_device
command_unknown_example =
    command_unknown engine (codes "uuid:2") true 50 (ready_adapter []) {items = lamp_info ∷ []} refl
      refl refl refl

target_set_once_example :
    count_targets
      (perform_all engine
        (discovers ∷ sets_on_off (codes "uuid:1") true ∷ refreshes ∷ [])
        (new_adapter (codes "127.0.0.1:49153"))).calls
    ≤ 1
target_set_once_example =
    target_set_once engine (codes "127.0.0.1:49153")
      (discovers ∷ sets_on_off (codes "uuid:1") true ∷ refreshes ∷ [])

no_use_before_init_example :
    All IsSetup
      (perform_all broken_engine
        (discovers ∷ refreshes ∷ [])
        (new_adapter (codes "127.0.0.1:49153"))).calls
unfolding perform_all new_adapter
no_use_before_init_example =
    no_use_before_init broken_engine (codes "127.0.0.1:49153") (discovers ∷ refreshes ∷ []) refl

abbrev new_bridge : Adapter
new_bridge = new_adapter (codes "127.0.0.1:49153")

command_refreshed_example :
    let s₁ = (ensure_engine_initialized engine new_bridge).1 in
    ((set_on_off engine (codes "uuid:1") true new_bridge).0 ≡ true)
    × ((set_on_off engine (codes "uuid:1") true new_bridge).1.calls
        ≡ looked_up s₁.calls ++ we_set_action (pos 7) (on_state true) ∷ [])
    × ((set_level_percent engine (codes "uuid:1") 30 new_bridge).0 ≡ true)
    × ((set_level_percent engine (codes "uuid:1") 30 new_bridge).1.calls
        ≡ looked_up s₁.calls ++ we_set_action (pos 7) (level_state 30) ∷ [])
unfolding find_id list_after_discover last_id to_device new_adapter ensure_engine_initialized
command_refreshed_example =
    command_refreshed engine (codes "uuid:1") true 30 new_bridge {items = lamp_info ∷ []} refl refl
      refl refl

parse_percent_lem_example : parse_percent (codes "042") ≡ some 42
parse_percent_lem_example = parse_percent_lem b'0' (codes "42") refl (refl, (refl, tt))

main-set_level_example :
    let s₁ = (ensure_engine_initialized engine new_bridge).1 in
    let r = main engine (codes "set-level" ∷ codes "uuid:1" ∷ codes "35" ∷ []) new_bridge new_db in
    (r.exit_code ≡ some 0)
    × (r.adapter.calls ≡ looked_up s₁.calls ++ we_set_action (pos 7) (level_state 35) ∷ [])
unfolding find_id list_after_discover last_id to_device new_adapter ensure_engine_initialized
main-set_level_example =
    main-set_level engine (codes "uuid:1") b'3' (codes "5") new_bridge new_db
      {items = lamp_info ∷ []} refl (refl, tt) refl refl refl refl

list_command-lookup_example :
    let run = list_command engine new_bridge new_db in
    (run.exit_code ≡ some 0)
    × (map device_of run.listed ≡ (discover engine new_bridge).0)
    × All
        (λ row. (row.1 ≢ none) × ((lookup k_registry_path row.0.udn run.database).0 ≡ row.1))
        run.listed
unfolding discover new_adapter
list_command-lookup_example =
    list_command-lookup demo_sqlite-IsReliable engine 2 new_bridge new_db (omega arith)
      new_db-Counted

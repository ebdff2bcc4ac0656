-- ===== src/Examples/Lights.antt =====
-- The theorems about lights at one dimmer behind the first endpoint slot.
use wemo_matter_bridge.Prelude.{
  ℕ, ◌≤◌, ◌<◌, ◌≡◌, ◌≢◌, ◌++◌, map, ◌↔◌, ◌⊎◌, refl, inr, ℤ, pos, negsuc, Bool, true, false, List,
  [], ◌∷◌, Option, none, some, arith, codes, All-replicate, replicate, ◌+◌, find_first, ◌==◌,
  if◌then◌else◌,
}
use wemo_matter_bridge.Level.{matter_level_of_percent, wemo_percent_of_level}
use wemo_matter_bridge.Level.Bounds.{conversions_round_trip, conversions_bounds}
use wemo_matter_bridge.Adapter.Types.{WemoStateEvent}
use wemo_matter_bridge.Device.Dimmable.{DeviceDimmable, dimmable_bridge}
use wemo_matter_bridge.Device.Light.{Light, dimmable_light, is_on, is_reachable}
use wemo_matter_bridge.Device.Setters.{level_of}
use wemo_matter_bridge.Bridge.State.{
  Bridge, BridgedWemoLight, command_level, expire_level, owns, reported, started, Command,
}
use wemo_matter_bridge.Device.Class.{Reported}
use wemo_matter_bridge.Bridge.Threads.{started_commands}
use wemo_matter_bridge.Bridge.Commanded.{on_off_write_recorded, level_write_recorded}
use wemo_matter_bridge.Bridge.Confirm.{confirmation_passes}
use wemo_matter_bridge.Bridge.Write.{
  success, OnOffAttribute, LevelControlAttribute, on_off_path, handle_write_on_off_attribute,
  handle_write_level_control_attribute, external_attribute_write,
}
use wemo_matter_bridge.Bridge.Read.{external_attribute_read}
use wemo_matter_bridge.Bridge.Event.{
  matches, suppresses_level, handle_wemo_event_on_matter_thread, handle_events,
}
use wemo_matter_bridge.Bridge.WellFormed.{IsWellFormed, SlotOk}
use wemo_matter_bridge.Bridge.Settle.{commanded_state_holds}
use wemo_matter_bridge.Bridge.LevelSettle.{level_write_dropped}
use wemo_matter_bridge.Bridge.LevelHold.{commanded_level_holds}
use wemo_matter_bridge.Bridge.Follow.{event_sets_on_off, event_sets_level, event_offline}
use wemo_matter_bridge.Bridge.Access.{read_after_on_off_write}
use wemo_matter_bridge.Examples.World.{demo_sdk}

abbrev pub lamp : DeviceDimmable
lamp = record {
  on_off = record {
    object = record {
      on = false;
      reachable = true;
      name = codes "Lamp";
      unique_id = 1 ∷ [];
      endpoint = 3;
      version = 1;
    };
    changed_cb = dimmable_bridge;
  };
  level = 100;
  changed_cb = true;
}

abbrev pub entry : BridgedWemoLight
entry = record {
  wemo_id = pos 7;
  udn = codes "uuid:1";
  is_dimmable = true;
  device = 0;
  commanded_on_off = none;
  commanded_level = none;
  commanded_on_off_until = 0;
  commanded_level_until = 0;
}

-- `h` is the slot of the endpoint.
abbrev pub with_slot : Option ℕ → Bridge
with_slot h = record {
  heap = λ a. if a == 0 then some (dimmable_light lamp) else none;
  next_address = 1;
  endpoints = 3 ∷ [];
  lights = entry ∷ [];
  device_to_udn = (0, codes "uuid:1") ∷ [];
  devices = h ∷ replicate 16 none;
  current_endpoint_id = 3;
  first_dynamic_endpoint_id = 3;
  effects = [];
}

abbrev pub house : Bridge
house = with_slot (some 0)

abbrev event : Bool → ℤ → ℤ → WemoStateEvent
event online state level = record {
  wemo_id = pos 7;
  is_online = online;
  state = state;
  level = level;
}

-- Device events that contradict a write at time 1000, within its settle window.
abbrev echoes : List (ℕ × WemoStateEvent)
echoes = (1500, event true (pos 0) (pos 20)) ∷ (3000, event true (pos 0) (negsuc 0)) ∷ []

pub house-IsWellFormed : IsWellFormed house
house-IsWellFormed = record {
  entries = ((refl, omega arith, refl), tt);
  distinct = (tt, tt);
  slots = ((tt, omega arith), All-replicate (SlotOk house) 16 none tt);
  capacity = omega arith;
  size = refl;
}

conversions_round_trip_example :
    ((wemo_percent_of_level (matter_level_of_percent 60) ≤ 60)
      × (60 ≤ wemo_percent_of_level (matter_level_of_percent 60) + 1)
      × ((wemo_percent_of_level (matter_level_of_percent 60) ≡ 0) ↔ (◌≡◌ {A = ℕ} 60 0)))
    × ((matter_level_of_percent (wemo_percent_of_level 200) ≤ 200)
        × (200 ≤ matter_level_of_percent (wemo_percent_of_level 200) + 3)
        × (0 < matter_level_of_percent (wemo_percent_of_level 200)))
conversions_round_trip_example =
    conversions_round_trip 60 200 (omega arith) (omega arith) (omega arith)

conversions_bounds_example :
    (matter_level_of_percent 30 ≤ matter_level_of_percent 80)
    × (wemo_percent_of_level 30 ≤ wemo_percent_of_level 200)
    × (wemo_percent_of_level 200 ≤ 100)
    × ((wemo_percent_of_level 200 ≡ 0) ↔ (◌≡◌ {A = ℕ} 200 0))
conversions_bounds_example =
    conversions_bounds 30 80 30 200 (omega arith) (omega arith) (omega arith) (omega arith)

on_off_write_recorded_example :
    (s' : Bridge) × (l' : Light) × (e' : BridgedWemoLight) × (handle_write_on_off_attribute 0
        OnOffAttribute.on_off 1 1000 house
      ≡ some (success, s'))
    × (s'.heap 0 ≡ some l')
    × (is_on l' ≡ true)
    × (is_reachable l' ≡ true)
    × (level_of l' ≡ 100)
    × ((p : ℕ) → p ≢ 0 → s'.heap p ≡ house.heap p)
    × (find_first (owns 0) s'.lights ≡ some e')
    × (e'.udn ≡ codes "uuid:1")
    × (e'.commanded_on_off ≡ some true)
    × (e'.commanded_on_off_until ≡ ◌+◌ 1000 2000)
    × (started_commands s'.effects
        ≡ started_commands house.effects ++ Command.set_on_off (codes "uuid:1") true ∷ [])
on_off_write_recorded_example =
    on_off_write_recorded 0 1 1000 house house-IsWellFormed refl refl refl

commanded_state_holds_example :
    (s₁ : Bridge) × (s₂ : Bridge) × (l' : Light) × (handle_write_on_off_attribute 0
        OnOffAttribute.on_off 1 1000 house
      ≡ some (success, s₁))
    × (handle_events echoes s₁ ≡ some s₂)
    × (s₂.heap 0 ≡ some l')
    × (is_on l' ≡ true)
commanded_state_holds_example =
    commanded_state_holds 0 1 1000 house echoes house-IsWellFormed refl refl refl
      (omega arith, (omega arith, tt))

level_write_dropped_example :
    (s' : Bridge) × (handle_write_level_control_attribute 0 LevelControlAttribute.current_level 1
        1000 1000 house
      ≡ some (success, s'))
    × (s'.heap ≡ house.heap)
    × (s'.effects ≡ house.effects)
level_write_dropped_example =
    level_write_dropped 0 1 1000 1000 house {e = entry} refl refl refl (inr (inr (omega arith)))

level_write_recorded_example :
    (s' : Bridge) × (d' : DeviceDimmable) × (e' : BridgedWemoLight)
    × (handle_write_level_control_attribute 0 LevelControlAttribute.current_level 200 1000 1001
          house
        ≡ some (success, s'))
    × (s'.heap 0 ≡ some (dimmable_light d'))
    × (d'.level ≡ 200)
    × (d'.on_off ≡ lamp.on_off)
    × (d'.changed_cb ≡ true)
    × ((p : ℕ) → p ≢ 0 → s'.heap p ≡ house.heap p)
    × (find_first (owns 0) s'.lights ≡ some e')
    × (e'.udn ≡ codes "uuid:1")
    × (e'.commanded_level ≡ some 200)
    × (e'.commanded_level_until ≡ ◌+◌ 1001 2000)
    × (s'.effects
        ≡ (house.effects
            ++ map reported (record { endpoint = 3; attribute = Reported.current_level } ∷ []))
          ++ started (Command.set_level_percent (codes "uuid:1") (wemo_percent_of_level 200)) ∷ [])
    × (1 ≤ wemo_percent_of_level 200)
    × (wemo_percent_of_level 200 ≤ 100)
level_write_recorded_example =
    level_write_recorded 0 200 1000 1001 house {e = entry} house-IsWellFormed refl refl refl
      (λ h. cc) (λ h. cc) (omega arith) (omega arith)

commanded_level_holds_example :
    (s₁ : Bridge) × (s₂ : Bridge) × (l' : Light) × (handle_write_level_control_attribute 0
        LevelControlAttribute.current_level 200 1000 1001 house
      ≡ some (success, s₁))
    × (handle_events echoes s₁ ≡ some s₂)
    × (s₂.heap 0 ≡ some l')
    × (level_of l' ≡ 200)
commanded_level_holds_example =
    commanded_level_holds 0 200 1000 1001 house echoes {e = entry} house-IsWellFormed refl refl refl
      (λ h. cc) (λ h. cc) (omega arith) (omega arith) (omega arith, (omega arith, tt))

event_sets_on_off_example :
    (s' : Bridge) × (l' : Light) × (handle_wemo_event_on_matter_thread
        (event true (pos 1) (pos 50))
        10
        house
      ≡ some s')
    × (s'.heap 0 ≡ some l')
    × (is_on l' ≡ true)
    × (is_reachable l' ≡ true)
event_sets_on_off_example =
    event_sets_on_off (event true (pos 1) (pos 50)) 10 house {e = entry} house-IsWellFormed refl
      refl (λ h. cc)

event_sets_level_example :
    (s' : Bridge) × (l' : Light) × (handle_wemo_event_on_matter_thread
        (event true (pos 1) (pos 50))
        10
        house
      ≡ some s')
    × (s'.heap 0 ≡ some l')
    × (level_of l' ≡ matter_level_of_percent 50)
event_sets_level_example =
    event_sets_level (event true (pos 1) (pos 50)) 10 50 house {e = entry} house-IsWellFormed refl
      refl refl refl (λ v h. absurd (ground arith))

event_offline_example :
    (s' : Bridge) × (l : Light) × (l' : Light) × (handle_wemo_event_on_matter_thread
        (event false (pos 1) (pos 50))
        10
        house
      ≡ some s')
    × (house.heap 0 ≡ some l)
    × (s'.heap 0 ≡ some l')
    × (is_reachable l' ≡ false)
    × (is_on l' ≡ is_on l)
    × (level_of l' ≡ level_of l)
    × (find_first (matches (event false (pos 1) (pos 50))) s'.lights ≡ some entry)
event_offline_example =
    event_offline (event false (pos 1) (pos 50)) 10 house {e = entry} house-IsWellFormed refl refl

read_after_on_off_write_example :
    (s' : Bridge) × (external_attribute_write 3
        (on_off_path OnOffAttribute.on_off)
        (1 ∷ [])
        1000
        1000
        house
      ≡ some (success, s'))
    × (external_attribute_read 3 (on_off_path OnOffAttribute.on_off) 1 s' ≡ some (success, 1 ∷ []))
read_after_on_off_write_example =
    read_after_on_off_write 3 0 1 1000 1000 [] house (omega arith) refl refl refl

confirmation_passes_example :
    (suppresses_level
        (matter_level_of_percent (wemo_percent_of_level 200))
        (expire_level 1500 (command_level 200 1000 entry))
      ≡ false)
    ↔ ((◌≡◌ {A = ℕ} 200 2) ⊎ (◌≡◌ {A = ℕ} 200 127) ⊎ (◌≡◌ {A = ℕ} 200 254))
confirmation_passes_example =
    confirmation_passes 200 1000 1500 entry (omega arith) (omega arith) (omega arith)

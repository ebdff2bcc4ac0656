-- ===== src/Bridge/LevelSettle.antt =====
-- Level writes of matter-bridge-app/main.cpp: which are dropped, what the others send, and the
-- settle window that follows.
use wemo_matter_bridge.Prelude.{
  ℕ, ◌≤◌, ◌≡◌, ◌⊎◌, refl, inl, inr, Bool, true, false, [], ◌∷◌, ◌++◌, map, Option, none, some,
  arith, find_first, update_first,
}
use wemo_matter_bridge.Level.{wemo_percent_of_level}
use wemo_matter_bridge.Level.Bounds.{wemo_percent_range, wemo_percent_pos}
use wemo_matter_bridge.Device.Class.{Sdk}
use wemo_matter_bridge.Device.Dimmable.{DeviceDimmable, set_level}
use wemo_matter_bridge.Device.Light.{dimmable_light, is_reachable}
use wemo_matter_bridge.Bridge.State.{
  Bridge, BridgedWemoLight, reported, started, Command, store, owns, expire_on_off, command_level,
}
use wemo_matter_bridge.Bridge.Write.{
  success, LevelControlAttribute, matched_ignores, dispatch_level, write_level,
  handle_write_level_control_attribute,
}
use wemo_matter_bridge.Bridge.Event.Body.{PendingOnOff}
use wemo_matter_bridge.Bridge.WellFormed.{IsWellFormed}
use wemo_matter_bridge.Bridge.Settle.{find_udn_entry}

module _ ⦃c : Sdk⦄ where
  matched_ignores_pending :
      (v now : ℕ) (b : Bool) (e : BridgedWemoLight)
      → PendingOnOff b now e
      → matched_ignores v now (some e) ≡ true
  unfolding matched_ignores
  matched_ignores_pending v now b e h = ground arith

  matched_ignores_low :
      (v now : ℕ) (e : BridgedWemoLight) → v ≤ 1 → matched_ignores v now (some e) ≡ true
  unfolding matched_ignores
  matched_ignores_low v now e h = ground arith

  matched_ignores_free :
      (v now : ℕ) (e : BridgedWemoLight)
      → ¬ PendingOnOff true now e
      → ¬ PendingOnOff false now e
      → 2 ≤ v
      → matched_ignores v now (some e) ≡ false
  unfolding matched_ignores
  matched_ignores_free v now e h k g = go e.commanded_on_off refl
    where
      go : (o : Option Bool) → e.commanded_on_off ≡ o → matched_ignores v now (some e) ≡ false
      go none q = ground arith
      go (some true) q = ground arith
      go (some false) q = ground arith

  -- A level write to a reachable dimmer with an entry is dropped while an on/off command is within
  -- its settle window, and at every time if the level is 0 or 1: it succeeds, and changes no light,
  -- reports nothing and sends nothing.
  pub level_write_dropped :
      (dev v now later : ℕ) (s : Bridge) {d : DeviceDimmable} {e : BridgedWemoLight}
      → find_first (owns dev) s.lights ≡ some e
      → s.heap dev ≡ some (dimmable_light d)
      → is_reachable (dimmable_light d) ≡ true
      → PendingOnOff true now e ⊎ PendingOnOff false now e ⊎ (v ≤ 1)
      → (s' : Bridge) × (handle_write_level_control_attribute dev
            LevelControlAttribute.current_level v now later s
          ≡ some (success, s'))
        × (s'.heap ≡ s.heap)
        × (s'.effects ≡ s.effects)
  unfolding handle_write_level_control_attribute write_level
  level_write_dropped dev v now later s {d} {e} found object up why = (
    record s { lights = update_first (owns dev) (expire_on_off now) s.lights },
    rw (object, handle_write_level_control_attribute)
        (rw up (rw (found, write_level) (rw (ignored why) refl))),
    refl,
    refl,
  )
    where
      ignored :
          PendingOnOff true now e ⊎ PendingOnOff false now e ⊎ (v ≤ 1)
          → matched_ignores v now (some e) ≡ true
      ignored (inl h) = matched_ignores_pending v now true e h
      ignored (inr (inl h)) = matched_ignores_pending v now false e h
      ignored (inr (inr h)) = matched_ignores_low v now e h

  -- The state after a level write that is not dropped.
  abbrev pub after_level_write : ℕ → ℕ → ℕ → ℕ → Bridge → DeviceDimmable → BridgedWemoLight → Bridge
  after_level_write dev v now later s d e = record s {
    heap = store s.heap dev (some (dimmable_light (set_level v d).0));
    lights =
        update_first (owns dev) (command_level v later)
          (update_first (owns dev) (expire_on_off now) s.lights);
    effects =
        (s.effects ++ map reported (set_level v d).1)
        ++ started (Command.set_level_percent e.udn (wemo_percent_of_level v)) ∷ [];
  }

  -- A level write of 2 to 255 to a reachable dimmer with an entry and no pending on/off command
  -- succeeds: the light takes the level, a change is reported, the command is recorded for the
  -- settle window, and one thread is started that sends the percent of the level, which is at least
  -- 1 and at most 100, to the device of the entry.
  pub level_write_sent :
      (dev v now later : ℕ) (s : Bridge) {d : DeviceDimmable} {e : BridgedWemoLight}
      → IsWellFormed s
      → find_first (owns dev) s.lights ≡ some e
      → s.heap dev ≡ some (dimmable_light d)
      → is_reachable (dimmable_light d) ≡ true
      → ¬ PendingOnOff true now e
      → ¬ PendingOnOff false now e
      → 2 ≤ v
      → v ≤ 255
      → (handle_write_level_control_attribute dev LevelControlAttribute.current_level v now later s
          ≡ some (success, after_level_write dev v now later s d e))
        × (1 ≤ wemo_percent_of_level v)
        × (wemo_percent_of_level v ≤ 100)
  unfolding handle_write_level_control_attribute write_level
  level_write_sent dev v now later s {d} {e} w found object up h k low high = (
    rw (object, handle_write_level_control_attribute)
        (rw up (
          rw (found, write_level)
            (rw (matched_ignores_free v now e h k low)
              (rw (find_udn_entry dev s w found, dispatch_level) refl)))),
    wemo_percent_pos v (omega arith) high,
    wemo_percent_range v high,
  )

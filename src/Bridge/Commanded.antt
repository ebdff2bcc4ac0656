-- ===== src/Bridge/Commanded.antt =====
-- What an attribute write of matter-bridge-app/main.cpp leaves behind when it is sent: the object, the
-- entry, and the thread.
use wemo_matter_bridge.Prelude.{
  ℕ, ◌+◌, ◌≤◌, ◌≡◌, ◌≢◌, refl, ap, ◌∙◌, true, false, not, ◌&&◌, [], ◌∷◌, ◌++◌, map, some, ◌==◌,
  if◌then◌else◌, find_first, find_first-update_first, find_first_holds, inl, inr, Bool-cases,
}
use wemo_matter_bridge.Level.{wemo_percent_of_level}
use wemo_matter_bridge.Device.Class.{Sdk, Reported}
use wemo_matter_bridge.Device.Dimmable.{DeviceDimmable, set_level}
use wemo_matter_bridge.Device.Light.{Light, dimmable_light, is_on, is_reachable}
use wemo_matter_bridge.Device.Light
use wemo_matter_bridge.Device.Setters.{
  level_of, is_on-set_on_off, is_reachable-set_on_off, level_of-set_on_off,
}
use wemo_matter_bridge.Bridge.State.{
  Bridge, BridgedWemoLight, reported, started, Command, owns, command_on_off, command_level,
  expire_on_off,
}
use wemo_matter_bridge.Bridge.Write.{
  success, OnOffAttribute, LevelControlAttribute, handle_write_on_off_attribute,
  handle_write_level_control_attribute,
}
use wemo_matter_bridge.Bridge.Event.Body.{PendingOnOff, expire_on_off_identity}
use wemo_matter_bridge.Bridge.WellFormed.{IsWellFormed}
use wemo_matter_bridge.Bridge.Placed.{stored_self, stored_other}
use wemo_matter_bridge.Bridge.Settle.{after_write, write_on_off_result}
use wemo_matter_bridge.Bridge.LevelSettle.{after_level_write, level_write_sent}
use wemo_matter_bridge.Bridge.Threads.{started_commands}
use wemo_matter_bridge.Bridge.Threads.Race.{started_then}

module _ ⦃c : Sdk⦄ where
  -- An on/off write of a byte to a reachable light with an entry, in well-formed databases, succeeds.
  -- The light is then on exactly if the byte is not 0, is as reachable and at the level as before, and
  -- no other object has changed. The entry of the light holds that value until 2000 ms after the
  -- write, and one more thread is started, which sends the value to the udn of the entry.
  pub on_off_write_recorded :
      (dev byte now : ℕ) (s : Bridge) {l : Light} {e : BridgedWemoLight}
      → IsWellFormed s
      → find_first (owns dev) s.lights ≡ some e
      → s.heap dev ≡ some l
      → is_reachable l ≡ true
      → (s' : Bridge) × (l' : Light) × (e' : BridgedWemoLight) × (handle_write_on_off_attribute dev
            OnOffAttribute.on_off byte now s
          ≡ some (success, s'))
        × (s'.heap dev ≡ some l')
        × (is_on l' ≡ not (byte == 0))
        × (is_reachable l' ≡ true)
        × (level_of l' ≡ level_of l)
        × ((p : ℕ) → p ≢ dev → s'.heap p ≡ s.heap p)
        × (find_first (owns dev) s'.lights ≡ some e')
        × (e'.udn ≡ e.udn)
        × (e'.commanded_on_off ≡ some (not (byte == 0)))
        × (e'.commanded_on_off_until ≡ now + 2000)
        × (started_commands s'.effects
            ≡ started_commands s.effects ++ Command.set_on_off e.udn (not (byte == 0)) ∷ [])
  unfolding command_on_off
  on_off_write_recorded dev byte now s {l} {e} w found object up =
      let b = not (byte == 0) in
      (
        after_write dev b now s l e,
        (Light.set_on_off b l).0,
        command_on_off b now e,
        write_on_off_result dev byte now s w found object up,
        stored_self s.heap dev _,
        is_on-set_on_off b l,
        is_reachable-set_on_off b l ∙ up,
        level_of-set_on_off b l,
        λ p ne. stored_other s.heap dev _ p ne,
        find_first-update_first (owns dev) (command_on_off b now) s.lights found
            (find_first_holds (owns dev) s.lights found),
        refl,
        refl,
        refl,
        started_then s.effects (Light.set_on_off b l).1 (Command.set_on_off e.udn b),
      )

  -- A dimmer whose level changes reports it, if its callback is installed.
  set_level-reports :
      (v : ℕ) (d : DeviceDimmable)
      → (set_level v d).1 ≡ (
          if not (v == d.level) && d.changed_cb
          then record {
            endpoint = c.get_endpoint_id d.on_off.object;
            attribute = Reported.current_level;
          }
            ∷ []
          else [])
  unfolding set_level
  set_level-reports v d = elim (Bool-cases (v == d.level)) [
    | inl p ↦ rw p refl
    | inr p ↦ elim (Bool-cases d.changed_cb) [ inl q ↦ rw (p, q) refl | inr q ↦ rw (p, q) refl ]
  ]

  -- A level write of 2 to 255 to a reachable dimmer with an entry and no on/off command within its
  -- settle window, in well-formed databases, succeeds. The dimmer is then at the level and else as
  -- before, and no other object has changed. The entry of the light holds the level until 2000 ms
  -- after the second reading of the clock. A report of the level is scheduled if it has changed and
  -- the dimmer's callback is installed, and behind it a thread is started, which sends the percent of
  -- the level, at least 1 and at most 100, to the udn of the entry.
  pub level_write_recorded :
      (dev v now later : ℕ) (s : Bridge) {d : DeviceDimmable} {e : BridgedWemoLight}
      → IsWellFormed s
      → find_first (owns dev) s.lights ≡ some e
      → s.heap dev ≡ some (dimmable_light d)
      → is_reachable (dimmable_light d) ≡ true
      → ¬ PendingOnOff true now e
      → ¬ PendingOnOff false now e
      → 2 ≤ v
      → v ≤ 255
      → (s' : Bridge) × (d' : DeviceDimmable) × (e' : BridgedWemoLight)
        × (handle_write_level_control_attribute dev LevelControlAttribute.current_level v now later
              s
            ≡ some (success, s'))
        × (s'.heap dev ≡ some (dimmable_light d'))
        × (d'.level ≡ v)
        × (d'.on_off ≡ d.on_off)
        × (d'.changed_cb ≡ d.changed_cb)
        × ((p : ℕ) → p ≢ dev → s'.heap p ≡ s.heap p)
        × (find_first (owns dev) s'.lights ≡ some e')
        × (e'.udn ≡ e.udn)
        × (e'.commanded_level ≡ some v)
        × (e'.commanded_level_until ≡ later + 2000)
        × (s'.effects
            ≡ (s.effects
                ++ map reported (
                    if not (v == d.level) && d.changed_cb
                    then record {
                      endpoint = c.get_endpoint_id d.on_off.object;
                      attribute = Reported.current_level;
                    }
                      ∷ []
                    else []))
              ++ started (Command.set_level_percent e.udn (wemo_percent_of_level v)) ∷ [])
        × (1 ≤ wemo_percent_of_level v)
        × (wemo_percent_of_level v ≤ 100)
  unfolding command_level set_level
  level_write_recorded dev v now later s {d} {e} w found object up no_on no_off low high =
      let (ran, positive, bounded) =
        level_write_sent dev v now later s w found object up no_on no_off low high in
      let kept = (expire_on_off_identity now e).0 in
      let held = find_first_holds (owns dev) s.lights found in
      let owned : owns dev (expire_on_off now e) ≡ true = rw kept.device held in
      (
        after_level_write dev v now later s d e,
        (set_level v d).0,
        command_level v later (expire_on_off now e),
        ran,
        stored_self s.heap dev _,
        refl,
        refl,
        refl,
        λ p ne. stored_other s.heap dev _ p ne,
        find_first-update_first (owns dev) (command_level v later) _
            (find_first-update_first (owns dev) (expire_on_off now) s.lights found owned) owned,
        kept.udn,
        refl,
        refl,
        ap
            (λ rs.
              (s.effects ++ map reported rs)
              ++ started (Command.set_level_percent e.udn (wemo_percent_of_level v)) ∷ [])
            (set_level-reports v d),
        positive,
        bounded,
      )

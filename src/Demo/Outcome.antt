-- ===== src/Demo/Outcome.antt =====
-- What a command of the named pipe does in matter-bridge-app/main.cpp.
use wemo_matter_bridge.Prelude.{
  ◌+◌, ◌%◌, ◌≡◌, ◌≢◌, ◌⊎◌, refl, sym, ap, ◌∙◌, inl, inr, true, false, List, [], ◌∷◌, ◌++◌, map,
  some, Bool-cases, Text, text_eq, text_eq_refl, text_eq_sound, codes,
}
use wemo_matter_bridge.Device.Class.{Sdk}
use wemo_matter_bridge.Device.Light.{Light, on_off_light, dimmable_light, base}
use wemo_matter_bridge.Device.Sensors.{SensorSdk}
use wemo_matter_bridge.Bridge.State.{reported, store}
use wemo_matter_bridge.Demo.Class.{DemoSdk, JsonLibrary}
use wemo_matter_bridge.Demo.State.{Demo, with_bridge, update_light}
use wemo_matter_bridge.Demo.Keys.{bump_version}
use wemo_matter_bridge.Demo.Commands.{
  k_name, from_json, on_event_command_received, handled, died, handle_command,
}

abbrev simulate : Text
simulate = codes "SimulateConfigurationVersionChange"

module _ ⦃c : Sdk⦄ ⦃d : SensorSdk⦄ ⦃m : DemoSdk⦄ ⦃j : JsonLibrary⦄ where
  -- The light at `Light1` after its version has been raised.
  abbrev pub bumped : Demo → Light → Demo
  bumped s l = with_bridge s (record (s.bridge) {
    heap = store s.bridge.heap s.light1 (some (bump_version l).0);
    effects = s.bridge.effects ++ map reported (bump_version l).1;
  })

  bump_version_lem :
      (l : Light)
      → c.get_configuration_version (base (bump_version l).0).object
        ≡ (c.get_configuration_version (base l).object + 1) % 4294967296
  bump_version_lem (on_off_light x) = m.version-set_configuration_version _ x.object
  bump_version_lem (dimmable_light x) = m.version-set_configuration_version _ x.on_off.object

  scheduled :
      (json : Text) (queue : List j.Value) (value : j.Value)
      → j.parse json ≡ some value
      → j.is_empty value ≡ false
      → j.is_object value ≡ true
      → j.is_member value k_name ≡ true
      → j.is_string (j.get value k_name) ≡ true
      → on_event_command_received json queue ≡ queue ++ value ∷ []
  unfolding on_event_command_received from_json
  scheduled json queue value parsed full object member string =
      rw (parsed, on_event_command_received) (rw (full, object, member, string) refl)

  -- A text that parses to an object with a string `Name` is scheduled behind the earlier commands.
  -- When the command is handled, with `Light1` alive, either the name is that of the version change,
  -- and the version of `Light1` goes up by one, from 2 ^ 32 - 1 to 0, with no other object changed; or
  -- it is any other name, and the process dies.
  pub command_outcome :
      (json : Text) (queue : List j.Value) (value : j.Value) (s : Demo) {l : Light}
      → j.parse json ≡ some value
      → j.is_empty value ≡ false
      → j.is_object value ≡ true
      → j.is_member value k_name ≡ true
      → j.is_string (j.get value k_name) ≡ true
      → s.bridge.heap s.light1 ≡ some l
      → (on_event_command_received json queue ≡ queue ++ value ∷ [])
        × (((j.as_string (j.get value k_name) ≡ simulate)
              × (handle_command value s ≡ handled (bumped s l))
              × (c.get_configuration_version (base (bump_version l).0).object
                  ≡ (c.get_configuration_version (base l).object + 1) % 4294967296))
            ⊎ ((j.as_string (j.get value k_name) ≢ simulate) × (handle_command value s ≡ died)))
  unfolding handle_command
  command_outcome json queue value s {l} parsed full object member string alive =
      let name = j.as_string (j.get value k_name) in
      (
        scheduled json queue value parsed full object member string,
        elim (Bool-cases (text_eq name simulate)) [
          | inl e ↦ inl (
            text_eq_sound name simulate e,
            rw (full, handle_command) (rw (e, handle_command) (rw (alive, update_light) refl)),
            bump_version_lem l,
          )
          | inr e ↦ inr (
            λ q. differs (sym e ∙ (ap (λ x. text_eq x simulate) q ∙ text_eq_refl simulate)),
            rw (full, handle_command) (rw (e, handle_command) refl),
          )
        ],
      )
    where
      differs : false ≡ true → ⊥
      differs e = cc

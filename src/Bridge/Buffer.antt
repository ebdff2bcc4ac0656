-- ===== src/Bridge/Buffer.antt =====
-- How much of the caller's buffer the attribute reads of matter-bridge-app/main.cpp write.
use wemo_matter_bridge.Prelude.{
  ℕ, ◌≤◌, ◌≡◌, refl, inl, inr, true, List, [], Option, none, some, some_inj, arith, ◌==◌, ==_iff,
  ltb, Bool-cases, Option-cases, length, get_elem?,
}
use mathlib.Core.Path.{subst}
use wemo_matter_bridge.Device.Class.{Sdk}
use wemo_matter_bridge.Device.Sensors.{SensorSdk}
use wemo_matter_bridge.Device.Dimmable.{DeviceDimmable}
use wemo_matter_bridge.Device.Light.{Light, on_off_light, dimmable_light, base}
use wemo_matter_bridge.Bridge.State.{Bridge}
use wemo_matter_bridge.Bridge.Write.{
  Status, success, failure, unsupported_write, constraint_error, OnOffAttribute,
  LevelControlAttribute, BasicAttribute, AttributePath, on_off_path, level_control_path,
  bridged_basic_path, temperature_path, other_path, k_dynamic_endpoint_count,
}
use wemo_matter_bridge.Bridge.Read.{
  reply, handle_read_bridged_device_basic_attribute, handle_read_on_off_attribute,
  handle_read_level_control_attribute, read_light, external_attribute_read,
}
use wemo_matter_bridge.Bridge.Sensors.{
  TempMeasurementAttribute, handle_read_temp_measurement_attribute,
}

-- A successful read writes at most `n` bytes, and any other writes none.
abbrev pub FitsBuffer : ℕ → Status × List ℕ → Type 0
FitsBuffer n (success, bytes) = length bytes ≤ n
FitsBuffer n (failure, bytes) = bytes ≡ []
FitsBuffer n (unsupported_write, bytes) = bytes ≡ []
FitsBuffer n (constraint_error, bytes) = bytes ≡ []

reply-FitsBuffer :
    (n size : ℕ) (bytes : List ℕ) → length bytes ≤ size → FitsBuffer n (reply (n == size) bytes)
reply-FitsBuffer n size bytes h = elim (Bool-cases (n == size)) [
  | inl e ↦ rw e (omega (arith, (==_iff n size).0 e))
  | inr e ↦ rw e refl
]

-- The same for what is encoded into a span of the buffer.
span-FitsBuffer :
    (n size : ℕ) (bytes : List ℕ) → length bytes ≤ n → FitsBuffer n (reply (n == size) bytes)
span-FitsBuffer n size bytes h = elim (Bool-cases (n == size)) [
  | inl e ↦ rw e h
  | inr e ↦ rw e refl
]

module _ ⦃c : Sdk⦄ where
  basic-FitsBuffer :
      (o : c.Object) (a : BasicAttribute) (n : ℕ)
      → FitsBuffer n (handle_read_bridged_device_basic_attribute o a n)
  unfolding handle_read_bridged_device_basic_attribute
  basic-FitsBuffer o BasicAttribute.reachable n = reply-FitsBuffer n 1 _ (omega arith)
  basic-FitsBuffer o BasicAttribute.node_label n =
      span-FitsBuffer n 32 _ (c.length-make_zcl_char_string n (c.get_name o))
  basic-FitsBuffer o BasicAttribute.unique_id n =
      span-FitsBuffer n 32 _ (c.length-make_zcl_char_string n (c.get_unique_id o))
  basic-FitsBuffer o BasicAttribute.configuration_version n = reply-FitsBuffer n 4 _ (omega arith)
  basic-FitsBuffer o BasicAttribute.cluster_revision n = reply-FitsBuffer n 2 _ (omega arith)
  basic-FitsBuffer o BasicAttribute.feature_map n = reply-FitsBuffer n 4 _ (omega arith)
  basic-FitsBuffer o BasicAttribute.other n = refl

  on_off-FitsBuffer :
      (l : Light) (a : OnOffAttribute) (n : ℕ) → FitsBuffer n (handle_read_on_off_attribute l a n)
  unfolding handle_read_on_off_attribute
  on_off-FitsBuffer l OnOffAttribute.on_off n = reply-FitsBuffer n 1 _ (omega arith)
  on_off-FitsBuffer l OnOffAttribute.cluster_revision n = reply-FitsBuffer n 2 _ (omega arith)
  on_off-FitsBuffer l OnOffAttribute.other n = refl

  level-FitsBuffer :
      (d : DeviceDimmable) (a : LevelControlAttribute) (n : ℕ)
      → FitsBuffer n (handle_read_level_control_attribute d a n)
  unfolding handle_read_level_control_attribute
  level-FitsBuffer d LevelControlAttribute.current_level n = reply-FitsBuffer n 1 _ (omega arith)
  level-FitsBuffer d LevelControlAttribute.min_level n = reply-FitsBuffer n 1 _ (omega arith)
  level-FitsBuffer d LevelControlAttribute.max_level n = reply-FitsBuffer n 1 _ (omega arith)
  level-FitsBuffer d LevelControlAttribute.cluster_revision n = reply-FitsBuffer n 2 _ (omega arith)
  level-FitsBuffer d LevelControlAttribute.feature_map n = reply-FitsBuffer n 4 _ (omega arith)
  level-FitsBuffer d LevelControlAttribute.other n = refl

  light-FitsBuffer :
      (l : Light) (path : AttributePath) (n : ℕ) {r : Status × List ℕ}
      → read_light l path n ≡ some r
      → FitsBuffer n r
  unfolding read_light
  light-FitsBuffer l (bridged_basic_path a) n h =
      subst (FitsBuffer n) (some_inj h) (basic-FitsBuffer (base l).object a n)
  light-FitsBuffer l (on_off_path a) n h =
      subst (FitsBuffer n) (some_inj h) (on_off-FitsBuffer l a n)
  light-FitsBuffer (dimmable_light d) (level_control_path a) n h =
      subst (FitsBuffer n) (some_inj h) (level-FitsBuffer d a n)
  light-FitsBuffer (on_off_light d) (level_control_path a) n h = cc
  light-FitsBuffer (on_off_light d) temperature_path n h = cc
  light-FitsBuffer (dimmable_light d) temperature_path n h = cc
  light-FitsBuffer (on_off_light d) other_path n h = subst (FitsBuffer n) (some_inj h) refl
  light-FitsBuffer (dimmable_light d) other_path n h = subst (FitsBuffer n) (some_inj h) refl

  temp-FitsBuffer :
      ⦃d : SensorSdk⦄ (dev : d.Sensor) (a : TempMeasurementAttribute) (n : ℕ)
      → FitsBuffer n (handle_read_temp_measurement_attribute dev a n)
  unfolding handle_read_temp_measurement_attribute
  temp-FitsBuffer dev TempMeasurementAttribute.measured_value n =
      reply-FitsBuffer n 2 _ (omega arith)
  temp-FitsBuffer dev TempMeasurementAttribute.min_measured_value n =
      reply-FitsBuffer n 2 _ (omega arith)
  temp-FitsBuffer dev TempMeasurementAttribute.max_measured_value n =
      reply-FitsBuffer n 2 _ (omega arith)
  temp-FitsBuffer dev TempMeasurementAttribute.feature_map n = reply-FitsBuffer n 4 _ (omega arith)
  temp-FitsBuffer dev TempMeasurementAttribute.cluster_revision n =
      reply-FitsBuffer n 2 _ (omega arith)
  temp-FitsBuffer dev TempMeasurementAttribute.other n = refl

  slot-FitsBuffer :
      (endpoint n : ℕ) (path : AttributePath) (s : Bridge) {r : Status × List ℕ} (o : Option ℕ)
      → ltb (c.dynamic_index s.endpoints endpoint) k_dynamic_endpoint_count ≡ true
      → get_elem? s.devices (c.dynamic_index s.endpoints endpoint) ≡ some o
      → external_attribute_read endpoint path n s ≡ some r
      → FitsBuffer n r
  unfolding external_attribute_read
  slot-FitsBuffer endpoint n path s none inside slot h =
      subst (FitsBuffer n)
        (some_inj
          (rw (slot, external_attribute_read) at (rw (inside, external_attribute_read) at h)))
        refl
  slot-FitsBuffer endpoint n path s {r} (some dev) inside slot h =
      let h' = rw (slot, external_attribute_read) at (rw (inside, external_attribute_read) at h) in
      elim (Option-cases (s.heap dev)) [
        | inl q ↦ absurd (none-ne-some (rw (q, external_attribute_read) at h'))
        | inr (light, q) ↦ light-FitsBuffer light path n (rw (q, external_attribute_read) at h')
      ]
    where
      none-ne-some : none ≡ some r → ⊥
      none-ne-some e = cc

  -- No read writes past the length that it is given, whatever the endpoint, the attribute and the
  -- state: a read of an endpoint that returns a result, and any read of a temperature sensor, writes
  -- at most that many bytes if it succeeds, and none if it does not.
  pub read-FitsBuffer :
      ⦃d : SensorSdk⦄ (endpoint n : ℕ) (path : AttributePath) (s : Bridge) (sensor : d.Sensor)
      (a : TempMeasurementAttribute) {r : Status × List ℕ}
      → external_attribute_read endpoint path n s ≡ some r
      → FitsBuffer n r × FitsBuffer n (handle_read_temp_measurement_attribute sensor a n)
  unfolding external_attribute_read
  read-FitsBuffer endpoint n path s sensor a {r} h =
      let index = c.dynamic_index s.endpoints endpoint in
      (
        elim (Bool-cases (ltb index k_dynamic_endpoint_count)) [
          | inr e ↦ subst (FitsBuffer n) (some_inj (rw (e, external_attribute_read) at h)) refl
          | inl e ↦ elim (Option-cases (get_elem? s.devices index)) [
            | inl q ↦ absurd (
                none-ne-some
                  (rw (q, external_attribute_read) at (rw (e, external_attribute_read) at h)))
            | inr (o, q) ↦ slot-FitsBuffer endpoint n path s o e q h
          ]
        ],
        temp-FitsBuffer sensor a n,
      )
    where
      none-ne-some : none ≡ some r → ⊥
      none-ne-some e = cc

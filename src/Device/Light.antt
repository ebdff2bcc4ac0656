-- ===== src/Device/Light.antt =====
-- A light that the bridge owns: a `DeviceOnOff` or a `DeviceDimmable` behind one `Device` pointer.
-- The setters return the light and the reports that its change callbacks schedule.
use wemo_matter_bridge.Prelude.{ℕ, Bool, true, false, List, Text}
use wemo_matter_bridge.Device.Class.{Sdk, Report}
use wemo_matter_bridge.Device.Dimmable.{
  DeviceOnOff, DeviceDimmable, announce_dimmable, announce_on_off,
}

module _ ⦃c : Sdk⦄ where
  pub data Light : Type 0 where
    on_off_light : DeviceOnOff → Light
    dimmable_light : DeviceDimmable → Light

  abbrev pub base : Light → DeviceOnOff
  base (on_off_light d) = d
  base (dimmable_light d) = d.on_off

  abbrev pub with_base : Light → DeviceOnOff → Light
  with_base (on_off_light d) b = on_off_light b
  with_base (dimmable_light d) b = dimmable_light (record d { on_off = b })

  abbrev pub is_dimmer : Light → Bool
  is_dimmer (on_off_light d) = false
  is_dimmer (dimmable_light d) = true

  abbrev pub is_on : Light → Bool
  is_on l = c.is_on (base l).object

  abbrev pub is_reachable : Light → Bool
  is_reachable l = c.is_reachable (base l).object

  abbrev pub endpoint_of : Light → ℕ
  endpoint_of l = c.get_endpoint_id (base l).object

  abbrev pub with_object : Light → c.Object → Light
  with_object l o = with_base l (record (base l) { object = o })

  unfoldable pub set_on_off : Bool → Light → Light × List Report
  unfolding announce_on_off announce_dimmable
  set_on_off b (on_off_light d) =
      let d' = record d { object = c.set_on_off b d.object } in
      (on_off_light d', announce_on_off d' (c.set_on_off_announces b d.object))
  set_on_off b (dimmable_light d) =
      let d' = record d {
        on_off = record (d.on_off) { object = c.set_on_off b d.on_off.object };
      } in
      (dimmable_light d', announce_dimmable d' (c.set_on_off_announces b d.on_off.object))

  unfoldable pub set_reachable : Bool → Light → Light × List Report
  unfolding announce_on_off announce_dimmable
  set_reachable b (on_off_light d) =
      let d' = record d { object = c.set_reachable b d.object } in
      (on_off_light d', announce_on_off d' (c.set_reachable_announces b d.object))
  set_reachable b (dimmable_light d) =
      let o = c.set_reachable b d.on_off.object in
      let d' = record d { on_off = record (d.on_off) { object = o } } in
      (dimmable_light d', announce_dimmable d' (c.set_reachable_announces b d.on_off.object))

  unfoldable pub set_name : Text → Light → Light × List Report
  unfolding announce_on_off announce_dimmable
  set_name name (on_off_light d) =
      let d' = record d { object = c.set_name name d.object } in
      (on_off_light d', announce_on_off d' (c.set_name_announces name d.object))
  set_name name (dimmable_light d) =
      let o = c.set_name name d.on_off.object in
      let d' = record d { on_off = record (d.on_off) { object = o } } in
      (dimmable_light d', announce_dimmable d' (c.set_name_announces name d.on_off.object))

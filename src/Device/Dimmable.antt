-- ===== src/Device/Dimmable.antt =====
-- The status handlers of main.cpp and the class `DeviceDimmable`.
use wemo_matter_bridge.Prelude.{
  ℕ, Bool, true, false, not, ◌||◌, List, [], ◌∷◌, ◌++◌, ◌==◌, if◌then◌else◌, Text,
}
use wemo_matter_bridge.Device.Class.{
  Sdk, Changed, Announcement, own_callback, virtual_handler, k_changed_level, Report, Reported,
}

-- `ScheduleReportingCallback`: the report that runs later on the Matter event loop, for the
-- endpoint that the device has now.
unfoldable pub schedule_reporting_callback : ℕ → Reported → List Report
schedule_reporting_callback endpoint a = record { endpoint = endpoint; attribute = a } ∷ []

unfoldable pub handle_device_status_changed : ℕ → Changed → List Report
unfolding schedule_reporting_callback
handle_device_status_changed ep mask =
    (if mask.reachable then schedule_reporting_callback ep Reported.reachable else [])
    ++ (if mask.name then schedule_reporting_callback ep Reported.node_label else [])

unfoldable pub handle_device_on_off_status_changed : ℕ → Changed → List Report
unfolding handle_device_status_changed schedule_reporting_callback
handle_device_on_off_status_changed ep mask =
    (if mask.reachable || mask.name || mask.location
      then handle_device_status_changed ep mask
      else [])
    ++ (if mask.on_off then schedule_reporting_callback ep Reported.on_off else [])

unfoldable pub handle_device_dimmable_status_changed : ℕ → Changed → List Report
unfolding handle_device_status_changed schedule_reporting_callback
handle_device_dimmable_status_changed ep mask =
    (if mask.reachable || mask.name then handle_device_status_changed ep mask else [])
    ++ ((if mask.on_off then schedule_reporting_callback ep Reported.on_off else [])
        ++ (if mask.level then schedule_reporting_callback ep Reported.current_level else []))

-- What `DeviceOnOff::mChanged_CB` holds: nothing, `HandleDeviceOnOffStatusChanged`, or the λ that
-- `DeviceDimmable::SetChangeCallback` installs.
pub data OnOffCallback : Type 0 where
  unset status_changed dimmable_bridge : OnOffCallback

module _ ⦃c : Sdk⦄ where
  open c use {Object}

  pub record DeviceOnOff : Type 0 where
    pub object : Object
    pub changed_cb : OnOffCallback

  -- The members of `DeviceDimmable`. `changed_cb` is set once its callback, which is always
  -- `HandleDeviceDimmableStatusChanged`, is installed.
  pub record DeviceDimmable : Type 0 where
    pub on_off : DeviceOnOff
    pub level : ℕ
    pub changed_cb : Bool

  unfoldable pub new_on_off : Text → Text → DeviceOnOff
  new_on_off name location = record { object = c.make name location; changed_cb = unset }

  unfoldable pub new_dimmable : Text → Text → DeviceDimmable
  unfolding new_on_off
  new_dimmable name location = record {
    on_off = new_on_off name location;
    level = 0;
    changed_cb = false;
  }

  unfoldable pub get_level : DeviceDimmable → ℕ
  get_level d = d.level

  -- `mChanged_CB(this, mask)`, if it is set.
  unfoldable pub call_changed_cb : DeviceDimmable → Changed → List Report
  unfolding handle_device_dimmable_status_changed
  call_changed_cb d mask =
      if d.changed_cb
      then handle_device_dimmable_status_changed (c.get_endpoint_id d.on_off.object) mask
      else []

  unfoldable pub set_level : ℕ → DeviceDimmable → DeviceDimmable × List Report
  unfolding call_changed_cb
  set_level level d =
      let changed = not (level == d.level) in
      let d' = record d { level = level } in
      (d', if changed then call_changed_cb d' k_changed_level else [])

  -- `DeviceDimmable::SetChangeCallback(&HandleDeviceDimmableStatusChanged)`.
  unfoldable pub set_change_callback : DeviceDimmable → DeviceDimmable
  set_change_callback d = record d {
    changed_cb = true;
    on_off = record (d.on_off) { changed_cb = dimmable_bridge };
  }

  -- `DeviceDimmable::HandleDeviceChange`.
  unfoldable pub handle_device_change : DeviceDimmable → Changed → List Report
  unfolding call_changed_cb
  handle_device_change d mask = call_changed_cb d mask

  -- What an announcement of the SDK's base class runs on a dimmable device: its own callback is the
  -- λ of `SetChangeCallback`, the virtual handler is `DeviceDimmable::HandleDeviceChange`.
  unfoldable pub announce_dimmable : DeviceDimmable → List Announcement → List Report
  unfolding call_changed_cb handle_device_change handle_device_on_off_status_changed
  announce_dimmable d [] = []
  announce_dimmable d (own_callback mask ∷ as') =
      (elim d.on_off.changed_cb [
        | unset ↦ []
        | status_changed ↦
            handle_device_on_off_status_changed (c.get_endpoint_id d.on_off.object) mask
        | dimmable_bridge ↦ call_changed_cb d mask
      ])
      ++ announce_dimmable d as'
  announce_dimmable d (virtual_handler mask ∷ as') =
      handle_device_change d mask ++ announce_dimmable d as'

  -- The same on a plain `DeviceOnOff`, whose `HandleDeviceChange` calls its callback too. The
  -- bridge installs `HandleDeviceOnOffStatusChanged` there.
  unfoldable pub announce_on_off : DeviceOnOff → List Announcement → List Report
  unfolding handle_device_on_off_status_changed
  announce_on_off d [] = []
  announce_on_off d (a ∷ as') =
      (elim d.changed_cb [
        | status_changed ↦
            handle_device_on_off_status_changed (c.get_endpoint_id d.object) (mask_of a)
        | _ ↦ []
      ])
      ++ announce_on_off d as'
    where
      mask_of : Announcement → Changed
      mask_of (own_callback m) = m
      mask_of (virtual_handler m) = m

-- ===== src/Bridge/Startup.antt =====
-- `ApplicationInit` of matter-bridge-app/main.cpp, as far as it publishes the lights: the order of
-- the discovered devices, and the loop over them.
use wemo_matter_bridge.Prelude.{
  ℕ, suc, ◌+◌, ◌%◌, Bool, not, List, [], ◌∷◌, ◌++◌, Option, none, some, ◌==◌, leb, if◌then◌else◌,
  length, replicate, Text, text_eq, text_lt, is_empty, codes,
}
use wemo_matter_bridge.Level.{matter_level_of_percent}
use wemo_matter_bridge.Adapter.Types.{WemoDevice}
use wemo_matter_bridge.Device.Class.{Sdk}
use wemo_matter_bridge.Device.Dimmable.{
  DeviceDimmable, new_on_off, new_dimmable, set_level, set_change_callback, status_changed,
}
use wemo_matter_bridge.Device.Light.{Light, on_off_light, dimmable_light}
use wemo_matter_bridge.Device.Light
use wemo_matter_bridge.Bridge.State.{Bridge, BridgedWemoLight, store}
use wemo_matter_bridge.Bridge.Write.{k_dynamic_endpoint_count}
use wemo_matter_bridge.Bridge.Endpoints.{add_device_endpoint}

-- The comparison that `std::sort` is given.
unfoldable pub device_lt : WemoDevice → WemoDevice → Bool
device_lt a b =
    if not (text_eq a.udn b.udn)
    then text_lt a.udn b.udn
    else text_lt a.friendly_name b.friendly_name

-- The call of `std::sort`, of the C++ library, as an insertion sort; devices that the comparison does not tell apart are left in an
-- order that `std::sort` does not fix.
unfoldable pub insert_device : WemoDevice → List WemoDevice → List WemoDevice
unfolding device_lt
insert_device d [] = d ∷ []
insert_device d (e ∷ es) = if device_lt e d then e ∷ insert_device d es else d ∷ e ∷ es

unfoldable pub sort_devices : List WemoDevice → List WemoDevice
unfolding insert_device
sort_devices [] = []
sort_devices (d ∷ ds) = insert_device d (sort_devices ds)

abbrev pub light_name : WemoDevice → Text
light_name d = if is_empty d.friendly_name then codes "WeMo Device" else d.friendly_name

abbrev pub new_entry : WemoDevice → ℕ → BridgedWemoLight
new_entry d address = record {
  wemo_id = d.wemo_id;
  udn = d.udn;
  is_dimmable = d.supports_level;
  device = address;
  commanded_on_off = none;
  commanded_level = none;
  commanded_on_off_until = 0;
  commanded_level_until = 0;
}

module _ ⦃c : Sdk⦄ where
  abbrev as_dimmable : DeviceDimmable → Light → DeviceDimmable
  as_dimmable d (dimmable_light d') = d'
  as_dimmable d (on_off_light d') = d

  -- The object of a discovered device, with its state seeded. No callback is installed yet, so
  -- nothing is reported.
  unfoldable pub new_light : WemoDevice → Light
  unfolding new_dimmable new_on_off set_level Light.set_on_off Light.set_reachable
  new_light d =
      if d.supports_level
      then (let dimmer = new_dimmable (light_name d) (codes "WeMo") in
          let on = (Light.set_on_off (not (d.onoff == 0)) (dimmable_light dimmer)).0 in
          let seeded =
            (set_level (matter_level_of_percent d.level_percent) (as_dimmable dimmer on)).0 in
          (Light.set_reachable d.is_online (dimmable_light seeded)).0)
      else (let light = on_off_light (new_on_off (light_name d) (codes "WeMo")) in
          (Light.set_reachable d.is_online (Light.set_on_off (not (d.onoff == 0)) light).0).0)

  -- `SetChangeCallback` of the light's class.
  unfoldable pub install_callback : Light → Light
  unfolding set_change_callback
  install_callback (dimmable_light d) = dimmable_light (set_change_callback d)
  install_callback (on_off_light d) = on_off_light (record d { changed_cb = status_changed })

  -- What follows `AddDeviceEndpoint`: the entry is dropped with its object, or its callback and its
  -- udn are recorded. `emberAfLevelControlClusterServerInitCallback`, which the SDK runs for a dimmer,
  -- is left out.
  unfoldable pub finish_publish : WemoDevice → Bridge → Option ℕ × Bridge → Option Bridge
  unfolding install_callback
  finish_publish d s (none, s') =
      some (record s' { lights = s.lights; heap = store s'.heap s.next_address none })
  finish_publish d s (some index, s') = elim (s'.heap s.next_address) [
    | none ↦ none
    | some light ↦ some (record s' {
      heap = store s'.heap s.next_address (some (install_callback light));
      device_to_udn = (s.next_address, d.udn) ∷ s'.device_to_udn;
    })
  ]

  -- The state in which `AddDeviceEndpoint` is called: the entry is the last of the vector.
  unfoldable pub push_entry : WemoDevice → Bridge → Bridge
  unfolding new_light
  push_entry d s = record s {
    heap = store s.heap s.next_address (some (new_light d));
    next_address = suc s.next_address;
    lights = s.lights ++ new_entry d s.next_address ∷ [];
  }

  -- One round of the loop of `ApplicationInit`, with the fuel for the search of an endpoint id.
  unfoldable pub publish : ℕ → WemoDevice → Bridge → Option Bridge
  unfolding push_entry add_device_endpoint finish_publish
  publish fuel d s =
      if leb k_dynamic_endpoint_count (length s.lights)
      then some s
      else (elim (add_device_endpoint fuel s.next_address 1 (push_entry d s)) [
        | none ↦ none
        | some r ↦ finish_publish d s r
      ])

  unfoldable pub publish_all : ℕ → List WemoDevice → Bridge → Option Bridge
  publish_all fuel [] s = some s
  publish_all fuel (d ∷ ds) s = elim (publish fuel d s) [
    | none ↦ none
    | some s' ↦ publish_all fuel ds s'
  ]

  -- Clearing the vector frees the objects of its entries.
  abbrev pub free_objects : List BridgedWemoLight → (ℕ → Option Light) → ℕ → Option Light
  free_objects [] h = h
  free_objects (e ∷ es) h = free_objects es (store h e.device none)

  -- The databases cleared, and the first dynamic id after `last_fixed`, the id of the last fixed
  -- endpoint.
  unfoldable pub reset : ℕ → Bridge → Bridge
  reset last_fixed s =
      let first = (last_fixed + 1) % 65536 in
      record s {
        heap = free_objects s.lights s.heap;
        devices = replicate 17 none;
        lights = [];
        device_to_udn = [];
        first_dynamic_endpoint_id = first;
        current_endpoint_id = first;
      }

  unfoldable pub application_init : ℕ → ℕ → List WemoDevice → Bridge → Option Bridge
  unfolding reset publish_all sort_devices
  application_init fuel last_fixed discovered s =
      publish_all fuel (sort_devices discovered) (reset last_fixed s)

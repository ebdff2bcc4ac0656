-- ===== src/Demo/State.antt =====
-- The demo devices of matter-bridge-app/main.cpp, and the locals of `bridge_polling_thread`.
use wemo_matter_bridge.Prelude.{ℕ, Bool, ◌++◌, List, map, Option, none, some}
use wemo_matter_bridge.Device.Class.{Sdk, Announcement, Report}
use wemo_matter_bridge.Device.Dimmable.{DeviceOnOff, announce_on_off, announce_dimmable}
use wemo_matter_bridge.Device.Light.{Light, on_off_light, dimmable_light}
use wemo_matter_bridge.Device.Sensors.{SensorSdk}
use wemo_matter_bridge.Bridge.State.{Bridge, reported, store}
use wemo_matter_bridge.Demo.Class.{DemoSdk}

infixl 5 ◌>>=◌
abbrev pub ◌>>=◌ : {A B : Type 0} → Option A → (A → Option B) → Option B
none >>= f = none
some a >>= f = f a

module _ ⦃c : Sdk⦄ ⦃d : SensorSdk⦄ ⦃m : DemoSdk⦄ where
  -- `light1` and `light2` are the addresses of the static objects `Light1` and `Light2` on the
  -- bridge's heap. The other devices are on no endpoint.
  pub record Demo : Type 0 where
    pub bridge : Bridge
    pub light1 : ℕ
    pub light2 : ℕ
    pub light1_added : Bool
    pub light2_added : Bool
    pub temp_sensor1 : d.Sensor
    pub temp_sensor2 : d.Sensor
    pub composed_temp_sensor1 : d.Sensor
    pub composed_temp_sensor2 : d.Sensor
    pub action_light1 : DeviceOnOff
    pub action_light2 : DeviceOnOff
    pub action_light3 : DeviceOnOff
    pub action_light4 : DeviceOnOff
    pub room1 : m.Room
    pub room2 : m.Room
    pub room3 : m.Room
    pub action1 : m.Action
    pub action2 : m.Action
    pub action3 : m.Action

  -- A setter of `DeviceOnOff` with what it announces.
  abbrev pub change_on_off :
      (c.Object → c.Object)
      → (c.Object → List Announcement)
      → DeviceOnOff
      → DeviceOnOff × List Report
  change_on_off f announces l =
      let l' = record l { object = f l.object } in (l', announce_on_off l' (announces l.object))

  -- The same behind a `Device` pointer.
  abbrev pub change_light :
      (c.Object → c.Object) → (c.Object → List Announcement) → Light → Light × List Report
  change_light f announces (on_off_light l) =
      let (l', reports) = change_on_off f announces l in (on_off_light l', reports)
  change_light f announces (dimmable_light l) =
      let l' = record l { on_off = record (l.on_off) { object = f l.on_off.object } } in
      (dimmable_light l', announce_dimmable l' (announces l.on_off.object))

  -- A setter of the object at an address; `none` is a dangling pointer.
  unfoldable pub update_light : ℕ → (Light → Light × List Report) → Bridge → Option Bridge
  update_light a f s = elim (s.heap a) [
    | none ↦ none
    | some l ↦ some (record s {
      heap = store s.heap a (some (f l).0);
      effects = s.effects ++ map reported (f l).1;
    })
  ]

  abbrev pub with_bridge : Demo → Bridge → Demo
  with_bridge s b = record s { bridge = b }

  abbrev pub on_light : ℕ → (Light → Light × List Report) → Demo → Option Demo
  on_light a f s = do b ← update_light a f s.bridge; some (with_bridge s b)

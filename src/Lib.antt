-- ===== src/Lib.antt =====
-- A model of the WeMo to Matter bridge, and the theorems that make it correct.
--
-- The program publishes WeMo lights as endpoints of a Matter bridge. It has these parts.
--
-- - The adapter (src/adapters/wemo/wemo_adapter_openwemo.cpp, include/wemo_bridge/) talks to a WeMo
--   engine: it initialises it, lists the devices, keeps a cache from udn to device id, and sends
--   on/off and level commands. Adapter/OpenWemo holds one function per method, over the record
--   `Adapter` of its state and the calls it has made; Adapter/Types holds the structs that the
--   adapter and the bridge share. The build with HAVE_OPENWEMO_ENGINE is the one modelled.
-- - The devices (matter-bridge-app/DeviceDimmable.cpp, and the status handlers of
--   matter-bridge-app/main.cpp): Device/Dimmable holds the class `DeviceDimmable` and the handlers
--   that turn a change mask into attribute reports, Device/Light the objects the bridge publishes.
-- - The bridge (matter-bridge-app/main.cpp): Bridge/State holds the global tables, Bridge/Write the
--   attribute write handlers and the external write callback, Bridge/Read those of the reads,
--   Bridge/Event `HandleWemoEventOnMatterThread`, Bridge/Endpoints `AddDeviceEndpoint` and
--   `RemoveDeviceEndpoint`, Bridge/Startup the publishing of `ApplicationInit` and Bridge/Boot the
--   calls of the adapter around it, and Bridge/Threads the detached threads of the writes, as a step
--   relation on the pending commands and the adapter.
-- - The endpoint registry (src/matter/endpoint_registry.cpp) keeps in a database which endpoint id a
--   udn has: Registry/EndpointRegistry holds `Lookup` and `GetOrAssign` with all their failures.
-- - The command-line tool (src/main.cpp) calls the same adapter and the registry: Cli holds its
--   argument parsing, its dispatch, its exit codes, and the devices and ids that `list` prints, but
--   not the text of its messages.
-- - The demo devices (matter-bridge-app/main.cpp): lights, temperature sensors, rooms and actions that
--   come from the SDK's example. Device/Sensors and Bridge/Sensors hold the handlers and the reads of
--   temperature sensors and of the power source, and Demo the keys of `bridge_polling_thread`
--   (Demo/Keys), `runOnOffRoomAction` (Demo/Rooms) and the JSON commands of the named pipe
--   (Demo/Commands), over the record `Demo` of the bridge and the demo devices. Demo/System is a step
--   relation in which events, writes, keys, room actions and commands follow each other in any order,
--   and Demo/Started starts it after `ApplicationInit`.
-- - Level: the two conversions between the percent of a device and the level of Matter.
--
-- How they interact: a Matter write changes the device object, records the commanded value with the
-- end of its settle window, and starts a thread that calls the adapter. An event of the engine
-- reaches the bridge as a `WemoStateEvent`, and changes the object unless a pending command
-- contradicts it. Reads answer from the object.
--
-- Names follow the source in snake case: `handle_write_on_off_attribute` is
-- `HandleWriteOnOffAttribute`. Device pointers are addresses on a heap of objects, since the slot
-- table, the entries and the udn map share the objects. A result `none` of a bridge operation is a
-- fault of the source: a null or dangling pointer is dereferenced, or an object is cast to a class
-- that it is not of. The clock is an argument in milliseconds, once for each reading of it. Started
-- threads and scheduled reports are entries of `effects`. A udn or a name is its list of bytes.
--
-- Parameters: the record `Sdk` (Device/Class) stands for the classes Device and DeviceOnOff, the
-- dynamic endpoint table, and the ZCL strings of the Matter SDK, with the laws the bridge relies
-- on; Examples/World has an instance. The record `Engine` (Adapter/Engine) stands for the WeMo
-- engine, whose answers are functions of all calls made so far, without laws. The record `Sqlite`
-- (Registry/Sqlite) stands for sqlite3 and the file system: each operation may fail at any time, and
-- its laws say what a transaction, a commit and a unique column do; Examples/Database has an
-- instance. The record
-- `SensorSdk` (Device/Sensors) stands for the SDK's temperature sensors and power sources, without
-- laws, and `DemoSdk` (Demo/Class) for its rooms, its actions and more of DeviceOnOff, with the law
-- that a configuration version is read back as it was set. `JsonLibrary` (Demo/Class) stands for the
-- JSON parser, without laws. Examples/House has instances of the three.
--
-- Fuel: the inner loop of `AddDeviceEndpoint` runs on fuel, one unit for each id it tries. One unit
-- for each dynamic id is enough (Bridge/Assign), and two units are enough at start-up
-- (Bridge/Frontier). All other loops are structural.
--
-- Not modelled: the stub adapter, which is abstract and never created, the static attribute
-- tables, the reading of the keyboard, and the named pipe and the SDK registrations at the end of
-- `ApplicationInit`. The keys are modelled though no code starts their thread. The locks of the
-- adapter are left out: each of its operations is one step here, also the discovery and the listing
-- on a cache miss, which the source runs outside the lock.
--
-- Prelude holds the shared helpers, and Examples a concrete SDK, engine, database and house of
-- lights on which the theorems are applied.
pub mod Prelude
pub mod Level
pub mod Device
pub mod Adapter
pub mod Registry
pub mod Cli
pub mod Bridge
pub mod Demo
mod Examples

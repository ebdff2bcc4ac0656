-- ===== src/Device.antt =====
-- The lights that the bridge owns: matter-bridge-app/DeviceDimmable.cpp with its header, over the
-- SDK's `DeviceOnOff`, and the status handlers of matter-bridge-app/main.cpp that are installed as
-- change callbacks.
--
-- `DeviceOnOff` and its base `Device` are classes of the SDK's bridge example, which is not part of
-- the repository: they are the parameter `Sdk`.
pub mod Class
pub mod Dimmable
pub mod Light
pub mod Setters
pub mod Sensors

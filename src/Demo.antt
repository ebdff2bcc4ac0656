-- ===== src/Demo.antt =====
-- The demo devices of matter-bridge-app/main.cpp: two lights that keys add to the bridge and remove
-- from it, temperature sensors, lights in rooms, and the commands of the named pipe.
pub mod Class
pub mod State
pub mod Keys
pub mod Rooms
pub mod Commands
pub mod Outcome
pub mod Steps
pub mod Safe
pub mod Apart
pub mod System
pub mod Started

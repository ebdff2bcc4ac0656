-- ===== src/Bridge.antt =====
-- The bridge application, matter-bridge-app/main.cpp.
pub mod State
pub mod Write
pub mod Read
pub mod Sensors
pub mod Buffer
pub mod Event
pub mod WellFormed
pub mod Preserved
pub mod Settle
pub mod LevelSettle
pub mod Commanded
pub mod LevelHold
pub mod Access
pub mod Follow
pub mod Endpoints
pub mod Slots
pub mod Assign
pub mod Placed
pub mod Startup
pub mod Published
pub mod Publish
pub mod Search
pub mod Frontier
pub mod Order
pub mod Sequence
pub mod Confirm
pub mod Threads
pub mod Boot
pub mod Keeps
pub mod Faults
pub mod Static

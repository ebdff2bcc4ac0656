-- ===== src/Examples.antt =====
-- The theorems at concrete inputs, over a small stand-in for each outside component.
mod World
mod Lights
mod Devices
mod Adapters
mod Threads
mod Boot
mod House
mod Demos
mod Database
mod Registry

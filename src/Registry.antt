-- ===== src/Registry.antt =====
-- The endpoint registry, src/matter/endpoint_registry.cpp.
pub mod Sqlite
pub mod EndpointRegistry
pub mod Numerals
pub mod Transaction
pub mod Atomic
pub mod Persist
pub mod Reliable
pub mod Refines

-- ===== src/Adapter.antt =====
-- The WeMo adapter: include/wemo_bridge/wemo_adapter.h and wemo_device.h, the adapter over the
-- openwemo engine (src/adapters/wemo/wemo_adapter_openwemo.cpp) and the stub.
pub mod Types
pub mod Engine
pub mod OpenWemo
pub mod Setup
pub mod Uses
pub mod Cache
pub mod Miss

-- ===== src/AsyncBridge.antt =====
-- temporalio_trio/_async_bridge.py: the wrapper of the Rust bridge.
pub mod State
pub mod Exchange
pub mod Prefix
pub mod Routing
pub mod Json
pub mod Worker
pub mod Client
pub mod Replay
pub mod Shutdown
pub mod Calls
pub mod Effects
pub mod Draining
pub mod Phases
pub mod Shutdowns

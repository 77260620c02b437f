-- ===== src/Bridge.antt =====
-- temporalio_trio/worker/_bridge_types.py: protobuf messages, and what is made of them.
pub mod Converters
pub mod Messages
pub mod Durations
pub mod Activations
pub mod Commands
pub mod JobOrder
pub mod CommandOrder

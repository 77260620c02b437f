-- ===== src/Runtime/Activities.antt =====
-- temporalio_trio/worker/_runtime.py: activities and local activities.
pub mod Requests
pub mod Execute
pub mod Schedule
pub mod Waiting
pub mod Resolve

-- ===== src/ActivityWorker.antt =====
-- temporalio_trio/worker/_activity.py: the worker that runs activities.
pub mod State
pub mod Run
pub mod Lifespan
pub mod Outcome
pub mod Heartbeats
pub mod Throttling

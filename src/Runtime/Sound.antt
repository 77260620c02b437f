-- ===== src/Runtime/Sound.antt =====
-- temporalio_trio/worker/_runtime.py: the invariant of a run, operation by operation.
pub mod Invariant
pub mod Calls
pub mod Backoff
pub mod Children
pub mod Jobs
pub mod Reach

-- ===== src/Worker.antt =====
-- temporalio_trio/worker/_workflow_state.py and _single_thread_worker.py: the worker that drives the
-- runtimes of its workflows.
pub mod State
pub mod Code
pub mod Queries
pub mod Updates
pub mod Signals
pub mod Apply
pub mod Task
pub mod Completed
pub mod Dispatch
pub mod Mailbox
pub mod QueryAnswers
pub mod UpdateProtocol
pub mod Ready
pub mod Arrivals
pub mod Runs
pub mod Faults
pub mod Registered
pub mod Frozen
pub mod Sound
pub mod Register
pub mod Poll
pub mod Polling
pub mod Dropped

-- ===== src/Runtime.antt =====
-- temporalio_trio/worker/_runtime.py: the state of one workflow run and its operations.
pub mod State
pub mod Timers
pub mod Activities
pub mod Children
pub mod External
pub mod Patches
pub mod Conditions
pub mod Wakes
pub mod New
pub mod Moves
pub mod Sound
pub mod Wakeups
pub mod Replay
pub mod Handlers
pub mod Backoffs
pub mod PatchAnswers
pub mod Refusals

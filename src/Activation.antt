-- ===== src/Activation.antt =====
-- temporalio_trio/worker/_activation.py: the jobs of an activation, and the commands of a completion.
mod Jobs
mod Commands
pub use Jobs.*
pub use Commands.*

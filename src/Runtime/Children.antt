-- ===== src/Runtime/Children.antt =====
-- temporalio_trio/worker/_runtime.py: child workflows.
pub mod Requests
pub mod Start
pub mod Result

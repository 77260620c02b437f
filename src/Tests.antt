-- ===== src/Tests.antt =====
-- A small host and workflows on which the theorems are tried.
mod World
mod Runs
mod Calls
mod Jobs
mod Faults
mod Converting
mod Convert
mod Lifecycle
mod Activities
mod Replays

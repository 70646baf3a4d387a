-- ===== src/Tests.antt =====
-- Tests: runs of the handlers of src/routes.rs on a small hub, and the theorems at these runs.
pub mod Setup
pub mod Runs
pub mod Witnesses
pub mod Doors
pub mod Launch
pub mod Calls
pub mod Conclusions
pub mod Lookups

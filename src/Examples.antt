-- ===== src/Examples.antt =====
-- Concrete clusters, inputs and runs on which the theorems are applied.
pub mod World
pub mod Migrate
pub mod Names
pub mod Pods
pub mod Uploads
pub mod Dummy
pub mod Restore
pub mod Endpoints
pub mod Parallel
pub mod Sequential
pub mod Reconcile
pub mod Wiring

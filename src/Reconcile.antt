-- ===== src/Reconcile.antt =====
-- controllers/livemigration.go and controllers/helpers.go
pub mod Builders
pub mod Snapshot
pub mod Prepare
pub mod Goroutines
pub mod EndToEnd

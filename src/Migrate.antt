-- ===== src/Migrate.antt =====
-- controllers/migrate.go
pub mod Upload
pub mod Pod
pub mod Sequential
pub mod Order
pub mod Safety
pub mod StageOne
pub mod Failures
pub mod Progress
pub mod Completion

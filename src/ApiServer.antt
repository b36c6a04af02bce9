-- ===== src/ApiServer.antt =====
-- api-server: the endpoints for LiveMigration objects, and the error signal of its manager.
pub mod Types
pub mod Create
pub mod ListAll
pub mod Signal
pub mod Server
pub mod Manager

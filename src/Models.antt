-- ===== src/Models.antt =====
-- The structs of internal/models.
pub mod Errors
pub mod Command
pub mod Execution
pub mod Schedule
pub mod User

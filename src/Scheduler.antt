-- ===== src/Scheduler.antt =====
-- internal/scheduler: the schedules, their table, the service and its background loop.
pub mod Repository
pub mod Service
pub mod Switching
pub mod Trigger
pub mod Rows
pub mod Flags
pub mod Disable
pub mod Poll
pub mod Create
pub mod Examples

-- ===== src/Scheduler.antt =====
-- core/src/scheduler.rs: where a scheduler keeps its coroutines, and how they move.
pub mod Queues
pub mod Places
pub mod Schedule
mod Examples

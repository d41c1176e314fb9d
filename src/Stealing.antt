-- ===== src/Stealing.antt =====
-- core/src/common/ordered_work_steal.rs and work_steal.rs: the queues of coroutines and of tasks, by
-- priority and without, with work stealing between threads.
pub mod Parts
pub mod Ordered
pub mod Plain
pub mod Ready
mod Examples

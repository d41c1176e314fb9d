-- ===== src/Pool.antt =====
-- core/src/co_pool: the pool that runs tasks on worker coroutines.
pub mod Tasks
pub mod Workers
mod Examples

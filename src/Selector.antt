-- ===== src/Selector.antt =====
-- core/src/net/selector/mod.rs: which descriptors a poller is asked to watch. The concurrent maps are
-- the crate dashmap's, and the poller is mio's: both are parameters.
pub mod Records
pub mod Agreement
pub mod Watching
pub mod Folding
mod Examples

-- ===== src/Coroutine.antt =====
-- core/src/coroutine: a coroutine's state machine (state.rs), the callbacks of its listeners
-- (listener.rs), and one resumption on a thread (mod.rs, korosensei.rs, suspender.rs).
pub mod State
pub mod Calls
pub mod Diagram
pub mod Listening
pub mod Resume
pub mod Slots
mod Examples

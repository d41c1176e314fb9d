-- ===== src/Syscall.antt =====
-- core/src/syscall/unix: the hooked system calls that wait on a non-blocking descriptor.
pub mod World
pub mod Buffers
pub mod Vectors
pub mod Messages
pub mod Connect
pub mod Limits
pub mod Threads
pub mod Facade
pub mod Polling
mod Examples

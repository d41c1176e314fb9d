-- ===== src/Lib.antt =====
-- A model of open-coroutine, a library of stackful coroutines that turns blocking calls into waits of
-- the calling coroutine.
--
-- The parts of the program and how they interact. A coroutine (core/src/coroutine) has a state that
-- changes by the methods of state.rs, each of which tells the listeners. A scheduler resumes it on a
-- thread by `resume_with`; the coroutine gives the thread back by a `Suspender`, which leaves a time
-- stamp or a cancellation in a slot of the thread. A hooked call (core/src/syscall/unix) enters the
-- state Syscall, makes the raw call without blocking, and waits on the event loop (core/src/net) while
-- the descriptor is not ready; the selectors (core/src/net/selector), one for each event loop, share
-- the tables of the descriptors that their pollers watch. A pool (core/src/co_pool) runs tasks on
-- coroutines of its scheduler, and makes more of them when they are suspended.
--
-- Which file models which part:
--   Prelude    the shared names, the Boolean tests on ℕ, and functions on lists
--   Time       core/src/common/mod.rs (`get_timeout_time`, `get_slices`) and `get_time_limit` of
--              core/src/syscall/unix/mod.rs
--   Coroutine  State: core/src/coroutine/state.rs and listener.rs. The method `running` is `to_running`,
--              and so on, with the clock as an argument; a match on the current state is a function by
--              clauses next to its method. Calls: sequences of the methods.
--              Resume: `resume_with`, `raw_resume` and the slots of suspender.rs; what a coroutine's body
--              does to the thread's slots, by resuming others, is given
--   Syscall    World: errno, the mode of a descriptor, and what a round of a loop meets. Buffers and
--              Vectors: the macros `impl_nio_…` of core/src/syscall/unix/mod.rs. Messages: sendmsg.rs and
--              recvmsg.rs. Connect: connect.rs. Limits: `send_time_limit`, `recv_time_limit` and
--              setsockopt.rs. Threads: pthread_cond_timedwait.rs and pthread_mutex_lock.rs. Facade: the
--              coroutine's state through a hooked call. Polling: poll.rs and select.rs
--   Selector   Records: core/src/net/selector/mod.rs and mio_adapter.rs: the tables, which are statics, are
--              one state; each event loop's poller is known by an index. Folding: the 32 bits of a token
--              that a poller is given
--   Stealing   Ordered: core/src/common/ordered_work_steal.rs, the queues by priority of the scheduler and
--              of the pool's tasks, shared and local. Plain: core/src/common/work_steal.rs, those without
--              priorities. Parts: the interfaces of st3 and crossbeam
--   Scheduler  core/src/scheduler.rs. Queues: the interface of the ready queue, and the heaps. Places: the
--              state, `try_resume` and `check_ready`. Schedule: the loop of `do_schedule`
--   Pool       core/src/co_pool. Tasks: a task from its submission to its result, and the states of the
--              pool. Workers: the number of worker coroutines, with `CoroutineCreator`
--   Monitor    core/src/monitor.rs, on Unix. Changes: the listener's calls by several coroutines on several
--              threads
--   Net        Loops: core/src/net/mod.rs, the choice of an event loop. Closing: close.rs and shutdown.rs of
--              core/src/syscall/unix, on the pollers of all event loops. Tokens: the tokens of coroutines
--              in core/src/net/event_loop.rs, and the delivery of events to the scheduler. Operator:
--              core/src/net/operator/linux/mod.rs, the submission queue of io_uring with its backlog
--   Maps       what the selector, the scheduler and the pool rely on of the crate dashmap
--
-- Bounds and fuel. A duration and a time are natural numbers of ns; saturation at the greatest u64 is
-- written out. The loop of `get_slices` runs on fuel; fuel above the total is enough for a positive
-- slice. The loops of hooked calls and of the scheduler run on a script, the answers of the kernel, the
-- clock and the event loop, one element a round: a script that ends before the call returns leaves the
-- call or the loop pending. The loops of `check_ready` are over the heaps that they empty.
--
-- The loop of a push into a full local queue runs on fuel; more fuel than half the queue's count is
-- enough where the count is right.
--
-- Not modelled: the switch of stacks (the crate corosensei), the growth of stacks, the handlers of
-- traps and signals, logging, the entries of the operator for io_uring, the operator for Windows, the
-- adapter of the crate polling, the pool's waiting threads, the threads of the event loops with their
-- start, stop and join handles, the tokens of threads that are not coroutines, the monitor's preemption
-- on Windows, the beans, the configuration, and the hook library that exports the hooked calls. The
-- poller, dashmap, and what listeners do are parameters or given answers.
mod Prelude
pub mod Time
pub mod Maps
pub mod Coroutine
pub mod Syscall
pub mod Selector
pub mod Stealing
pub mod Scheduler
pub mod Pool
pub mod Monitor
pub mod Net

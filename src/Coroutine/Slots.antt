-- ===== src/Coroutine/Slots.antt =====
-- The thread-local slots and the current coroutine across one resumption.
use open_coroutine.Prelude.{ℕ, ◌≡◌, List, [], arith}
use open_coroutine.Coroutine.State.{SyscallName, SyscallState, CoroutineState, Coroutine}
use open_coroutine.Coroutine.Calls.{Call, run}
use open_coroutine.Coroutine.Resume.{
  Thread, suspend_with, until_with, state, raw_resume, tail, front,
}

module _ {Y R : Type 0} where
  -- A body that suspends itself while running, on a thread where no cancellation is pending: the
  -- coroutine is suspended until the time stamp at the front of the thread's slot, which is taken
  -- out, or until 0 where the slot is empty.
  pub suspend-takes_front :
      (t : Thread) (co : Coroutine Y R) (cs : List (Call Y R)) (y : Y)
      → t.cancels ≡ []
      → (run cs co).state ≡ CoroutineState.running
      → let r = raw_resume t co (record { calls = cs; effect = λ u. u; exit = suspend_with y }) in
        (r.2 ≡ state (CoroutineState.suspend y (front 0 t.timestamps)))
        × (r.1.state ≡ CoroutineState.suspend y (front 0 t.timestamps))
        × (r.0 ≡ record t { timestamps = tail t.timestamps })
  unfolding raw_resume
  suspend-takes_front t co cs y e h = ground arith

  -- A body that suspends itself until a time stamp while running, with no cancellation pending: the
  -- coroutine is suspended until just that time stamp, and the thread's slots are as before.
  pub until-balanced :
      (t : Thread) (co : Coroutine Y R) (cs : List (Call Y R)) (y : Y) (ts : ℕ)
      → t.cancels ≡ []
      → (run cs co).state ≡ CoroutineState.running
      → let r = raw_resume t co (record { calls = cs; effect = λ u. u; exit = until_with y ts }) in
        (r.2 ≡ state (CoroutineState.suspend y ts))
        × (r.1.state ≡ CoroutineState.suspend y ts)
        × (r.0 ≡ t)
  unfolding raw_resume
  until-balanced t co cs y ts e h = ground arith

  -- A time stamp that a coroutine in a syscall leaves in the slot reaches another coroutine: after
  -- the first suspends itself until `ts` inside a syscall, the second, which only gives way while
  -- running, is suspended until `ts`.
  pub stale_timestamp :
      (t : Thread) (a b : Coroutine Y R) (cs ds : List (Call Y R)) (x y z : Y) (n : SyscallName)
      (s : SyscallState) (ts : ℕ)
      → t.cancels ≡ []
      → (run cs a).state ≡ CoroutineState.syscall z n s
      → (run ds b).state ≡ CoroutineState.running
      → let first =
          raw_resume t a (record { calls = cs; effect = λ u. u; exit = until_with x ts }) in
        let second =
          raw_resume first.0 b (record { calls = ds; effect = λ u. u; exit = suspend_with y }) in
        (first.2 ≡ state (CoroutineState.syscall z n s))
        × (second.2 ≡ state (CoroutineState.suspend y ts))
        × (second.0 ≡ t)
  unfolding raw_resume
  stale_timestamp t a b cs ds x y z n s ts e h k = ground arith

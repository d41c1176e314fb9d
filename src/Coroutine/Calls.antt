-- ===== src/Coroutine/Calls.antt =====
-- Sequences of the methods of core/src/coroutine/state.rs on one coroutine.
use open_coroutine.Prelude.{ℕ, String, List, [], ◌∷◌}
use open_coroutine.Coroutine.State.{
  SyscallName, SyscallState, Coroutine, Outcome, to_ready, to_running, to_suspend, to_syscall,
  to_cancel, to_complete, to_error,
}

-- A call, with the clock that it reads.
pub data Call (Y R : Type 0) : Type 0 where
  ready running : ℕ → Call Y R
  suspend : Y → ℕ → Call Y R
  syscall : Y → SyscallName → SyscallState → Call Y R
  cancel : Call Y R
  complete : R → Call Y R
  error : String → Call Y R

module _ {Y R : Type 0} where
  unfoldable pub apply : Call Y R → Coroutine Y R → Coroutine Y R × Outcome Y R
  unfolding to_ready to_running to_suspend to_syscall to_cancel to_complete to_error
  apply (ready now) co = to_ready co now
  apply (running now) co = to_running co now
  apply (suspend val timestamp) co = to_suspend co val timestamp
  apply (syscall val name s) co = to_syscall co val name s
  apply cancel co = to_cancel co
  apply (complete val) co = to_complete co val
  apply (error msg) co = to_error co msg

  -- A caller that goes on after each outcome.
  unfoldable pub run : List (Call Y R) → Coroutine Y R → Coroutine Y R
  run [] co = co
  run (c ∷ cs) co = run cs (apply c co).0

  -- The clock that a call reads, where it reads one.
  abbrev pub clock : Call Y R → ℕ
  clock (ready now) = now
  clock (running now) = now
  clock _ = 0

-- ===== src/Syscall/Facade.antt =====
-- The state of the coroutine that makes a hooked call: `impl_facade` (core/src/syscall/unix/mod.rs),
-- the wait in `EventLoop::wait_just` (core/src/net/event_loop.rs), the wake-ups of the scheduler
-- (core/src/scheduler.rs), and the sleeping calls (core/src/syscall/unix/sleep.rs, usleep.rs and
-- nanosleep.rs). `none` stands for a panic: an `unreachable!`, an `expect`, or a resumption that is
-- refused.
pub mod Balance
use open_coroutine.Prelude.{ℕ, List, [], ◌∷◌, Option, none, some}
use open_coroutine.Time.{get_timeout_time}
use open_coroutine.Coroutine.State.{
  SyscallName, SyscallState, executing, timeout, callback, CoroutineState, Coroutine, Outcome, ok,
  unexpected, to_running, to_syscall,
}

-- Why the scheduler takes a coroutine back: its time is over (`check_ready`), or an event resumes it
-- (`try_resume`).
pub data Wake : Type 0 where
  by_timeout by_callback : Wake

abbrev pub woken : Wake → SyscallState
woken by_timeout = timeout
woken by_callback = callback

-- One wait: the deadline, the wake-up, and the clock at which the coroutine is resumed.
pub record Wait : Type 0 where
  pub timestamp : ℕ
  pub why : Wake
  pub resumed_at : ℕ

infixl 5 ◌>>=◌
abbrev pub ◌>>=◌ {ℓ κ} : {A : Type ℓ} {B : Type κ} → Option A → (A → Option B) → Option B
none >>= f = none
some a >>= f = f a

module _ {Y R : Type 0} where
  -- `?` and `expect` on a change of state.
  abbrev pub accepted : Coroutine Y R × Outcome Y R → Option (Coroutine Y R)
  accepted (co, ok) = some co
  accepted (co, unexpected a b) = none

  wake_match : CoroutineState Y R → Wake → Coroutine Y R → Option (Coroutine Y R)
  unfolding to_syscall
  wake_match (CoroutineState.syscall val name (SyscallState.suspend t)) why co =
      accepted (to_syscall co val name (woken why))
  wake_match _ why co = none

  -- What the scheduler does to a coroutine of its syscall table, up to the push into `ready`.
  unfoldable pub wake : Wake → Coroutine Y R → Option (Coroutine Y R)
  unfolding wake_match
  wake why co = wake_match co.state why co

  begin_match : CoroutineState Y R → ℕ → Coroutine Y R → Coroutine Y R
  unfolding to_syscall
  begin_match (CoroutineState.syscall val name executing) timestamp co =
      (to_syscall co val name (SyscallState.suspend timestamp)).0
  begin_match _ timestamp co = co

  -- `wait_just` before the suspension; an error is only logged.
  unfoldable pub begin_wait : ℕ → Coroutine Y R → Coroutine Y R
  unfolding begin_match
  begin_wait timestamp co = begin_match co.state timestamp co

  end_match : CoroutineState Y R → Coroutine Y R → Coroutine Y R
  unfolding to_syscall
  end_match (CoroutineState.syscall val name callback) co = (to_syscall co val name executing).0
  end_match (CoroutineState.syscall val name timeout) co = (to_syscall co val name executing).0
  end_match _ co = co

  -- `wait_just` after the suspension.
  unfoldable pub end_wait : Coroutine Y R → Coroutine Y R
  unfolding end_match
  end_wait co = end_match co.state co

  unfoldable pub wait_just : Wait → Coroutine Y R → Option (Coroutine Y R)
  unfolding begin_wait wake to_running end_wait
  wait_just v co = wake v.why (begin_wait v.timestamp co) >>= λ co1.
      accepted (to_running co1 v.resumed_at) >>= λ co2. some (end_wait co2)

  unfoldable pub wait_all : List Wait → Coroutine Y R → Option (Coroutine Y R)
  wait_all [] co = some co
  wait_all (v ∷ vs) co = wait_just v co >>= λ co'. wait_all vs co'

  -- `impl_facade`: the inner call's part in the coroutine's state is its waits. `val` is the unit.
  unfoldable pub facade : Y → SyscallName → List Wait → ℕ → Coroutine Y R → Option (Coroutine Y R)
  unfolding to_syscall wait_all to_running
  facade val name waits now co =
      wait_all waits (to_syscall co val name executing).0 >>= λ co'. some (to_running co' now).0

  -- The facade of a sleeping call around `NioSleepSyscall` and its like: the state says from the
  -- start until when, `dur` in ns from the clock on. The loop of `timed_wait_just` waits at least
  -- once, in slices: `v` first, then `vs`.
  unfoldable pub sleep_facade :
      Y → SyscallName → ℕ → ℕ → Wait → List Wait → ℕ → Coroutine Y R → Option (Coroutine Y R)
  unfolding to_syscall get_timeout_time wait_all to_running
  sleep_facade val name dur clock v vs now co =
      let co1 = (to_syscall co val name executing).0 in
      let co2 = (to_syscall co1 val name (SyscallState.suspend (get_timeout_time dur clock))).0 in
      wait_all (v ∷ vs) co2 >>= λ co3. some (to_running co3 now).0

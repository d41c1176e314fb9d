-- ===== src/Syscall/Facade/Balance.antt =====
-- The state of a coroutine from the start to the end of a hooked call.
use open_coroutine.Prelude.{ℕ, ◌≡◌, List, [], ◌∷◌, Option, none, some, arith}
use open_coroutine.Time.{get_timeout_time}
use open_coroutine.Coroutine.State.{
  SyscallName, SyscallState, executing, CoroutineState, Coroutine, to_syscall,
}
use open_coroutine.Syscall.Facade.{Wait, wait_just, wait_all, facade, sleep_facade}

module _ {Y R : Type 0} where
  -- A coroutine in the given state.
  abbrev pub Ends : CoroutineState Y R → Option (Coroutine Y R) → Type 0
  Ends s none = ⊥
  Ends s (some co) = co.state ≡ s

  wait_just-executing :
      (v : Wait) (co : Coroutine Y R) (val : Y) (name : SyscallName)
      → co.state ≡ CoroutineState.syscall val name executing
      → Ends (CoroutineState.syscall val name executing) (wait_just v co)
  unfolding wait_just
  wait_just-executing v co val name h = ground arith

  wait_all-executing :
      (vs : List Wait) (co : Coroutine Y R) (val : Y) (name : SyscallName)
      → co.state ≡ CoroutineState.syscall val name executing
      → Ends (CoroutineState.syscall val name executing) (wait_all vs co)
  unfolding wait_all
  wait_all-executing [] co val name h = h
  wait_all-executing (v ∷ vs) co val name h =
      grind (arith, wait_just-executing v co val name h, wait_all-executing vs)

  -- A hooked call of a running coroutine, with any number of waits, each ended by a timeout or by an
  -- event, meets no panic and no refused resumption, and leaves the coroutine running.
  pub facade-running :
      (val : Y) (name : SyscallName) (vs : List Wait) (now : ℕ) (co : Coroutine Y R)
      → co.state ≡ CoroutineState.running
      → Ends CoroutineState.running (facade val name vs now co)
  unfolding facade
  facade-running val name vs now co h =
      grind (arith, wait_all-executing vs (to_syscall co val name executing).0 val name)

  -- The first wait of a hooked sleep finds the coroutine suspended already.
  wait_just-suspend :
      (v : Wait) (co : Coroutine Y R) (val : Y) (name : SyscallName) (t : ℕ)
      → co.state ≡ CoroutineState.syscall val name (SyscallState.suspend t)
      → Ends (CoroutineState.syscall val name executing) (wait_just v co)
  unfolding wait_just
  wait_just-suspend v co val name t h = ground arith

  wait_all-suspend :
      (v : Wait) (vs : List Wait) (co : Coroutine Y R) (val : Y) (name : SyscallName) (t : ℕ)
      → co.state ≡ CoroutineState.syscall val name (SyscallState.suspend t)
      → Ends (CoroutineState.syscall val name executing) (wait_all (v ∷ vs) co)
  unfolding wait_all
  wait_all-suspend v vs co val name t h =
      grind (arith, wait_just-suspend v co val name t h, wait_all-executing vs)

  -- A hooked sleep of a running coroutine, whatever its duration, with one wait or more, each ended
  -- by a timeout or by an event, meets no panic and no refused resumption, and leaves the coroutine
  -- running.
  pub sleep_facade-running :
      (val : Y) (name : SyscallName) (dur clock : ℕ) (v : Wait) (vs : List Wait) (now : ℕ)
      (co : Coroutine Y R)
      → co.state ≡ CoroutineState.running
      → Ends CoroutineState.running (sleep_facade val name dur clock v vs now co)
  unfolding sleep_facade
  sleep_facade-running val name dur clock v vs now co h =
      let co1 = (to_syscall co val name executing).0 in
      let t = get_timeout_time dur clock in
      let co2 = (to_syscall co1 val name (SyscallState.suspend t)).0 in
      grind (arith, wait_all-suspend v vs co2 val name t)

-- ===== src/Coroutine/Diagram.antt =====
-- The state diagram that the comments of core/src/coroutine/state.rs draw.
use open_coroutine.Prelude.{ℕ, ◌≤◌, ◌≡◌, refl, String, List, [], ◌∷◌, arith}
use open_coroutine.Coroutine.State.{
  SyscallName, SyscallState, executing, CoroutineState, Coroutine, ok, unexpected, discriminant,
}
use open_coroutine.Coroutine.Calls.{Call, apply, run, clock}

-- The arrows that the comments of state.rs name. Time stamps are compared with the clock `now`.
pub data Arrow {Y R : Type 0} (now : ℕ) : CoroutineState Y R → CoroutineState Y R → Type 0 where
  suspend_ready :
      {y : Y} {t : ℕ} → t ≤ now → Arrow now (CoroutineState.suspend y t) CoroutineState.ready
  ready_running : Arrow now CoroutineState.ready CoroutineState.running
  syscall_running :
      {y : Y} {n : SyscallName}
      → Arrow now (CoroutineState.syscall y n executing) CoroutineState.running
  suspend_running :
      {y : Y} {t : ℕ} → t ≤ now → Arrow now (CoroutineState.suspend y t) CoroutineState.running
  running_suspend : {y : Y} {t : ℕ} → Arrow now CoroutineState.running (CoroutineState.suspend y t)
  running_syscall :
      {y : Y} {n : SyscallName} {v : SyscallState}
      → Arrow now CoroutineState.running (CoroutineState.syscall y n v)
  syscall_syscall :
      {y z : Y} {n m : SyscallName} {t v : SyscallState}
      → discriminant n ≡ discriminant m
      → Arrow now (CoroutineState.syscall y n t) (CoroutineState.syscall z m v)
  running_cancel : Arrow now CoroutineState.running CoroutineState.cancelled
  running_complete : {r : R} → Arrow now CoroutineState.running (CoroutineState.complete r)
  running_error : {m : String} → Arrow now CoroutineState.running (CoroutineState.error m)

pub ruleset arrows = (
  suspend_ready, ready_running, syscall_running, suspend_running, running_suspend, running_syscall,
  syscall_syscall, running_cancel, running_complete, running_error,
)

-- A call that is accepted leaves the state or follows an arrow.
pub data Walk {Y R : Type 0} (now : ℕ) : CoroutineState Y R → CoroutineState Y R → Type 0 where
  stay : {s : CoroutineState Y R} → Walk now s s
  go : {s u : CoroutineState Y R} → Arrow now s u → Walk now s u

-- `Cancelled`, `Complete` and `Error`.
abbrev pub IsFinal : {Y R : Type 0} → CoroutineState Y R → Type 0
IsFinal CoroutineState.cancelled = Unit
IsFinal (CoroutineState.complete r) = Unit
IsFinal (CoroutineState.error m) = Unit
IsFinal _ = ⊥

module _ {Y R : Type 0} where
  -- A call that is accepted leaves the state as it was or follows an arrow of the diagram, at the
  -- clock that it reads.
  pub apply-Walk :
      (c : Call Y R) (co : Coroutine Y R)
      → (apply c co).1 ≡ ok
      → Walk (clock c) co.state (apply c co).0.state
  unfolding apply
  apply-Walk c co h = grind (arith, arrows, stay, go)

  -- A call that is refused names the current state in its error and changes nothing, not even the
  -- log of its listeners.
  pub apply-unexpected :
      (c : Call Y R) (co : Coroutine Y R) (s u : CoroutineState Y R)
      → (apply c co).1 ≡ unexpected s u
      → ((apply c co).0 ≡ co) × (s ≡ co.state)
  unfolding apply
  apply-unexpected c co s u h = ground arith

  -- Every arrow of the diagram can be walked: a coroutine in the first state has a call, at a clock no
  -- later than `now`, that is accepted and takes it to the second.
  pub Arrow-apply :
      (now : ℕ) {s u : CoroutineState Y R}
      → Arrow now s u
      → (co : Coroutine Y R) → co.state ≡ s
      → (c : Call Y R) × (clock c ≤ now) × ((apply c co).1 ≡ ok) × ((apply c co).0.state ≡ u)
  unfolding apply
  Arrow-apply now (suspend_ready h) co e = (Call.ready now, omega arith, ground arith, ground arith)
  Arrow-apply now ready_running co e = (Call.running now, omega arith, ground arith, ground arith)
  Arrow-apply now syscall_running co e = (Call.running now, omega arith, ground arith, ground arith)
  Arrow-apply now (suspend_running h) co e =
      (Call.running now, omega arith, ground arith, ground arith)
  Arrow-apply now (running_suspend {y} {t}) co e =
      (Call.suspend y t, omega arith, ground arith, ground arith)
  Arrow-apply now (running_syscall {y} {n} {v}) co e =
      (Call.syscall y n v, omega arith, ground arith, ground arith)
  Arrow-apply now (syscall_syscall {z} {m} {v} h) co e =
      (Call.syscall z m v, omega arith, ground arith, ground arith)
  Arrow-apply now running_cancel co e = (Call.cancel, omega arith, ground arith, ground arith)
  Arrow-apply now (running_complete {r}) co e =
      (Call.complete r, omega arith, ground arith, ground arith)
  Arrow-apply now (running_error {m}) co e = (Call.error m, omega arith, ground arith, ground arith)

  apply_of_IsFinal : (c : Call Y R) (co : Coroutine Y R) → IsFinal co.state → (apply c co).0 ≡ co
  unfolding apply
  apply_of_IsFinal c co h = ground arith

  -- A cancelled, completed or failed coroutine is left as it is, its log too, by every sequence of
  -- calls.
  pub run_of_IsFinal :
      (cs : List (Call Y R)) (co : Coroutine Y R) → IsFinal co.state → run cs co ≡ co
  unfolding run
  run_of_IsFinal [] co h = refl
  run_of_IsFinal (c ∷ cs) co h = rw (apply_of_IsFinal c co h) (run_of_IsFinal cs co h)

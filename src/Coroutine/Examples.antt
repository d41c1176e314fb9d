-- ===== src/Coroutine/Examples.antt =====
-- Runs of a coroutine's methods, and the theorems at concrete inputs.
use open_coroutine.Prelude.{ℕ, ◌≤◌, ◌≡◌, refl, List, [], ◌∷◌}
use open_coroutine.Coroutine.State.{
  nanosleep, sleep, executing, callback, CoroutineState, Coroutine, Outcome, ok, unexpected,
  to_running,
}
use open_coroutine.Coroutine.State
use open_coroutine.Coroutine.Calls.{Call, apply, run, clock}
use open_coroutine.Coroutine.Diagram.{Walk, ready_running, apply-Walk, Arrow-apply}
use open_coroutine.Coroutine.Listening.{Tells, nothing, run-Tells}
use open_coroutine.Coroutine.Resume.{Thread, returns, Turn, resume_with}

abbrev at : CoroutineState ℕ ℕ → Coroutine ℕ ℕ
at s = record { id = 9; state = s; listeners = 1 ∷ 2 ∷ []; log = [] }

abbrev thread : Thread
thread = record { timestamps = []; cancels = []; currents = 4 ∷ [] }

abbrev life : List (Call ℕ ℕ)
life =
    Call.running 5
    ∷ Call.syscall 0 nanosleep executing
    ∷ Call.syscall 0 sleep executing
    ∷ Call.running 6
    ∷ Call.suspend 3 20
    ∷ Call.ready 10
    ∷ Call.ready 20
    ∷ Call.running 21
    ∷ Call.complete 7
    ∷ Call.running 22
    ∷ []

life_completes : (run life (at CoroutineState.ready)).state ≡ CoroutineState.complete 7
unfolding run apply State.discriminant
life_completes = refl

running_refused :
    (apply (Call.running 3) (at (CoroutineState.suspend 0 8))).1
    ≡ unexpected (CoroutineState.suspend 0 8) CoroutineState.running
unfolding apply
running_refused = refl

apply-Walk_example :
    Walk 3 CoroutineState.ready (apply (Call.running 3) (at CoroutineState.ready)).0.state
unfolding apply
apply-Walk_example = apply-Walk (Call.running 3) (at CoroutineState.ready) refl

Arrow-apply_example :
    (c : Call ℕ ℕ) × (clock c ≤ 3)
    × ((apply c (at CoroutineState.ready)).1 ≡ ok)
    × ((apply c (at CoroutineState.ready)).0.state ≡ CoroutineState.running)
Arrow-apply_example = Arrow-apply 3 ready_running (at CoroutineState.ready) refl

run-Tells_example :
    Tells
      (1 ∷ 2 ∷ [])
      CoroutineState.ready
      (run life (at CoroutineState.ready)).log
      (run life (at CoroutineState.ready)).state
run-Tells_example =
    run-Tells life (at CoroutineState.ready) (1 ∷ 2 ∷ []) CoroutineState.ready refl nothing

-- A body that resumes a cancelled coroutine, and returns.
abbrev leaf : Turn ℕ ℕ
leaf = record { calls = []; effect = λ t. t; exit = returns 0 }

abbrev nesting : Turn ℕ ℕ
nesting = record {
  calls = [];
  effect = λ t. (resume_with 6 t (record (at CoroutineState.cancelled) { id = 5 }) leaf).0;
  exit = returns 7;
}

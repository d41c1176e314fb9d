-- ===== src/Scheduler/Examples.antt =====
-- A scheduler over lists and maps as functions, and the theorems at concrete inputs.
use open_coroutine.Prelude.{ℕ, ◌+◌, ◌≡◌, refl, arith, none, List, [], ◌∷◌, All}
use open_coroutine.Maps.{fun_maps, fun_insert}
use open_coroutine.Coroutine.State.{read, SyscallState, CoroutineState, Coroutine}
use open_coroutine.Coroutine.Resume.{Thread, until_with}
use open_coroutine.Scheduler.Queues.{list_queue}
use open_coroutine.Scheduler.Places.{Scheduler, check_ready}
use open_coroutine.Scheduler.Places.Keeping.{Ends, held, InPlace, check_ready-keeps}
use open_coroutine.Scheduler.Places.Due.{IsAfter, check_ready-due}
use open_coroutine.Scheduler.Schedule.{Round}

abbrev with_state : ℕ → CoroutineState ℕ ℕ → Coroutine ℕ ℕ
with_state id s = record { id = id; state = s; listeners = 1 ∷ []; log = [] }

abbrev waiting : ℕ → CoroutineState ℕ ℕ
waiting t = CoroutineState.syscall 0 read (SyscallState.suspend t)

abbrev empty : Scheduler (List (Coroutine ℕ ℕ)) fun_maps ℕ ℕ
empty = record {
  ready = [];
  suspend = [];
  syscall = λ k. none;
  syscall_suspend = [];
  results = [];
  cancels = λ k. none;
  listeners = [];
}

-- One coroutine ready, two suspended, one in a syscall.
abbrev busy : Scheduler (List (Coroutine ℕ ℕ)) fun_maps ℕ ℕ
busy = record empty {
  ready = with_state 6 CoroutineState.ready ∷ [];
  suspend =
      record { timestamp = 20; coroutine = with_state 8 (CoroutineState.suspend 0 20) }
      ∷ record { timestamp = 90; coroutine = with_state 9 (CoroutineState.suspend 0 90) }
      ∷ [];
  syscall = fun_insert 7 (with_state 7 (waiting 30)) (λ k. none);
  syscall_suspend = record { timestamp = 30; co_id = 7 } ∷ [];
}

busy-InPlace : InPlace list_queue fun_maps busy
busy-InPlace = ((refl, (refl, tt)), λ k. ground arith)

abbrev clock : ℕ → ℕ
clock i = 40 + i

check_ready-keeps_example :
    Ends
      (λ s'.
        InPlace list_queue fun_maps s'
        × (held list_queue fun_maps 8 s' ≡ held list_queue fun_maps 8 busy)
        × (s'.results ≡ busy.results))
      (check_ready list_queue fun_maps clock clock busy)
check_ready-keeps_example =
    check_ready-keeps list_queue fun_maps clock clock (λ i. omega arith) busy 8 busy-InPlace

check_ready-due_example :
    Ends (λ s'. All (IsAfter 40) s'.suspend) (check_ready list_queue fun_maps clock clock busy)
check_ready-due_example =
    check_ready-due list_queue fun_maps clock clock (λ i. omega arith) busy busy-InPlace
      ((omega arith, tt), (tt, tt))

abbrev thread : Thread
thread = record { timestamps = []; cancels = []; currents = [] }

abbrev round : Round ℕ ℕ
round = record {
  started = 40;
  clock = clock;
  clock' = clock;
  resumed_at = 45;
  turn = record { calls = []; effect = λ t. t; exit = until_with 0 70 };
  woken = 7 ∷ [];
  later = 50;
}

abbrev popped : Coroutine ℕ ℕ
popped = with_state 5 CoroutineState.ready

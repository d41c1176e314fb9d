-- ===== src/Pool/Examples.antt =====
-- A pool over lists and maps as functions, and the theorems at concrete inputs.
use open_coroutine.Prelude.{ℕ, ◌≡◌, refl, arith, true, false, none, some, List, [], ◌∷◌}
use open_coroutine.Maps.{fun_maps}
use open_coroutine.Coroutine.State.{CoroutineState}
use open_coroutine.Scheduler.Queues.{list_queue}
use open_coroutine.Scheduler.Places.Keeping.{Ends}
use open_coroutine.Pool.Tasks.{PoolState, Task, ok, Pool, result_of, try_take_task_result, try_run}
use open_coroutine.Pool.Tasks.Rounds.{
  Op, submit, stopped, run_one, cancel, Forward, steps, try_run-take, steps-Forward,
}
use open_coroutine.Pool.Workers.{
  Workers, Event, schedules, changes, polls, InBounds, happen_all, happen_all-InBounds,
}

abbrev task : Task
task = record { id = 4; outcome = ok (some 16) }

abbrev pool : Pool (List Task) fun_maps
pool = record {
  state = PoolState.running;
  task_queue = task ∷ [];
  waits = λ k. none;
  results = λ k. none;
  no_waits = λ k. none;
  cancels = λ k. none;
}

abbrev closing : Pool (List Task) fun_maps
closing = record pool { state = PoolState.stopping }

try_run-take_example :
    Ends
      (λ (p', ran).
        let first = try_take_task_result list_queue fun_maps 4 p' in
        (first.0 ≡ some (ok (some 16)))
        × ((try_take_task_result list_queue fun_maps 4 first.1).0 ≡ none)
        × (result_of list_queue fun_maps 5 first.1.results ≡ none)
        × (ran ≡ true))
      (try_run list_queue fun_maps pool)
try_run-take_example =
    try_run-take list_queue fun_maps pool task [] 5 refl refl refl refl (λ e. omega (arith, e))

abbrev calls : List Op
calls = submit task ∷ cancel 4 ∷ run_one ∷ stopped ∷ submit task ∷ []

steps-Forward_example :
    Forward list_queue fun_maps 4 closing (steps list_queue fun_maps calls closing)
steps-Forward_example = steps-Forward list_queue fun_maps calls closing 4 (omega arith)

abbrev two_workers : Workers
two_workers = record {
  running = 2;
  pop_fail_times = 1;
  min_size = 1;
  max_size = 2;
  keep_alive_time = 30;
}

abbrev day : List (Event ℕ ℕ)
day =
    schedules (record { queue_empty = false; created = true })
    ∷ polls false 10 20 false
    ∷ changes (CoroutineState.error "lost") (record { queue_empty = false; created = true })
    ∷ []

happen_all-InBounds_example : InBounds (happen_all day two_workers)
happen_all-InBounds_example = happen_all-InBounds day two_workers (omega arith, omega arith)

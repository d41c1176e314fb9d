-- ===== src/Pool/Tasks/Rounds.antt =====
-- What a task comes to, and the states of the pool.
use open_coroutine.Prelude.{
  ℕ, ◌≤◌, ◌≡◌, ◌<◌, arith, Bool, ◌==◌, true, false, some, none, inl, inr, Option-cases, List, [],
  ◌∷◌,
}
use open_coroutine.Maps.{Maps}
use open_coroutine.Scheduler.Queues.{ReadyQueue}
use open_coroutine.Scheduler.Places.{Result, done, fails, panics}
use open_coroutine.Scheduler.Places.Keeping.{Ends}
use open_coroutine.Pool.Tasks.{
  rank, Task, TaskResult, Pool, has, result_of, to_stopping, to_stopped, submit_task,
  try_take_task_result, clean_task_result, try_cancel_task, try_run,
}

-- A step on the pool's state and queue.
pub data Op : Type 0 where
  stopping stopped run_one : Op
  submit : Task → Op
  take clean cancel : ℕ → Op

module _ {Q : Type 0} (𝓠 : ReadyQueue Q Task) (𝓜 : Maps) where
  -- A task that is neither cancelled nor cleaned, and whose id has no result yet, runs with no panic:
  -- then its result is taken once, and no more after that; the results of other ids stay.
  pub try_run-take :
      (p : Pool Q 𝓜) (task : Task) (q : Q) (j : ℕ)
      → 𝓠.pop p.task_queue ≡ some (task, q)
      → has 𝓠 𝓜 task.id p.cancels ≡ false
      → has 𝓠 𝓜 task.id p.no_waits ≡ false
      → result_of 𝓠 𝓜 task.id p.results ≡ none
      → ¬ (j ≡ task.id)
      → Ends
          (λ (p', ran).
            let first = try_take_task_result 𝓠 𝓜 task.id p' in
            (first.0 ≡ some task.outcome)
            × ((try_take_task_result 𝓠 𝓜 task.id first.1).0 ≡ none)
            × (result_of 𝓠 𝓜 j first.1.results ≡ result_of 𝓠 𝓜 j p.results)
            × (ran ≡ true))
          (try_run 𝓠 𝓜 p)
  unfolding try_run try_take_task_result
  try_run-take p task q j e c n r d =
      let laws = 𝓜.laws TaskResult in
      let results = laws.insert task.id task.outcome p.results in
      ground (
        arith,
        laws.get-insert task.id task.id task.outcome p.results,
        laws.get-insert task.id j task.outcome p.results,
        laws.get-remove task.id task.id results,
        laws.get-remove task.id j results,
      )

  -- A task whose result nobody wants, since `clean_task_result` came before it ran, or that was
  -- cancelled before it ran, runs with no panic and leaves no result.
  pub try_run-unwanted :
      (p : Pool Q 𝓜) (task : Task) (q : Q)
      → 𝓠.pop p.task_queue ≡ some (task, q)
      → result_of 𝓠 𝓜 task.id p.results ≡ none
      → Ends
          (λ (p', ran). result_of 𝓠 𝓜 task.id p'.results ≡ none)
          (try_run 𝓠 𝓜 (clean_task_result 𝓠 𝓜 task.id p))
        × Ends
            (λ (p', ran). result_of 𝓠 𝓜 task.id p'.results ≡ none)
            (try_run 𝓠 𝓜 (try_cancel_task 𝓠 𝓜 task.id p))
  unfolding try_run clean_task_result try_cancel_task
  try_run-unwanted p task q e r =
      let unit = 𝓜.laws (Unit {0}) in
      let laws = 𝓜.laws TaskResult in
      let marked = unit.get-insert task.id task.id tt p.no_waits in
      let unmarked = unit.get-remove task.id task.id p.cancels in
      let removed = laws.get-remove task.id task.id p.results in
      (
        ground (arith, marked, unmarked, removed),
        ground (arith, unit.get-insert task.id task.id tt p.cancels),
      )

  abbrev or_same : Pool Q 𝓜 → Result (Pool Q 𝓜) → Pool Q 𝓜
  or_same p (done p') = p'
  or_same p fails = p
  or_same p panics = p

  abbrev or_ran : Pool Q 𝓜 → Result (Pool Q 𝓜 × Bool) → Pool Q 𝓜
  or_ran p (done (p', ran)) = p'
  or_ran p fails = p
  or_ran p panics = p

  -- A caller that goes on after an error.
  unfoldable pub step : Op → Pool Q 𝓜 → Pool Q 𝓜
  unfolding to_stopping to_stopped submit_task try_take_task_result clean_task_result
      try_cancel_task try_run
  step stopping p = or_same p (to_stopping 𝓠 𝓜 p)
  step stopped p = or_same p (to_stopped 𝓠 𝓜 p)
  step run_one p = or_ran p (try_run 𝓠 𝓜 p)
  step (submit task) p = or_same p (submit_task 𝓠 𝓜 task p)
  step (take id) p = (try_take_task_result 𝓠 𝓜 id p).1
  step (clean id) p = clean_task_result 𝓠 𝓜 id p
  step (cancel id) p = try_cancel_task 𝓠 𝓜 id p

  unfoldable pub steps : List Op → Pool Q 𝓜 → Pool Q 𝓜
  unfolding step
  steps [] p = p
  steps (o ∷ os) p = steps os (step o p)

  abbrev has_task : ℕ → Task → Bool
  has_task j task = task.id == j

  -- The state is no earlier, and there are no more tasks of the id in the queue.
  abbrev pub Forward : ℕ → Pool Q 𝓜 → Pool Q 𝓜 → Type 0
  Forward j p p' =
      (rank p.state ≤ rank p'.state)
      × (𝓠.count (has_task j) p'.task_queue ≤ 𝓠.count (has_task j) p.task_queue)

  run_one-Forward : (p : Pool Q 𝓜) (j : ℕ) → Forward j p (step run_one p)
  unfolding step
  run_one-Forward p j = elim (Option-cases (𝓠.pop p.task_queue)) [
    | inl e ↦ ground (arith, e)
    | inr ((task, q), e) ↦ ground (arith, e, 𝓠.count-pop (has_task j) p.task_queue task q e)
  ]

  step-Forward : (o : Op) (p : Pool Q 𝓜) (j : ℕ) → 0 < rank p.state → Forward j p (step o p)
  unfolding step
  step-Forward run_one p j h = run_one-Forward p j
  step-Forward stopping p j h = ground arith
  step-Forward stopped p j h = ground arith
  step-Forward (submit task) p j h = ground arith
  step-Forward (take id) p j h = ground arith
  step-Forward (clean id) p j h = ground arith
  step-Forward (cancel id) p j h = ground arith

  -- Once a pool is stopping or stopped, no sequence of calls takes it back: its state never goes back
  -- from stopped to stopping or to running, and no task of any id comes into its queue.
  pub steps-Forward :
      (os : List Op) (p : Pool Q 𝓜) (j : ℕ) → 0 < rank p.state → Forward j p (steps os p)
  unfolding steps
  steps-Forward [] p j h = ground arith
  steps-Forward (o ∷ os) p j h =
      let first = step-Forward o p j h in
      let rest = steps-Forward os (step o p) j (omega (arith, first.0)) in
      (omega (arith, first.0, rest.0), omega (arith, first.1, rest.1))

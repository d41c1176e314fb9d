-- ===== src/Pool/Tasks.antt =====
-- core/src/co_pool/mod.rs and state.rs: the life of a task, from its submission to its result. A task's
-- function is the user's code: a task is its id and the result that it comes to. The task queue is the
-- same interface as the scheduler's ready queue. `notify`'s condition variable is left out: `waits` is
-- the set of ids that a thread is blocked on.
pub mod Rounds
use open_coroutine.Prelude.{
  ℕ, Bool, true, false, String, Option, none, some, List, [], ◌∷◌, ◌==◌, if◌then◌else◌,
}
use open_coroutine.Maps.{Maps}
use open_coroutine.Selector.Records.{is_some}
use open_coroutine.Scheduler.Queues.{ReadyQueue}
use open_coroutine.Scheduler.Places.{Result, done, fails, panics}

pub data PoolState : Type 0 where
  running stopping stopped : PoolState

abbrev pub rank : PoolState → ℕ
rank running = 0
rank stopping = 1
rank stopped = 2

-- `Result<Option<usize>, &str>`
pub data TaskResult : Type 0 where
  ok : Option ℕ → TaskResult
  err : String → TaskResult

pub record Task : Type 0 where
  pub id : ℕ
  pub outcome : TaskResult

-- `cancels` is `CANCEL_TASKS`.
pub record Pool (Q : Type 0) (𝓜 : Maps) : Type 0 where
  pub state : PoolState
  pub task_queue : Q
  pub waits : 𝓜.Map (Unit {0})
  pub results : 𝓜.Map TaskResult
  pub no_waits : 𝓜.Map (Unit {0})
  pub cancels : 𝓜.Map (Unit {0})

module _ {Q : Type 0} (𝓠 : ReadyQueue Q Task) (𝓜 : Maps) where
  abbrev pub has : ℕ → 𝓜.Map (Unit {0}) → Bool
  has id m = is_some ((𝓜.laws (Unit {0})).get id m)

  abbrev pub result_of : ℕ → 𝓜.Map TaskResult → Option TaskResult
  result_of = (𝓜.laws TaskResult).get

  abbrev drop_mark : ℕ → 𝓜.Map (Unit {0}) → 𝓜.Map (Unit {0})
  drop_mark = (𝓜.laws (Unit {0})).remove

  -- The state after the call. `Ok` always carries `old_state`.
  unfoldable pub change_state : PoolState → PoolState → Pool Q 𝓜 → Result (Pool Q 𝓜)
  change_state old_state new_state p =
      if rank p.state == rank new_state
      then done p
      else (if rank p.state == rank old_state then done (record p { state = new_state }) else fails)

  unfoldable pub to_stopping : Pool Q 𝓜 → Result (Pool Q 𝓜)
  unfolding change_state
  to_stopping p = change_state running stopping p

  unfoldable pub to_stopped : Pool Q 𝓜 → Result (Pool Q 𝓜)
  unfolding change_state
  to_stopped p = change_state stopping stopped p

  unfoldable pub submit_task : Task → Pool Q 𝓜 → Result (Pool Q 𝓜)
  submit_task task p = elim p.state [
    | running ↦ done (record p { task_queue = 𝓠.push task p.task_queue })
    | stopping ↦ fails
    | stopped ↦ fails
  ]

  unfoldable pub try_take_task_result : ℕ → Pool Q 𝓜 → Option TaskResult × Pool Q 𝓜
  try_take_task_result id p =
      (result_of id p.results, record p { results = (𝓜.laws TaskResult).remove id p.results })

  unfoldable pub clean_task_result : ℕ → Pool Q 𝓜 → Pool Q 𝓜
  unfolding try_take_task_result
  clean_task_result id p =
      let (taken, p') = try_take_task_result id p in
      let marked = record p' {
        no_waits = (𝓜.laws (Unit {0})).insert id tt p'.no_waits;
        cancels = drop_mark id p'.cancels;
      } in
      if is_some taken then p' else marked

  -- The branch of `try_cancel_task` for a task that is not running.
  unfoldable pub try_cancel_task : ℕ → Pool Q 𝓜 → Pool Q 𝓜
  try_cancel_task id p = record p { cancels = (𝓜.laws (Unit {0})).insert id tt p.cancels }

  -- A task that has been popped.
  unfoldable pub run_task : Task → Pool Q 𝓜 → Result (Pool Q 𝓜)
  run_task task p =
      let kept = record p {
        results = (𝓜.laws TaskResult).insert task.id task.outcome p.results;
        waits = drop_mark task.id p.waits;
      } in
      if has task.id p.cancels
      then done (record p { cancels = drop_mark task.id p.cancels })
      else (if has task.id p.no_waits
          then done (record p { no_waits = drop_mark task.id p.no_waits })
          else (if is_some (result_of task.id p.results) then panics else done kept))

  -- `Some(())` where a task was popped, the Boolean.
  unfoldable pub try_run : Pool Q 𝓜 → Result (Pool Q 𝓜 × Bool)
  unfolding run_task
  try_run p = elim (𝓠.pop p.task_queue) [
    | none ↦ done (p, false)
    | some (task, q) ↦ elim (run_task task (record p { task_queue = q })) [
      | done p' ↦ done (p', true)
      | fails ↦ fails
      | panics ↦ panics
    ]
  ]

  -- The loop of `do_clean`, over the ids that are waited for.
  unfoldable pub do_clean : List ℕ → Pool Q 𝓜 → Pool Q 𝓜
  do_clean [] p = p
  do_clean (id ∷ ids) p = do_clean ids (record p {
    results = (𝓜.laws TaskResult).insert id (err "The coroutine pool has stopped") p.results;
    waits = drop_mark id p.waits;
  })

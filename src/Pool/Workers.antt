-- ===== src/Pool/Workers.antt =====
-- core/src/co_pool/mod.rs and creator.rs: how many worker coroutines a pool has. `queue_empty` is what
-- the task queue answers, and `created` whether the scheduler makes the coroutine.
use open_coroutine.Prelude.{
  ℕ, ◌+◌, ◌-◌, ◌≤◌, arith, Bool, true, false, List, [], ◌∷◌, ◌&&◌, ◌||◌, leb, ltb, if◌then◌else◌,
}
use open_coroutine.Coroutine.State.{CoroutineState}

pub record Workers : Type 0 where
  pub running : ℕ
  pub pop_fail_times : ℕ
  pub min_size : ℕ
  pub max_size : ℕ
  pub keep_alive_time : ℕ

-- What `try_grow` meets.
pub record Chance : Type 0 where
  pub queue_empty : Bool
  pub created : Bool

-- The workers after the call, and whether it is `Ok`.
unfoldable pub submit_co : Bool → Workers → Workers × Bool
submit_co created w =
    if leb w.max_size w.running
    then (w, false)
    else (if created then (record w { running = w.running + 1 }, true) else (w, false))

unfoldable pub try_grow : Chance → Workers → Workers × Bool
unfolding submit_co
try_grow c w = if c.queue_empty then (w, true) else submit_co c.created w

-- `CoroutineCreator`, told of a worker's new state.
unfoldable pub on_state_changed : {Y R : Type 0} → CoroutineState Y R → Chance → Workers → Workers
unfolding try_grow
on_state_changed (CoroutineState.suspend y t) c w = (try_grow c w).0
on_state_changed (CoroutineState.syscall y n s) c w = (try_grow c w).0
on_state_changed (CoroutineState.complete r) c w = record w { running = w.running - 1 }
on_state_changed CoroutineState.cancelled c w =
    (try_grow c (record w { running = w.running - 1 })).0
on_state_changed (CoroutineState.error m) c w =
    (try_grow c (record w { running = w.running - 1 })).0
on_state_changed _ c w = w

-- What a worker does after it has tried to run a task.
pub data Next : Type 0 where
  continues returns suspends blocks : Next

-- The body of the loop of `try_grow`; `ran` is what `try_run` answers.
unfoldable pub worker_round : Bool → ℕ → ℕ → Bool → Workers → Next × Workers
worker_round ran create_time now can_recycle w =
    let fails = w.pop_fail_times + 1 in
    let old = leb w.keep_alive_time (now - create_time) && ltb w.min_size w.running in
    if ran
    then (continues, record w { pop_fail_times = 0 })
    else (if old || can_recycle
        then (returns, w)
        else (if ltb fails w.running
            then (suspends, record w { pop_fail_times = fails })
            else (blocks, record w { pop_fail_times = 0 })))

-- An event of the pool: an attempt to grow at the start of a scheduling, a worker's change of state,
-- or a round of a worker.
pub data Event (Y R : Type 0) : Type 0 where
  schedules : Chance → Event Y R
  changes : CoroutineState Y R → Chance → Event Y R
  polls : Bool → ℕ → ℕ → Bool → Event Y R

-- The bounds that the pool keeps: no more workers than allowed, and no count of failed attempts
-- above the number of workers allowed.
abbrev pub InBounds : Workers → Type 0
InBounds w = (w.running ≤ w.max_size) × (w.pop_fail_times ≤ w.max_size)

module _ {Y R : Type 0} where
  unfoldable pub happen : Event Y R → Workers → Workers
  unfolding try_grow on_state_changed worker_round
  happen (schedules c) w = (try_grow c w).0
  happen (changes s c) w = on_state_changed s c w
  happen (polls ran create_time now can_recycle) w =
      (worker_round ran create_time now can_recycle w).1

  unfoldable pub happen_all : List (Event Y R) → Workers → Workers
  unfolding happen
  happen_all [] w = w
  happen_all (e ∷ es) w = happen_all es (happen e w)

  happen-InBounds : (e : Event Y R) (w : Workers) → InBounds w → InBounds (happen e w)
  unfolding happen
  happen-InBounds e w h = ground arith

  -- Through every sequence of attempts to grow, of changes of the workers' states and of rounds of the
  -- workers, a pool in its bounds has at most `max_size` workers running, and its count of failed
  -- attempts to get a task does not pass that number.
  pub happen_all-InBounds :
      (es : List (Event Y R)) (w : Workers) → InBounds w → InBounds (happen_all es w)
  unfolding happen_all
  happen_all-InBounds [] w h = h
  happen_all-InBounds (e ∷ es) w h = happen_all-InBounds es (happen e w) (happen-InBounds e w h)

-- ===== src/Scheduler/Schedule.antt =====
-- core/src/scheduler.rs: the loop of `do_schedule`. A round is given what it meets: the clocks, what
-- the coroutine that it resumes does, and the coroutines that events resume meanwhile. A coroutine that
-- is submitted while another runs is a step between two rounds. `RUNNING_COROUTINES`, which says on
-- which thread a coroutine runs, is left out.
pub mod Fates
pub mod Turns
pub mod Idle
use open_coroutine.Prelude.{
  ℕ, ◌-◌, Bool, true, false, ◌||◌, Option, none, some, List, [], ◌∷◌, ltb, ◌==◌, if◌then◌else◌,
}
use open_coroutine.Maps.{Maps}
use open_coroutine.Coroutine.State.{SyscallState, CoroutineState, Coroutine}
use open_coroutine.Coroutine.Resume.{Thread, Turn, Resumed, state, refused, resume_with}
use open_coroutine.Selector.Records.{is_some}
use open_coroutine.Scheduler.Queues.{ReadyQueue, heap_push}
use open_coroutine.Scheduler.Places.{
  SuspendItem, SyscallSuspendItem, Result, done, fails, panics, Scheduler, try_resume, check_ready,
}

-- `started` is the clock at the head of the loop, `clock` and `clock'` are those of `check_ready`,
-- `resumed_at` is that of the resumption, and `later` that of the comparison after it.
pub record Round (Y R : Type 0) : Type 0 where
  pub started : ℕ
  pub clock : ℕ → ℕ
  pub clock' : ℕ → ℕ
  pub resumed_at : ℕ
  pub turn : Turn Y R
  pub woken : List ℕ
  pub later : ℕ

-- `more`: the loop goes on. `over`: it returns with the time left.
pub data Turned (S : Type 0) : Type 0 where
  more : Thread → S → Turned S
  over : ℕ → Thread → S → Turned S

abbrev pub has_result : {Y R : Type 0} → ℕ → List (ℕ × CoroutineState Y R) → Bool
has_result co_id [] = false
has_result co_id ((k, r) ∷ rs) = (k == co_id) || has_result co_id rs

module _ {Q Y R : Type 0} (𝓠 : ReadyQueue Q (Coroutine Y R)) (𝓜 : Maps) where
  -- `assert!(results.insert(co_id, …).is_none())`
  abbrev pub insert_result : ℕ → CoroutineState Y R → Scheduler Q 𝓜 Y R → Result (Scheduler Q 𝓜 Y R)
  insert_result co_id r s =
      if has_result co_id s.results
      then panics
      else done (record s { results = (co_id, r) ∷ s.results })

  abbrev pub syscall_item : ℕ → SyscallState → List SyscallSuspendItem → List SyscallSuspendItem
  unfolding heap_push
  syscall_item co_id (SyscallState.suspend t) items =
      heap_push (λ i. i.timestamp) (record { timestamp = t; co_id = co_id }) items
  syscall_item co_id _ items = items

  -- The `match` on what the resumption returns.
  unfoldable pub settle :
      Resumed Y R → ℕ → Coroutine Y R → Scheduler Q 𝓜 Y R → Result (Scheduler Q 𝓜 Y R)
  unfolding heap_push
  settle (state (CoroutineState.syscall y n st)) later co s = done (record s {
    syscall = (𝓜.laws (Coroutine Y R)).insert co.id co s.syscall;
    syscall_suspend = syscall_item co.id st s.syscall_suspend;
  })
  settle (state (CoroutineState.suspend y t)) later co s =
      if ltb later t
      then done (record s {
        suspend = heap_push (λ i. i.timestamp) (record { timestamp = t; coroutine = co }) s.suspend;
      })
      else done (record s { ready = 𝓠.push co s.ready })
  settle (state CoroutineState.cancelled) later co s = done s
  settle (state (CoroutineState.complete r)) later co s =
      insert_result co.id (CoroutineState.complete r) s
  settle (state (CoroutineState.error m)) later co s =
      insert_result co.id (CoroutineState.error m) s
  settle _ later co s = fails

  unfoldable pub resume_all : List ℕ → Scheduler Q 𝓜 Y R → Result (Scheduler Q 𝓜 Y R)
  unfolding try_resume
  resume_all [] s = done s
  resume_all (id ∷ ids) s = elim (try_resume 𝓠 𝓜 id s) [
    | done s' ↦ resume_all ids s'
    | fails ↦ fails
    | panics ↦ panics
  ]

  abbrev pub and_then : {A B : Type 0} → Result A → (A → Result B) → Result B
  and_then (done a) f = f a
  and_then fails f = fails
  and_then panics f = panics

  -- A coroutine that has been popped.
  unfoldable pub execute :
      Round Y R → Thread → Coroutine Y R → Scheduler Q 𝓜 Y R → Result (Turned (Scheduler Q 𝓜 Y R))
  unfolding settle resume_all resume_with
  execute x t co s =
      let (t', co', r) = resume_with x.resumed_at t co x.turn in
      let cancelled = record s { cancels = (𝓜.laws (Unit {0})).remove co.id s.cancels } in
      if is_some ((𝓜.laws (Unit {0})).get co.id s.cancels)
      then done (more t cancelled)
      else and_then (resume_all x.woken s)
          (λ s'. and_then (settle r x.later co' s') (λ s''. done (more t' s'')))

  -- One round of the loop.
  unfoldable pub do_round :
      ℕ → Round Y R → Thread → Scheduler Q 𝓜 Y R → Result (Turned (Scheduler Q 𝓜 Y R))
  unfolding check_ready execute
  do_round timeout_time x t s =
      let left_time = timeout_time - x.started in
      if left_time == 0
      then done (over 0 t s)
      else and_then (check_ready 𝓠 𝓜 x.clock x.clock' s) (λ s'. elim (𝓠.pop s'.ready) [
        | none ↦ done (over left_time t s')
        | some (co, q) ↦ execute x t co (record s' { ready = q })
      ])

  -- The loop; a script that ends first leaves it with `more`.
  unfoldable pub do_schedule :
      ℕ → List (Round Y R) → Thread → Scheduler Q 𝓜 Y R → Result (Turned (Scheduler Q 𝓜 Y R))
  unfolding do_round
  do_schedule timeout_time [] t s = done (more t s)
  do_schedule timeout_time (x ∷ xs) t s = elim (do_round timeout_time x t s) [
    | done (more t' s') ↦ do_schedule timeout_time xs t' s'
    | done (over left t' s') ↦ done (over left t' s')
    | fails ↦ fails
    | panics ↦ panics
  ]

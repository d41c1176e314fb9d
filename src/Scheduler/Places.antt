-- ===== src/Scheduler/Places.antt =====
-- The state of a scheduler and its methods: `submit_raw_co`, `try_resume` and `check_ready`. What
-- `now()` answers at its successive calls is a function of their number.
pub mod Keeping
pub mod Due
use open_coroutine.Prelude.{ℕ, suc, Option, none, some, List, [], ◌∷◌, ◌++◌, ltb, if◌then◌else◌}
use open_coroutine.Maps.{Maps}
use open_coroutine.Coroutine.State.{CoroutineState, Coroutine, ok, unexpected, to_ready}
use open_coroutine.Syscall.Facade.{by_timeout, by_callback, wake}
use open_coroutine.Scheduler.Queues.{ReadyQueue}

pub record SuspendItem (Y R : Type 0) : Type 0 where
  pub timestamp : ℕ
  pub coroutine : Coroutine Y R

pub record SyscallSuspendItem : Type 0 where
  pub timestamp : ℕ
  pub co_id : ℕ

-- `fails`: the method returns `Err`. `panics`: an `unreachable!`, `expect` or `assert!`.
pub data Result (A : Type 0) : Type 0 where
  done : A → Result A
  fails panics : Result A

-- `results` is the map that `do_schedule` fills, newest first; `cancels` is `CANCEL_COROUTINES`.
pub record Scheduler (Q : Type 0) (𝓜 : Maps) (Y R : Type 0) : Type 0 where
  pub ready : Q
  pub suspend : List (SuspendItem Y R)
  pub syscall : 𝓜.Map (Coroutine Y R)
  pub syscall_suspend : List SyscallSuspendItem
  pub results : List (ℕ × CoroutineState Y R)
  pub cancels : 𝓜.Map (Unit {0})
  pub listeners : List ℕ

module _ {Q Y R : Type 0} (𝓠 : ReadyQueue Q (Coroutine Y R)) (𝓜 : Maps) where
  abbrev pub find : ℕ → 𝓜.Map (Coroutine Y R) → Option (Coroutine Y R)
  find = (𝓜.laws (Coroutine Y R)).get

  -- A coroutine leaves the syscall table for the ready queue.
  abbrev pub to_queue : ℕ → Coroutine Y R → Scheduler Q 𝓜 Y R → Scheduler Q 𝓜 Y R
  to_queue co_id co s = record s {
    syscall = (𝓜.laws (Coroutine Y R)).remove co_id s.syscall;
    ready = 𝓠.push co s.ready;
  }

  unfoldable pub submit_raw_co : Coroutine Y R → Scheduler Q 𝓜 Y R → Scheduler Q 𝓜 Y R
  submit_raw_co co s = record s {
    ready = 𝓠.push (record co { listeners = co.listeners ++ s.listeners }) s.ready;
  }

  unfoldable pub try_cancel_coroutine : ℕ → Scheduler Q 𝓜 Y R → Scheduler Q 𝓜 Y R
  try_cancel_coroutine co_id s = record s {
    cancels = (𝓜.laws (Unit {0})).insert co_id tt s.cancels;
  }

  unfoldable pub try_resume : ℕ → Scheduler Q 𝓜 Y R → Result (Scheduler Q 𝓜 Y R)
  unfolding wake
  try_resume co_id s = elim (find co_id s.syscall) [
    | none ↦ done s
    | some co ↦ elim (wake by_callback co) [
      | none ↦ panics
      | some co' ↦ done (to_queue co_id co' s)
    ]
  ]

  -- The first loop of `check_ready`, over the heap `suspend`. A round reads the clock to compare, and
  -- `ready` reads it again.
  check_suspend :
      (ℕ → ℕ) → ℕ → List (SuspendItem Y R) → Scheduler Q 𝓜 Y R → Result (Scheduler Q 𝓜 Y R)
  unfolding to_ready
  check_suspend clock k [] s = done (record s { suspend = [] })
  check_suspend clock k (item ∷ items) s =
      let (co, o) = to_ready item.coroutine (clock (suc k)) in
      let rest = check_suspend clock (suc (suc k)) items (record s { ready = 𝓠.push co s.ready }) in
      if ltb (clock k) item.timestamp
      then done (record s { suspend = item ∷ items })
      else elim o [ ok ↦ rest | unexpected a b ↦ fails ]

  -- The second loop, over the heap `syscall_suspend`. `none`, that a woken coroutine is in no state
  -- Suspend of its syscall, is the `unreachable!`.
  check_syscall :
      (ℕ → ℕ) → ℕ → List SyscallSuspendItem → Scheduler Q 𝓜 Y R → Result (Scheduler Q 𝓜 Y R)
  unfolding wake
  check_syscall clock k [] s = done (record s { syscall_suspend = [] })
  check_syscall clock k (item ∷ items) s =
      if ltb (clock k) item.timestamp
      then done (record s { syscall_suspend = item ∷ items })
      else elim (find item.co_id s.syscall) [
        | none ↦ check_syscall clock (suc k) items s
        | some co ↦ elim (wake by_timeout co) [
          | none ↦ panics
          | some co' ↦ check_syscall clock (suc k) items (to_queue item.co_id co' s)
        ]
      ]

  -- `clock` and `clock'` are the readings of the two loops.
  unfoldable pub check_ready : (ℕ → ℕ) → (ℕ → ℕ) → Scheduler Q 𝓜 Y R → Result (Scheduler Q 𝓜 Y R)
  unfolding check_suspend check_syscall
  check_ready clock clock' s = elim (check_suspend clock 0 s.suspend s) [
    | done s' ↦ check_syscall clock' 0 s'.syscall_suspend s'
    | fails ↦ fails
    | panics ↦ panics
  ]

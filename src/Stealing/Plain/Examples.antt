-- ===== src/Stealing/Plain/Examples.antt =====
-- core/src/common/work_steal.rs: its examples, and the theorems at concrete queues of numbers.
use open_coroutine.Prelude.{ℕ, ◌+◌, ◌≡◌, refl, arith, ltb, false, List, [], ◌∷◌}
use open_coroutine.Scheduler.Queues.{tally}
use open_coroutine.Stealing.Parts.Instances.{Worker, list_workers, list_injectors}
use open_coroutine.Stealing.Plain.{WorkStealQueue, LocalQueue, new, own, local_push, local_pop}
use open_coroutine.Stealing.Plain.Counts.{total}
use open_coroutine.Stealing.Plain.Runs.{Op, push_local, pop_local, pushed, IsWithin, run, run-tally}
use open_coroutine.Stealing.Plain.Popping.{run-pop}

abbrev at : ℕ → LocalQueue
at i = record { tick = 1; stealing = false; slot = i }

abbrev Queues : Type 0
Queues = WorkStealQueue (List ℕ) (Worker ℕ)

abbrev queues : ℕ → ℕ → Queues
queues n c = new list_workers list_injectors n c

-- The example of `push`: half of a full queue and the new element go to the shared queue.
abbrev overflow : List (Op ℕ)
overflow =
    push_local (at 0) 0 ∷ push_local (at 0) 1 ∷ push_local (at 0) 2 ∷ push_local (at 0) 3 ∷ []

overflow_pops :
    (run list_workers list_injectors
      (pop_local (at 0) 0
        ∷ pop_local (at 0) 0
        ∷ pop_local (at 0) 0
        ∷ pop_local (at 0) 0
        ∷ pop_local (at 0) 0
        ∷ [])
      (run list_workers list_injectors overflow (queues 1 2)).1).0
    ≡ 1 ∷ 3 ∷ 0 ∷ 2 ∷ []
unfolding new local_push local_pop
overflow_pops = refl

-- The second example of `pop`: the other queue's elements are stolen.
abbrev theft : List (Op ℕ)
theft =
    push_local (at 0) 2
    ∷ push_local (at 0) 3
    ∷ push_local (at 0) 4
    ∷ push_local (at 0) 5
    ∷ push_local (at 1) 0
    ∷ push_local (at 1) 1
    ∷ pop_local (at 1) 0
    ∷ pop_local (at 1) 1
    ∷ pop_local (at 1) 0
    ∷ pop_local (at 1) 1
    ∷ pop_local (at 1) 0
    ∷ pop_local (at 1) 1
    ∷ []

theft-IsWithin : IsWithin 2 theft
theft-IsWithin = (
  omega arith,
  (
    omega arith,
    (
      omega arith,
      (
        omega arith,
        (
          omega arith,
          (
            omega arith,
            (
              omega arith,
              (omega arith, (omega arith, (omega arith, (omega arith, (omega arith, tt))))),
            ),
          ),
        ),
      ),
    ),
  ),
)

theft_pops : (run list_workers list_injectors theft (queues 2 64)).0 ≡ 0 ∷ 1 ∷ 2 ∷ 3 ∷ 4 ∷ 5 ∷ []
unfolding new local_push local_pop
theft_pops = refl

run-tally_example :
    tally (λ x. ltb x 3) (run list_workers list_injectors theft (queues 2 64)).0
      + total list_workers list_injectors
          (λ x. ltb x 3)
          (run list_workers list_injectors theft (queues 2 64)).1
    ≡ tally (λ x. ltb x 3) (pushed theft)
      + total list_workers list_injectors (λ x. ltb x 3) (queues 2 64)
unfolding new
run-tally_example =
    run-tally list_workers list_injectors (λ x. ltb x 3) theft (queues 2 64) theft-IsWithin

-- The queue that was robbed is empty at the end, and finds nothing.
run-pop_example :
    let s = (run list_workers list_injectors theft (queues 2 64)).1 in
    ((own list_workers list_injectors (at 0) s).held ≡ []) × (s.shared_queue ≡ [])
unfolding new local_push local_pop
run-pop_example =
    run-pop list_workers list_injectors 2 64 theft (at 0) 0 theft-IsWithin (omega arith)
      (omega arith) refl

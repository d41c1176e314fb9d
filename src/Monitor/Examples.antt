-- ===== src/Monitor/Examples.antt =====
-- Runs of the monitor, and the theorems at concrete inputs.
use open_coroutine.Prelude.{ℕ, ◌+◌, ◌≤◌, ◌≡◌, true, none, some, List, [], ◌∷◌, arith, refl}
use open_coroutine.Time.{get_timeout_time}
use open_coroutine.Coroutine.State.{CoroutineState}
use open_coroutine.Monitor.{sweep}
use open_coroutine.Monitor.Nodes.{signalled}
use open_coroutine.Monitor.Changes.{Change, Run, tell_all, runs_all, AllLegal, at_first}
use open_coroutine.Monitor.Watching.{sweep-reaches, sweep-spares}

-- Coroutine 1 runs on thread 7 and is suspended; then coroutine 2 runs there, and coroutine 3 on thread
-- 8.
abbrev busy : List (Change ℕ ℕ)
busy =
    record { co = 1; state = CoroutineState.running; now = 5; pthread = 7 }
    ∷ record { co = 1; state = CoroutineState.suspend 0 0; now = 6; pthread = 7 }
    ∷ record { co = 2; state = CoroutineState.running; now = 6; pthread = 7 }
    ∷ record { co = 3; state = CoroutineState.running; now = 9; pthread = 8 }
    ∷ []

busy-AllLegal : AllLegal busy at_first (λ co. none)
unfolding tell_all runs_all get_timeout_time
busy-AllLegal = (
  (refl, (λ co r h. ground arith), (λ co h. ground arith), omega arith),
  (
    tt,
    (
      (refl, (λ co r h. ground arith), (λ co h. ground arith), omega arith),
      ((refl, (λ co r h. ground arith), (λ co h. ground arith), omega arith), tt),
    ),
  ),
)

-- Only thread 7 has run for 10 ms.
swept : sweep (λ i. 10_000_007) 0 (tell_all busy at_first).monitor.notify_queue ≡ 7 ∷ []
unfolding sweep tell_all get_timeout_time
swept = refl

sweep-reaches_example :
    signalled 7 (sweep (λ i. 10_000_007) 0 (tell_all busy at_first).monitor.notify_queue) ≡ true
unfolding runs_all
sweep-reaches_example =
    sweep-reaches busy (λ i. 10_000_007) 10_000_007 2 (record { since = 6; pthread = 7 })
      busy-AllLegal (λ i. omega arith) refl (omega arith)

sweep-spares_example :
    (co : ℕ) × (r : Run) × (runs_all busy (λ c. none) co ≡ some r)
    × (r.pthread ≡ 7)
    × (r.since + 10_000_000 ≤ 10_000_007)
unfolding sweep tell_all get_timeout_time
sweep-spares_example =
    sweep-spares busy (λ i. 10_000_007) 10_000_007 7 busy-AllLegal (λ i. omega arith) refl

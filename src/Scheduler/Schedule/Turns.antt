-- ===== src/Scheduler/Schedule/Turns.antt =====
-- One turn of a coroutine that the loop of `do_schedule` has popped.
use open_coroutine.Prelude.{ℕ, ◌≡◌, List}
use open_coroutine.Maps.{Maps}
use open_coroutine.Coroutine.State.{CoroutineState, Coroutine}
use open_coroutine.Coroutine.Resume.{Thread, Resumed, state}
use open_coroutine.Scheduler.Queues.{ReadyQueue}
use open_coroutine.Scheduler.Places.{Result, done, Scheduler}
use open_coroutine.Scheduler.Places.Keeping.{held, InPlace}
use open_coroutine.Scheduler.Schedule.{Round, Turned, more, over, settle, and_then, resume_all}
use open_coroutine.Scheduler.Schedule.Fates.{IsYielded}

-- The resumption is accepted, and the coroutine gives the thread back.
abbrev pub IsOrderly : {Y R : Type 0} → Resumed Y R → Type 0
IsOrderly (state st) = IsYielded st
IsOrderly _ = ⊥

-- The loop goes on with a state of which `P` holds.
abbrev pub Goes : {S : Type 0} → (S → Type 0) → Turned S → Type 0
Goes P (more t s) = P s
Goes P (over left t s) = ⊥

module _ {Q Y R : Type 0} (𝓠 : ReadyQueue Q (Coroutine Y R)) (𝓜 : Maps) where
  abbrev Kept : ℕ → ℕ → List (ℕ × CoroutineState Y R) → Scheduler Q 𝓜 Y R → Type 0
  Kept j n rs s' = InPlace 𝓠 𝓜 s' × (held 𝓠 𝓜 j s' ≡ n) × (s'.results ≡ rs)

  -- What follows the resumption.
  abbrev follow :
      Round Y R
      → Thread
      → Coroutine Y R
      → Resumed Y R
      → Scheduler Q 𝓜 Y R
      → Result (Turned (Scheduler Q 𝓜 Y R))
  follow x t co r s =
      and_then 𝓠 𝓜 (resume_all 𝓠 𝓜 x.woken s)
        (λ s'. and_then 𝓠 𝓜 (settle 𝓠 𝓜 r x.later co s') (λ s''. done (more t s'')))

-- ===== src/Scheduler/Schedule/Idle.antt =====
-- When a scheduling ends.
use open_coroutine.Prelude.{
  ℕ, ◌-◌, ◌≤◌, true, ◌≡◌, refl, ◌⊎◌, none, some, List, [], ◌∷◌, ◌==◌, arith, inl, inr, Option-cases,
  Bool-cases,
}
use open_coroutine.Maps.{Maps}
use open_coroutine.Coroutine.State.{Coroutine}
use open_coroutine.Coroutine.Resume.{Thread}
use open_coroutine.Scheduler.Queues.{ReadyQueue}
use open_coroutine.Scheduler.Places.{Result, done, fails, panics, Scheduler, check_ready}
use open_coroutine.Scheduler.Places.Due.{Whenever}
use open_coroutine.Scheduler.Schedule.{
  Round, Turned, more, over, and_then, execute, do_round, do_schedule,
}

-- A round that begins when the time is over.
abbrev pub AnyLate : {Y R : Type 0} → ℕ → List (Round Y R) → Type 0
AnyLate timeout_time [] = ⊥
AnyLate timeout_time (x ∷ xs) = (timeout_time ≤ x.started) ⊎ AnyLate timeout_time xs

module _ {Q Y R : Type 0} (𝓠 : ReadyQueue Q (Coroutine Y R)) (𝓜 : Maps) where
  -- Where the loop is left, the time is over or a pop from the ready queue finds nothing.
  abbrev IsIdle : Turned (Scheduler Q 𝓜 Y R) → Type 0
  IsIdle (more t s) = Unit
  IsIdle (over left t s) = (left ≡ 0) ⊎ (𝓠.pop s.ready ≡ none)

  execute-IsIdle :
      (x : Round Y R) (t : Thread) (co : Coroutine Y R) (s : Scheduler Q 𝓜 Y R)
      → Whenever IsIdle (execute 𝓠 𝓜 x t co s)
  unfolding execute
  execute-IsIdle x t co s = ground arith

  pop-IsIdle :
      (left : ℕ) (x : Round Y R) (t : Thread) (r : Result (Scheduler Q 𝓜 Y R))
      → Whenever IsIdle (
          and_then 𝓠 𝓜 r (λ s'. elim (𝓠.pop s'.ready) [
            | none ↦ done (over left t s')
            | some (co, q) ↦ execute 𝓠 𝓜 x t co (record s' { ready = q })
          ]))
  pop-IsIdle left x t (done s') = elim (Option-cases (𝓠.pop s'.ready)) [
    | inl empty ↦ rw (empty, Whenever) (inr empty)
    | inr ((co, q), popped) ↦
        rw (popped, Whenever) (execute-IsIdle x t co (record s' { ready = q }))
  ]
  pop-IsIdle left x t fails = tt
  pop-IsIdle left x t panics = tt

  do_round-IsIdle :
      (timeout_time : ℕ) (x : Round Y R) (t : Thread) (s : Scheduler Q 𝓜 Y R)
      → Whenever IsIdle (do_round 𝓠 𝓜 timeout_time x t s)
  unfolding do_round
  do_round-IsIdle timeout_time x t s =
      let popped = pop-IsIdle (timeout_time - x.started) x t (check_ready 𝓠 𝓜 x.clock x.clock' s) in
      elim (Bool-cases (timeout_time - x.started == 0)) [
        | inl late ↦ rw (late, Whenever) (inl refl)
        | inr time ↦ rw (time, Whenever) popped
      ]

  -- The loop has been left, and the time is over or a pop from the ready queue finds nothing.
  abbrev pub IsOver : Turned (Scheduler Q 𝓜 Y R) → Type 0
  IsOver (more t s) = ⊥
  IsOver (over left t s) = (left ≡ 0) ⊎ (𝓠.pop s.ready ≡ none)

  do_round-IsOver :
      (timeout_time : ℕ) (x : Round Y R) (t : Thread) (s : Scheduler Q 𝓜 Y R)
      → timeout_time ≤ x.started
      → Whenever IsOver (do_round 𝓠 𝓜 timeout_time x t s)
  unfolding do_round
  do_round-IsOver timeout_time x t s h =
      let late : (timeout_time - x.started == 0) ≡ true = ground arith in
      rw (late, Whenever) (inl refl)

  -- A scheduling returns no later than at the first round that finds the time over, where it meets no
  -- error and no panic, and when it returns, the time is over or the pop from the ready queue has
  -- found nothing.
  pub do_schedule-IsOver :
      (timeout_time : ℕ) (xs : List (Round Y R)) (t : Thread) (s : Scheduler Q 𝓜 Y R)
      → AnyLate timeout_time xs
      → Whenever IsOver (do_schedule 𝓠 𝓜 timeout_time xs t s)
  unfolding do_schedule
  do_schedule-IsOver timeout_time [] t s h = absurd h
  do_schedule-IsOver timeout_time (x ∷ xs) t s (inl h) =
      grind (arith, do_round-IsOver timeout_time x t s h)
  do_schedule-IsOver timeout_time (x ∷ xs) t s (inr h) =
      grind (arith, do_round-IsIdle timeout_time x t s, do_schedule-IsOver timeout_time xs)

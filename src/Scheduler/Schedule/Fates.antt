-- ===== src/Scheduler/Schedule/Fates.antt =====
-- What becomes of a coroutine that has been resumed.
use mathlib.Core.Path.{subst}
use open_coroutine.Prelude.{
  ℕ, ◌+◌, ◌≡◌, refl, sym, ◌∙◌, All, arith, Bool, true, false, ◌&&◌, ◌||◌, Option, none, some,
  if◌then◌else◌, Option-cases, List, [], ◌∷◌, ltb, inl, inr, Bool-cases,
}
use open_coroutine.Maps.{Maps}
use open_coroutine.Coroutine.State.{
  SyscallState, executing, timeout, callback, CoroutineState, Coroutine,
}
use open_coroutine.Coroutine.Calls.{Call, apply, run}
use open_coroutine.Coroutine.Resume.{Thread, Turn, Resumed, state, resume_with}
use open_coroutine.Scheduler.Queues.{ReadyQueue, one_if, tally, heap_push, heap_push-tally}
use open_coroutine.Scheduler.Places.{SuspendItem, Scheduler, find}
use open_coroutine.Scheduler.Places.Keeping.{
  Ends, IsWaiting, IsUntil, IsParked, IsKept, has_id, item_has_id, held, InPlace,
}
use open_coroutine.Scheduler.Schedule.{has_result, settle}

module _ {Y R : Type 0} where
  -- The states in which a coroutine gives the thread back, a syscall being suspended.
  abbrev pub IsYielded : CoroutineState Y R → Type 0
  IsYielded CoroutineState.ready = ⊥
  IsYielded CoroutineState.running = ⊥
  IsYielded (CoroutineState.syscall y n st) = IsWaiting {R = R} (CoroutineState.syscall y n st)
  IsYielded _ = Unit

  -- The scheduler keeps it.
  abbrev pub stays : CoroutineState Y R → Bool
  stays (CoroutineState.suspend y t) = true
  stays (CoroutineState.syscall y n st) = true
  stays _ = false

  -- It leaves a result.
  abbrev pub ends : CoroutineState Y R → Bool
  ends (CoroutineState.complete r) = true
  ends (CoroutineState.error m) = true
  ends _ = false

  heap_push-IsParked :
      (time : SuspendItem Y R → ℕ) (x : SuspendItem Y R) (xs : List (SuspendItem Y R))
      → IsParked x
      → All IsParked xs
      → All IsParked (heap_push time x xs)
  unfolding heap_push
  heap_push-IsParked time x [] h k = (h, tt)
  heap_push-IsParked time x (y ∷ ys) h k = ground (arith, heap_push-IsParked time x ys h k.1)

  apply-id : (c : Call Y R) (co : Coroutine Y R) → (apply c co).0.id ≡ co.id
  unfolding apply
  apply-id c co = ground arith

  run-id : (cs : List (Call Y R)) (co : Coroutine Y R) → (run cs co).id ≡ co.id
  unfolding run
  run-id [] co = refl
  run-id (c ∷ cs) co = run-id cs (apply c co).0 ∙ apply-id c co

  abbrev pub Matches : Resumed Y R → Coroutine Y R → ℕ → Type 0
  Matches (state st) co id = (co.state ≡ st) × (co.id ≡ id)
  Matches _ co id = co.id ≡ id

  -- What a resumption returns is the coroutine's state, and the coroutine keeps its id.
  pub resume_with-Matches :
      (now : ℕ) (t : Thread) (co : Coroutine Y R) (turn : Turn Y R)
      → let r = resume_with now t co turn in Matches r.2 r.1 co.id
  unfolding resume_with
  resume_with-Matches now t co turn = grind (arith, run-id turn.calls)

module _ {Q Y R : Type 0} (𝓠 : ReadyQueue Q (Coroutine Y R)) (𝓜 : Maps) where
  -- Where the scheduler holds the id: how often it is in the ready queue and in the heap of suspended
  -- ones, and what the syscall table has under it.
  abbrev pub Places : ℕ → ℕ → ℕ → Option (Coroutine Y R) → Scheduler Q 𝓜 Y R → Type 0
  Places id queued parked kept s =
      (𝓠.count (has_id id) s.ready ≡ queued)
      × (tally (item_has_id id) s.suspend ≡ parked)
      × (find 𝓠 𝓜 id s.syscall ≡ kept)

  -- The place that goes with a state, when the clock reads `later`: the syscall table, the heap of
  -- suspended ones or, if the time has come, the ready queue, and none for one that has ended.
  abbrev pub Placed : ℕ → CoroutineState Y R → Coroutine Y R → Scheduler Q 𝓜 Y R → Type 0
  Placed later (CoroutineState.syscall y n st) co s = Places co.id 0 0 (some co) s
  Placed later (CoroutineState.suspend y t) co s =
      if ltb later t then Places co.id 0 1 none s else Places co.id 1 0 none s
  Placed later _ co s = Places co.id 0 0 none s

  pub Places-held : (id : ℕ) (s : Scheduler Q 𝓜 Y R) → held 𝓠 𝓜 id s ≡ 0 → Places id 0 0 none s
  Places-held id s h = elim (Option-cases (find 𝓠 𝓜 id s.syscall)) [
    | inl e ↦ (omega (arith, h), omega (arith, h), e)
    | inr (co, e) ↦ absurd (ground (arith, e))
  ]

  -- The state after `co` has given the thread back in `st`.
  abbrev pub Settled :
      ℕ → CoroutineState Y R → Coroutine Y R → Scheduler Q 𝓜 Y R → ℕ → Scheduler Q 𝓜 Y R → Type 0
  Settled later st co s j s' =
      InPlace 𝓠 𝓜 s'
      × (held 𝓠 𝓜 j s' ≡ one_if (stays st && has_id j co) + held 𝓠 𝓜 j s)
      × (has_result j s'.results ≡ (ends st && has_id j co) || has_result j s.results)
      × Placed later st co s'

  module _ (later : ℕ) (co : Coroutine Y R) (s : Scheduler Q 𝓜 Y R) (j : ℕ) (h : InPlace 𝓠 𝓜 s)
      (free : Places co.id 0 0 none s) where
    insert-IsKept :
        (k : ℕ)
        → IsWaiting co.state
        → IsKept k (find 𝓠 𝓜 k ((𝓜.laws (Coroutine Y R)).insert co.id co s.syscall))
    insert-IsKept k w =
        ground (arith, (𝓜.laws (Coroutine Y R)).get-insert co.id k co s.syscall, h.1 k)

    settle_match-keeps :
        (st : CoroutineState Y R)
        → co.state ≡ st
        → IsYielded st
        → has_result co.id s.results ≡ false
        → Ends (Settled later st co s j) (settle 𝓠 𝓜 (state st) later co s)
    unfolding settle
    settle_match-keeps (CoroutineState.syscall y n (SyscallState.suspend t)) e w r = (
      (h.0, λ k. insert-IsKept k (subst IsWaiting (sym e) tt)),
      ground (arith, (𝓜.laws (Coroutine Y R)).get-insert co.id j co s.syscall, free.2),
      refl,
      (
        free.0,
        free.1,
        ground (arith, (𝓜.laws (Coroutine Y R)).get-insert co.id co.id co s.syscall),
      ),
    )
    settle_match-keeps (CoroutineState.suspend y t) e w r =
        let item : SuspendItem Y R = record { timestamp = t; coroutine = co } in
        let parked : IsUntil t co.state = subst (IsUntil t) (sym e) refl in
        elim (Bool-cases (ltb later t)) [
          | inl early ↦
              rw (early, Ends)
                (
                  (heap_push-IsParked (λ i. i.timestamp) item s.suspend parked h.0, h.1),
                  ground (arith, heap_push-tally (λ i. i.timestamp) (item_has_id j) item s.suspend),
                  refl,
                  rw early (
                    free.0,
                    ground (
                      arith,
                      heap_push-tally (λ i. i.timestamp) (item_has_id co.id) item s.suspend,
                      free.1,
                    ),
                    free.2,
                  ),
                )
          | inr due ↦
              rw (due, Ends)
                (
                  h,
                  ground (arith, 𝓠.count-push (has_id j) co s.ready),
                  refl,
                  rw due (
                    ground (arith, 𝓠.count-push (has_id co.id) co s.ready, free.0),
                    free.1,
                    free.2,
                  ),
                )
        ]
    settle_match-keeps CoroutineState.cancelled e w r = (h, omega arith, refl, free)
    settle_match-keeps (CoroutineState.complete v) e w r = rw (r, Ends) (h, omega arith, refl, free)
    settle_match-keeps (CoroutineState.error m) e w r = rw (r, Ends) (h, omega arith, refl, free)
    settle_match-keeps CoroutineState.ready e w r = absurd w
    settle_match-keeps CoroutineState.running e w r = absurd w
    settle_match-keeps (CoroutineState.syscall y n executing) e w r = absurd w
    settle_match-keeps (CoroutineState.syscall y n timeout) e w r = absurd w
    settle_match-keeps (CoroutineState.syscall y n callback) e w r = absurd w

  -- What becomes of a coroutine that has given the thread back in the way a body does, whose id the
  -- scheduler does not hold and which has no result yet: there is no error and no panic, the
  -- coroutine is in the place that goes with its state, once, and has a result just if it completed
  -- or failed; all others are as before.
  pub settle-keeps :
      (later : ℕ) (co : Coroutine Y R) (s : Scheduler Q 𝓜 Y R) (j : ℕ)
      → InPlace 𝓠 𝓜 s
      → held 𝓠 𝓜 co.id s ≡ 0
      → IsYielded co.state
      → has_result co.id s.results ≡ false
      → Ends (Settled later co.state co s j) (settle 𝓠 𝓜 (state co.state) later co s)
  settle-keeps later co s j h z y n =
      settle_match-keeps later co s j h (Places-held co.id s z) co.state refl y n

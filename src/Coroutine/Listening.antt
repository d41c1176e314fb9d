-- ===== src/Coroutine/Listening.antt =====
-- What the listeners of a coroutine hear.
use open_coroutine.Prelude.{ℕ, ◌≡◌, ◌∙◌, ◌⊎◌, inl, inr, List, [], ◌∷◌, ◌++◌, arith}
use open_coroutine.Coroutine.State.{
  CoroutineState, Coroutine, Callback, calls, on_state_changed, on_ready, on_running, on_suspend,
  on_syscall, on_cancel, on_complete, on_error,
}
use open_coroutine.Coroutine.Calls.{Call, apply, run}

module _ {Y R : Type 0} where
  -- The callback that goes with entering a state from `old`.
  abbrev pub on_enter : CoroutineState Y R → CoroutineState Y R → Callback Y R
  on_enter old CoroutineState.ready = on_ready old
  on_enter old CoroutineState.running = on_running old
  on_enter old (CoroutineState.suspend y t) = on_suspend old
  on_enter old (CoroutineState.syscall y n s) = on_syscall old
  on_enter old CoroutineState.cancelled = on_cancel old
  on_enter old (CoroutineState.complete r) = on_complete old r
  on_enter old (CoroutineState.error m) = on_error old m

  -- A log that tells of the changes from `s` to `u`, one after the other: each is told to every
  -- listener as a change of state, and then to every listener again by the new state's own callback.
  pub data Tells (ls : List ℕ) (s : CoroutineState Y R)
      : List (ℕ × Callback Y R) → CoroutineState Y R → Type 0 where
    nothing : Tells ls s [] s
    change :
        {log log' : List (ℕ × Callback Y R)} {t : CoroutineState Y R} (u : CoroutineState Y R)
        → Tells ls s log t
        → log' ≡ (log ++ calls ls (on_state_changed t u)) ++ calls ls (on_enter t u)
        → Tells ls s log' u

  -- What one call adds.
  abbrev Adds : Coroutine Y R → Coroutine Y R → Type 0
  Adds co co' =
      (co'.listeners ≡ co.listeners)
      × ((co' ≡ co)
          ⊎ (co'.log
              ≡ (co.log ++ calls co.listeners (on_state_changed co.state co'.state))
                ++ calls co.listeners (on_enter co.state co'.state)))

  apply-Adds : (c : Call Y R) (co : Coroutine Y R) → Adds co (apply c co).0
  unfolding apply
  apply-Adds c co = ground arith

  Adds-Tells :
      {ls : List ℕ} {s : CoroutineState Y R} {co co' : Coroutine Y R}
      → co.listeners ≡ ls
      → Adds co co'
      → Tells ls s co.log co.state
      → Tells ls s co'.log co'.state
  Adds-Tells e (_, inl same) told = rw same told
  Adds-Tells {co'} e (_, inr more) told = change co'.state told (rw (← e) more)

  -- After every sequence of calls on a coroutine whose log tells of its changes so far, the log tells
  -- of all changes from the same first state to the present one, in order, each to every listener,
  -- with the right old and new state.
  pub run-Tells :
      (cs : List (Call Y R)) (co : Coroutine Y R) (ls : List ℕ) (s : CoroutineState Y R)
      → co.listeners ≡ ls
      → Tells ls s co.log co.state
      → Tells ls s (run cs co).log (run cs co).state
  unfolding run
  run-Tells [] co ls s e told = told
  run-Tells (c ∷ cs) co ls s e told =
      let added = apply-Adds c co in
      run-Tells cs (apply c co).0 ls s (added.0 ∙ e) (Adds-Tells e added told)

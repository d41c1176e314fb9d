-- ===== src/Coroutine/Resume.antt =====
-- One resumption of a coroutine on a thread: `resume_with` (core/src/coroutine/mod.rs), `raw_resume`
-- (korosensei.rs), the thread-local slots of suspender.rs, and the stack of current coroutines of the
-- macro `impl_current_for` (core/src/common/macros.rs). What the coroutine's body does between two
-- suspensions is given: calls on its own state, what it does to the thread's slots and to its stack of
-- current coroutines, by resuming other coroutines, and the way it gives the thread back. The switch of
-- stacks is the crate corosensei's. The signal handlers that are set up on the way are left out.
use open_coroutine.Prelude.{ℕ, Bool, true, false, String, List, [], ◌∷◌, if◌then◌else◌}
use open_coroutine.Time.{get_timeout_time}
use open_coroutine.Coroutine.State.{
  CoroutineState, Coroutine, Outcome, ok, unexpected, to_running, to_suspend, to_cancel,
  to_complete, to_error,
}
use open_coroutine.Coroutine.Calls.{Call, run}

-- `TIMESTAMP`, `CANCEL` and the ids that `COROUTINE` points to; the head of a list is the front.
pub record Thread : Type 0 where
  pub timestamps : List ℕ
  pub cancels : List Bool
  pub currents : List ℕ

unfoldable pub init_current : ℕ → Thread → Thread
init_current id t = record t { currents = id ∷ t.currents }

abbrev pub tail {ℓ} : {A : Type ℓ} → List A → List A
tail [] = []
tail (x ∷ xs) = xs

abbrev pub front {ℓ} : {A : Type ℓ} → A → List A → A
front d [] = d
front d (x ∷ xs) = x

unfoldable pub clean_current : Thread → Thread
clean_current t = record t { currents = tail t.currents }

-- `Suspender::timestamp` and `Suspender::is_cancel` take the front, with a default.
unfoldable pub timestamp : Thread → ℕ × Thread
timestamp t = (front 0 t.timestamps, record t { timestamps = tail t.timestamps })

unfoldable pub is_cancel : Thread → Bool × Thread
is_cancel t = (front false t.cancels, record t { cancels = tail t.cancels })

-- How the body gives the thread back: a method of `Suspender`, a return or a panic. `cancel` yields
-- zeroed memory, given here.
pub data Exit (Y R : Type 0) : Type 0 where
  suspend_with : Y → Exit Y R
  until_with : Y → ℕ → Exit Y R
  delay_with : Y → ℕ → ℕ → Exit Y R
  cancel : Y → Exit Y R
  returns : R → Exit Y R
  panics : String → Exit Y R

pub record Turn (Y R : Type 0) : Type 0 where
  pub calls : List (Call Y R)
  pub effect : Thread → Thread
  pub exit : Exit Y R

-- `CoroutineResult`
pub data CoroutineResult (Y R : Type 0) : Type 0 where
  yield : Y → CoroutineResult Y R
  return : R → CoroutineResult Y R
  caught : String → CoroutineResult Y R

pub data Resumed (Y R : Type 0) : Type 0 where
  state : CoroutineState Y R → Resumed Y R
  refused : CoroutineState Y R → CoroutineState Y R → Resumed Y R
  unexpected_state : CoroutineState Y R → Resumed Y R

abbrev until_slot : ℕ → Thread → Thread
until_slot ts t = record t { timestamps = ts ∷ t.timestamps }

module _ {Y R : Type 0} where
  -- `delay_with arg delay` reads the clock, its last argument here.
  unfoldable pub leave : Exit Y R → Thread → Thread × CoroutineResult Y R
  unfolding get_timeout_time
  leave (suspend_with y) t = (t, yield y)
  leave (until_with y ts) t = (until_slot ts t, yield y)
  leave (delay_with y delay now) t = (until_slot (get_timeout_time delay now) t, yield y)
  leave (cancel y) t = (record t { cancels = true ∷ t.cancels }, yield y)
  leave (returns r) t = (t, return r)
  leave (panics m) t = (t, caught m)

  -- `self.…()?; Ok(s)`
  abbrev finish : Coroutine Y R × Outcome Y R → CoroutineState Y R → Coroutine Y R × Resumed Y R
  finish (co, ok) s = (co, state s)
  finish (co, unexpected a b) s = (co, refused a b)

  abbrev on_thread : Thread → Coroutine Y R × Resumed Y R → Thread × Coroutine Y R × Resumed Y R
  on_thread t (co, r) = (t, co, r)

  on_yield : CoroutineState Y R → Y → Thread → Coroutine Y R → Thread × Coroutine Y R × Resumed Y R
  unfolding is_cancel timestamp to_cancel to_suspend
  on_yield CoroutineState.running y t co =
      let (cancelling, t1) = is_cancel t in
      let (ts, t2) = timestamp t1 in
      if cancelling
      then on_thread t1 (finish (to_cancel co) CoroutineState.cancelled)
      else on_thread t2 (finish (to_suspend co y ts) (CoroutineState.suspend y ts))
  on_yield (CoroutineState.syscall z n s) y t co = (t, co, state (CoroutineState.syscall z n s))
  on_yield s y t co = (t, co, unexpected_state s)

  on_result : CoroutineResult Y R → Thread → Coroutine Y R → Thread × Coroutine Y R × Resumed Y R
  unfolding on_yield to_complete to_error
  on_result (yield y) t co = on_yield co.state y t co
  on_result (return r) t co = on_thread t (finish (to_complete co r) (CoroutineState.complete r))
  on_result (caught m) t co = on_thread t (finish (to_error co m) (CoroutineState.error m))

  unfoldable pub raw_resume :
      Thread → Coroutine Y R → Turn Y R → Thread × Coroutine Y R × Resumed Y R
  unfolding leave on_result
  raw_resume t co turn =
      let (t1, result) = leave turn.exit (turn.effect t) in on_result result t1 (run turn.calls co)

  abbrev cleaned : Thread × Coroutine Y R × Resumed Y R → Thread × Coroutine Y R × Resumed Y R
  unfolding clean_current
  cleaned (t, co, r) = (clean_current t, co, r)

  -- After `self.running()`: on an error `?` returns at once.
  resume_running :
      Thread → Coroutine Y R × Outcome Y R → Turn Y R → Thread × Coroutine Y R × Resumed Y R
  unfolding raw_resume clean_current
  resume_running t (co, ok) turn = cleaned (raw_resume t co turn)
  resume_running t (co, unexpected a b) turn = (t, co, refused a b)

  resume_match :
      CoroutineState Y R
      → ℕ
      → Thread
      → Coroutine Y R
      → Turn Y R
      → Thread × Coroutine Y R × Resumed Y R
  unfolding init_current to_running resume_running
  resume_match (CoroutineState.complete r) now t co turn =
      (t, co, state (CoroutineState.complete r))
  resume_match (CoroutineState.error m) now t co turn = (t, co, state (CoroutineState.error m))
  resume_match _ now t co turn = resume_running (init_current co.id t) (to_running co now) turn

  unfoldable pub resume_with :
      ℕ → Thread → Coroutine Y R → Turn Y R → Thread × Coroutine Y R × Resumed Y R
  unfolding resume_match
  resume_with now t co turn = resume_match co.state now t co turn

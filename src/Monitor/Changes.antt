-- ===== src/Monitor/Changes.antt =====
-- core/src/monitor.rs with core/src/coroutine/local.rs: coroutines that run on several threads and tell
-- the monitor's listener; and, by the changes alone, which of them run.
use open_coroutine.Prelude.{
  ℕ, ◌+◌, ◌≤◌, ◌≡◌, ◌≢◌, true, Option, none, some, List, [], ◌∷◌, ◌==◌, if◌then◌else◌,
}
use open_coroutine.Time.{u64_max}
use open_coroutine.Coroutine.State.{CoroutineState}
use open_coroutine.Monitor.{NotifyNode, Monitor, created, on_state_changed}

-- A coroutine changes its state, on a thread, at a time.
pub record Change (Y R : Type 0) : Type 0 where
  pub co : ℕ
  pub state : CoroutineState Y R
  pub now : ℕ
  pub pthread : ℕ

-- The monitor, and the entry NOTIFY_NODE of each coroutine's local.
pub record Watch : Type 0 where
  pub monitor : Monitor
  pub local : ℕ → Option NotifyNode

-- When a coroutine began to run, and on which thread.
pub record Run : Type 0 where
  pub since : ℕ
  pub pthread : ℕ

abbrev pub update {ℓ} : {A : Type ℓ} → (ℕ → A) → ℕ → A → ℕ → A
update f i a j = if i == j then a else f j

abbrev pub node_of : Run → NotifyNode
node_of r = record { timestamp = r.since + 10_000_000; pthread = r.pthread }

module _ {Y R : Type 0} where
  unfoldable pub tell : Change Y R → Watch → Watch
  unfolding on_state_changed
  tell e s =
      let (m, l) = on_state_changed true e.now e.pthread e.state s.monitor (s.local e.co) in
      record { monitor = m; local = update s.local e.co l }

  unfoldable pub tell_all : List (Change Y R) → Watch → Watch
  unfolding tell
  tell_all [] s = s
  tell_all (e ∷ es) s = tell_all es (tell e s)

  abbrev pub run_of : Change Y R → Run
  run_of e = record { since = e.now; pthread = e.pthread }

  -- The coroutines that run, from the changes alone.
  abbrev pub run_after : CoroutineState Y R → Run → Option Run
  run_after CoroutineState.running r = some r
  run_after _ r = none

  unfoldable pub runs : Change Y R → (ℕ → Option Run) → ℕ → Option Run
  runs e f = update f e.co (run_after e.state (run_of e))

  unfoldable pub runs_all : List (Change Y R) → (ℕ → Option Run) → ℕ → Option Run
  unfolding runs
  runs_all [] f = f
  runs_all (e ∷ es) f = runs_all es (runs e f)

  -- What a change to Running, to Ready and to another state meets: a coroutine that begins to run does
  -- so on a thread on which no other runs, and not in the very ns in which one began to run there
  -- before; one that gets ready does not run.
  abbrev pub LegalTo : CoroutineState Y R → Change Y R → Watch → (ℕ → Option Run) → Type 0
  LegalTo CoroutineState.running e s f =
      (f e.co ≡ none)
      × ((co : ℕ) (r : Run) → f co ≡ some r → r.pthread ≢ e.pthread)
      × ((co : ℕ) → s.local co ≢ some (node_of (run_of e)))
      × (e.now + 10_000_000 ≤ u64_max)
  LegalTo CoroutineState.ready e s f = f e.co ≡ none
  LegalTo _ e s f = Unit

  abbrev pub IsLegal : Change Y R → Watch → (ℕ → Option Run) → Type 0
  IsLegal e s f = LegalTo e.state e s f

  abbrev pub AllLegal : List (Change Y R) → Watch → (ℕ → Option Run) → Type 0
  AllLegal [] s f = Unit
  AllLegal (e ∷ es) s f = IsLegal e s f × AllLegal es (tell e s) (runs e f)

abbrev pub at_first : Watch
at_first = record { monitor = record { notify_queue = []; state = created }; local = λ co. none }

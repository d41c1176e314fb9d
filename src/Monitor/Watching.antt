-- ===== src/Monitor/Watching.antt =====
-- core/src/monitor.rs: the threads that the monitor preempts, and when its thread ends.
use open_coroutine.Prelude.{
  ℕ, ◌+◌, ◌≤◌, ◌≡◌, ◌↔◌, true, none, some, List, [], ◌∷◌, arith, ap, ◌∙◌, refl, Option-cases, inl,
  inr,
}
use open_coroutine.Monitor.{NotifyNode, Monitor, sweep, stop, Turn, ends, monitor_turn, stopping}
use open_coroutine.Monitor.Nodes.{
  signalled, sweep-due, sweep-only_due, nil_of_none_contained, not-contains_of_nil,
}
use open_coroutine.Monitor.Changes.{Change, Run, node_of, tell_all, runs_all, AllLegal, at_first}
use open_coroutine.Monitor.Tracking.{at_first-Tracks, tell_all-Tracks}

abbrev pub IsOver : Turn → Type 0
IsOver (ends m) = Unit
IsOver _ = ⊥

stopping-IsOver :
    (m : Monitor) (clock : ℕ → ℕ) → IsOver (monitor_turn clock (stop m)) ↔ (m.notify_queue ≡ [])
unfolding monitor_turn stop
stopping-IsOver m clock = (stopped_empty m.notify_queue, empty_stops m.notify_queue)
  where
    stopped_empty :
        (q : List NotifyNode)
        → IsOver (monitor_turn clock (record { notify_queue = q; state = stopping }))
        → q ≡ []
    stopped_empty [] h = refl
    stopped_empty (n ∷ q) h = absurd h

    empty_stops :
        (q : List NotifyNode)
        → q ≡ []
        → IsOver (monitor_turn clock (record { notify_queue = q; state = stopping }))
    empty_stops [] e = tt
    empty_stops (n ∷ q) e = cc

module _ {Y R : Type 0} where
  -- After changes of state of any coroutines on any threads, each of them as `IsLegal` says, a round of
  -- the monitor sends SIGURG to the thread of each coroutine that had run for 10 ms at the round's
  -- earliest reading of the clock.
  pub sweep-reaches :
      (es : List (Change Y R)) (clock : ℕ → ℕ) (earliest co : ℕ) (r : Run)
      → AllLegal es at_first (λ c. none)
      → ((i : ℕ) → earliest ≤ clock i)
      → runs_all es (λ c. none) co ≡ some r
      → r.since + 10_000_000 ≤ earliest
      → signalled r.pthread (sweep clock 0 (tell_all es at_first).monitor.notify_queue) ≡ true
  sweep-reaches es clock earliest co r legal low h due =
      let t = tell_all-Tracks es at_first (λ c. none) at_first-Tracks legal in
      sweep-due clock earliest low 0 _ (node_of r) (t.kept co r h) due

  -- After changes of state of any coroutines on any threads, each of them as `IsLegal` says, each
  -- thread that a round of the monitor sends SIGURG has a coroutine that had run for 10 ms at the
  -- round's latest reading of the clock: a thread is spared whose coroutine began later, entered a
  -- syscall or ended.
  pub sweep-spares :
      (es : List (Change Y R)) (clock : ℕ → ℕ) (latest u : ℕ)
      → AllLegal es at_first (λ c. none)
      → ((i : ℕ) → clock i ≤ latest)
      → signalled u (sweep clock 0 (tell_all es at_first).monitor.notify_queue) ≡ true
      → (co : ℕ) × (r : Run) × (runs_all es (λ c. none) co ≡ some r)
        × (r.pthread ≡ u)
        × (r.since + 10_000_000 ≤ latest)
  sweep-spares es clock latest u legal high h =
      let t = tell_all-Tracks es at_first (λ c. none) at_first-Tracks legal in
      let (n, c, d, e) = sweep-only_due clock latest high 0 _ u h in
      let (co, r, a, b) = t.only n c in
      (
        co,
        r,
        a,
        ap (λ (k : NotifyNode). k.pthread) b ∙ e,
        omega (arith, ap (λ (k : NotifyNode). k.timestamp) b),
      )

  -- After such changes of state and the stop of the monitor, its thread finds at the test of its loop
  -- that it ends just if no coroutine runs.
  pub monitor_turn-stop :
      (es : List (Change Y R)) (clock : ℕ → ℕ)
      → AllLegal es at_first (λ co. none)
      → IsOver (monitor_turn clock (stop (tell_all es at_first).monitor))
        ↔ ((co : ℕ) → runs_all es (λ c. none) co ≡ none)
  monitor_turn-stop es clock legal =
      let t = tell_all-Tracks es at_first (λ c. none) at_first-Tracks legal in
      let over = stopping-IsOver (tell_all es at_first).monitor clock in
      (
        (λ h co. elim (Option-cases (runs_all es (λ c. none) co)) [
          | inl idle ↦ idle
          | inr (r, busy) ↦ absurd (not-contains_of_nil (node_of r) _ (over.0 h) (t.kept co r busy))
        ]),
        (λ idle. over.1 (
            nil_of_none_contained _
              (λ n c. let (co, r, busy, e) = t.only n c in absurd (cc (idle co, busy))))),
      )

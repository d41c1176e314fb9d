-- ===== src/Net/Tokens.antt =====
-- core/src/net/event_loop.rs: COROUTINE_TOKENS, the set of coroutines that wait for an event, and the
-- loop over the events of a `select`, with the selectors' tables, which all event loops share, and the
-- scheduler of one event loop. An event carries the token as the poller was given it, folded.
pub mod Dispatch
use open_coroutine.Prelude.{ℕ, Bool, Option, none, some, List, [], ◌∷◌, ◌||◌, if◌then◌else◌}
use open_coroutine.Maps.{Maps}
use open_coroutine.Coroutine.State.{Coroutine}
use open_coroutine.Selector.Records.{
  Event, Request, Tables, is_some, add_read_event, add_write_event, on_events,
}
use open_coroutine.Scheduler.Queues.{ReadyQueue}
use open_coroutine.Scheduler.Places.{Result, done, fails, panics, Scheduler, try_resume}

module _ {Q Y R : Type 0} (𝓠 : ReadyQueue Q (Coroutine Y R)) (𝓜 : Maps) where
  pub record Net : Type 0 where
    pub tables : Tables 𝓜
    pub tokens : 𝓜.Map (Unit {0})
    pub scheduler : Scheduler Q 𝓜 Y R

  abbrev pub has_token : ℕ → 𝓜.Map (Unit {0}) → Bool
  has_token id m = is_some ((𝓜.laws (Unit {0})).get id m)

  -- `EventLoop::token` of a coroutine, which registers it.
  unfoldable pub token : ℕ → Net → ℕ × Net
  token co_id n = (co_id, record n { tokens = (𝓜.laws (Unit {0})).insert co_id tt n.tokens })

  -- The first half of `EventLoops::wait_read_event` and `wait_write_event`, by a coroutine
  -- of the event loop `i`.
  unfoldable pub listen_read : ℕ → (Request → Bool) → ℕ → ℕ → Net → Net × Bool
  unfolding token add_read_event
  listen_read i ok fd co_id n =
      let (t, n') = token co_id n in
      let (tables, accepted) = add_read_event 𝓜 i ok n'.tables fd t in
      (record n' { tables = tables }, accepted)

  unfoldable pub listen_write : ℕ → (Request → Bool) → ℕ → ℕ → Net → Net × Bool
  unfolding token add_write_event
  listen_write i ok fd co_id n =
      let (t, n') = token co_id n in
      let (tables, accepted) = add_write_event 𝓜 i ok n'.tables fd t in
      (record n' { tables = tables }, accepted)

  -- `EventLoop::resume`
  unfoldable pub resume :
      ℕ → 𝓜.Map (Unit {0}) → Scheduler Q 𝓜 Y R → Result (𝓜.Map (Unit {0}) × Scheduler Q 𝓜 Y R)
  resume t m s =
      let resumed =
        elim (try_resume 𝓠 𝓜 t s) as (λ r. Result (𝓜.Map (Unit {0}) × Scheduler Q 𝓜 Y R)) [
          | done s' ↦ done ((𝓜.laws (Unit {0})).remove t m, s')
          | fails ↦ fails
          | panics ↦ panics
        ] in
      if has_token t m then resumed else done (m, s)

  -- The loop over the events at the end of `wait_just`.
  unfoldable pub dispatch :
      List Event
      → 𝓜.Map (Unit {0})
      → Scheduler Q 𝓜 Y R
      → Result (𝓜.Map (Unit {0}) × Scheduler Q 𝓜 Y R)
  dispatch [] m s = done (m, s)
  dispatch (e ∷ es) m s =
      let skipped = dispatch es m s in
      let next = elim (resume e.token m s) as (λ r. Result (𝓜.Map (Unit {0}) × Scheduler Q 𝓜 Y R)) [
        | done (m', s') ↦ dispatch es m' s'
        | fails ↦ fails
        | panics ↦ panics
      ] in
      if e.is_readable || e.is_writable then next else skipped

  -- `select`'s loop, then that of `wait_just`.
  unfoldable pub deliver : List Event → Net → Result Net
  unfolding dispatch on_events
  deliver es n = elim (dispatch es n.tokens n.scheduler) [
    | done (m, s) ↦ done (record n { tables = on_events 𝓜 n.tables es; tokens = m; scheduler = s })
    | fails ↦ fails
    | panics ↦ panics
  ]

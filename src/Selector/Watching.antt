-- ===== src/Selector/Watching.antt =====
-- The tables of the selectors of several event loops, beside what their pollers have been told.
use open_coroutine.Prelude.{ℕ, Bool, true, false, ◌≡◌, List, [], ◌∷◌, arith, inl, inr, Bool-cases}
use open_coroutine.Maps.{Maps}
use open_coroutine.Selector.Records.{
  Request, Tables, Event, contains, add_read_event, add_write_event, del_event, del_read_event,
  del_write_event, on_event, on_events,
}
use open_coroutine.Selector.Agreement.{
  Op, add_read, add_write, del, del_read, del_write, events, reads, writes, IsWatched, step, run,
}

module _ (𝓜 : Maps) where
  abbrev U : Type 0
  U = Unit {0}

  -- What a call of the selector of the event loop `i` keeps and adds.
  abbrev Keeps : ℕ → Tables 𝓜 → Tables 𝓜 → ℕ → Type 0
  Keeps i s s' j =
      ((k : ℕ)
        → contains 𝓜 s.readable j ≡ true
        → reads (s.watched k j) ≡ true
        → contains 𝓜 s'.readable j ≡ true
        → reads (s'.watched k j) ≡ true)
      × (contains 𝓜 s.readable j ≡ false
          → contains 𝓜 s'.readable j ≡ true
          → reads (s'.watched i j) ≡ true)
      × ((k : ℕ)
          → contains 𝓜 s.writable j ≡ true
          → writes (s.watched k j) ≡ true
          → contains 𝓜 s'.writable j ≡ true
          → writes (s'.watched k j) ≡ true)
      × (contains 𝓜 s.writable j ≡ false
          → contains 𝓜 s'.writable j ≡ true
          → writes (s'.watched i j) ≡ true)

  module _ (i : ℕ) (ok : Request → Bool) (s : Tables 𝓜) (fd j : ℕ) where
    add_read-Keeps : (token : ℕ) → Keeps i s (add_read_event 𝓜 i ok s fd token).0 j
    unfolding add_read_event
    add_read-Keeps token =
        let law = (𝓜.laws U).get-insert fd j tt s.readable in
        (
          λ k c e r. ground (arith, law),
          λ c r. ground (arith, law),
          λ k c e r. ground (arith, law),
          λ c r. ground (arith, law),
        )

    add_write-Keeps : (token : ℕ) → Keeps i s (add_write_event 𝓜 i ok s fd token).0 j
    unfolding add_write_event
    add_write-Keeps token =
        let law = (𝓜.laws U).get-insert fd j tt s.writable in
        (
          λ k c e r. ground (arith, law),
          λ c r. ground (arith, law),
          λ k c e r. ground (arith, law),
          λ c r. ground (arith, law),
        )

    del-Keeps : Keeps i s (del_event 𝓜 i ok s fd).0 j
    unfolding del_event
    del-Keeps =
        let gone = (𝓜.laws U).get-remove fd j s.readable in
        let gone' = (𝓜.laws U).get-remove fd j s.writable in
        (
          λ k c e r. ground (arith, gone, gone'),
          λ c r. ground (arith, gone, gone'),
          λ k c e r. ground (arith, gone, gone'),
          λ c r. ground (arith, gone, gone'),
        )

    del_read-Keeps : Keeps i s (del_read_event 𝓜 i ok s fd).0 j
    unfolding del_read_event
    del_read-Keeps =
        let gone = (𝓜.laws U).get-remove fd j s.readable in
        let gone' = (𝓜.laws U).get-remove fd j s.writable in
        (
          λ k c e r. ground (arith, gone, gone'),
          λ c r. ground (arith, gone, gone'),
          λ k c e r. ground (arith, gone, gone'),
          λ c r. ground (arith, gone, gone'),
        )

    del_write-Keeps : Keeps i s (del_write_event 𝓜 i ok s fd).0 j
    unfolding del_write_event
    del_write-Keeps =
        let gone = (𝓜.laws U).get-remove fd j s.readable in
        let gone' = (𝓜.laws U).get-remove fd j s.writable in
        (
          λ k c e r. ground (arith, gone, gone'),
          λ c r. ground (arith, gone, gone'),
          λ k c e r. ground (arith, gone, gone'),
          λ c r. ground (arith, gone, gone'),
        )

  Keeps-IsWatched :
      (i : ℕ) (s s' : Tables 𝓜) (j : ℕ) → Keeps i s s' j → IsWatched 𝓜 s j → IsWatched 𝓜 s' j
  Keeps-IsWatched i s s' j (old_read, new_read, old_write, new_write) (hr, hw) = (
    λ r. elim (Bool-cases (contains 𝓜 s.readable j)) [
      | inl c ↦ let (k, e) = hr c in (k, old_read k c e r)
      | inr c ↦ (i, new_read c r)
    ],
    λ w. elim (Bool-cases (contains 𝓜 s.writable j)) [
      | inl c ↦ let (k, e) = hw c in (k, old_write k c e w)
      | inr c ↦ (i, new_write c w)
    ],
  )

  on_events-IsWatched :
      (es : List Event) (s : Tables 𝓜) (j : ℕ) → IsWatched 𝓜 s j → IsWatched 𝓜 (on_events 𝓜 s es) j
  unfolding on_events
  on_events-IsWatched [] s j h = h
  on_events-IsWatched (e ∷ es) s j h = on_events-IsWatched es (on_event 𝓜 s e) j h

  step-IsWatched :
      (i : ℕ) (ok : Request → Bool) (s : Tables 𝓜) (op : Op) (j : ℕ)
      → IsWatched 𝓜 s j
      → IsWatched 𝓜 (step 𝓜 i ok s op) j
  unfolding step
  step-IsWatched i ok s (add_read fd token) j h =
      Keeps-IsWatched i s (add_read_event 𝓜 i ok s fd token).0 j (add_read-Keeps i ok s fd j token)
        h
  step-IsWatched i ok s (add_write fd token) j h =
      Keeps-IsWatched i s (add_write_event 𝓜 i ok s fd token).0 j
        (add_write-Keeps i ok s fd j token) h
  step-IsWatched i ok s (del fd) j h =
      Keeps-IsWatched i s (del_event 𝓜 i ok s fd).0 j (del-Keeps i ok s fd j) h
  step-IsWatched i ok s (del_read fd) j h =
      Keeps-IsWatched i s (del_read_event 𝓜 i ok s fd).0 j (del_read-Keeps i ok s fd j) h
  step-IsWatched i ok s (del_write fd) j h =
      Keeps-IsWatched i s (del_write_event 𝓜 i ok s fd).0 j (del_write-Keeps i ok s fd j) h
  step-IsWatched i ok s (events es) j h = on_events-IsWatched es s j h

  -- Whatever the pollers of the event loops answer to each call, every sequence of the methods of their
  -- selectors, which share the tables, keeps this: a descriptor in the table of readable ones is watched
  -- for reading by the poller of some event loop, and one in that of writable ones for writing.
  pub run-IsWatched :
      (ops : List (ℕ × (Request → Bool) × Op)) (s : Tables 𝓜) (fd : ℕ)
      → IsWatched 𝓜 s fd
      → IsWatched 𝓜 (run 𝓜 s ops) fd
  unfolding run
  run-IsWatched [] s fd h = h
  run-IsWatched ((i, ok, op) ∷ ops) s fd h =
      run-IsWatched ops (step 𝓜 i ok s op) fd (step-IsWatched i ok s op fd h)

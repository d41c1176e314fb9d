-- ===== src/Selector/Agreement.antt =====
-- The tables of the selector beside what the poller has been told.
use open_coroutine.Prelude.{ℕ, Bool, true, false, ◌≡◌, Option, none, some, List, [], ◌∷◌, arith}
use open_coroutine.Maps.{Maps}
use open_coroutine.Selector.Records.{
  Interest, read, write, read_and_write, Request, Tables, Event, contains, add_read_event,
  add_write_event, del_event, del_read_event, del_write_event, on_event, on_events,
}

abbrev pub reads : Option (Interest × ℕ) → Bool
reads none = false
reads (some (read, t)) = true
reads (some (write, t)) = false
reads (some (read_and_write, t)) = true

abbrev pub writes : Option (Interest × ℕ) → Bool
writes none = false
writes (some (read, t)) = false
writes (some (write, t)) = true
writes (some (read_and_write, t)) = true

-- A method of the selector, with its arguments.
pub data Op : Type 0 where
  add_read add_write : ℕ → ℕ → Op
  del del_read del_write : ℕ → Op
  events : List Event → Op

module _ (𝓜 : Maps) where
  -- A descriptor is in the table of readable ones just if the poller `i` watches it for reading, and in
  -- that of writable ones just if it watches it for writing.
  abbrev pub Agrees : ℕ → Tables 𝓜 → ℕ → Type 0
  Agrees i s fd =
      (contains 𝓜 s.readable fd ≡ reads (s.watched i fd))
      × (contains 𝓜 s.writable fd ≡ writes (s.watched i fd))

  abbrev pub AllAgree : ℕ → Tables 𝓜 → Type 0
  AllAgree i s = (fd : ℕ) → Agrees i s fd

  -- A descriptor in the table of readable ones is watched for reading by some poller, and one in that of
  -- writable ones for writing.
  abbrev pub IsWatched : Tables 𝓜 → ℕ → Type 0
  IsWatched s fd =
      (contains 𝓜 s.readable fd ≡ true → (k : ℕ) × (reads (s.watched k fd) ≡ true))
      × (contains 𝓜 s.writable fd ≡ true → (k : ℕ) × (writes (s.watched k fd) ≡ true))

  -- A method of the selector of the event loop `i`.
  unfoldable pub step : ℕ → (Request → Bool) → Tables 𝓜 → Op → Tables 𝓜
  step i ok s (add_read fd token) = (add_read_event 𝓜 i ok s fd token).0
  step i ok s (add_write fd token) = (add_write_event 𝓜 i ok s fd token).0
  step i ok s (del fd) = (del_event 𝓜 i ok s fd).0
  step i ok s (del_read fd) = (del_read_event 𝓜 i ok s fd).0
  step i ok s (del_write fd) = (del_write_event 𝓜 i ok s fd).0
  step i ok s (events es) = on_events 𝓜 s es

  -- Calls of the selectors of several event loops.
  unfoldable pub run : Tables 𝓜 → List (ℕ × (Request → Bool) × Op) → Tables 𝓜
  unfolding step
  run s [] = s
  run s ((i, ok, op) ∷ ops) = run (step i ok s op) ops

  -- Those of one event loop.
  unfoldable pub run_one : ℕ → Tables 𝓜 → List ((Request → Bool) × Op) → Tables 𝓜
  unfolding step
  run_one i s [] = s
  run_one i s ((ok, op) ∷ ops) = run_one i (step i ok s op) ops

  abbrev U : Type 0
  U = Unit {0}

  module _ (i : ℕ) (ok : Request → Bool) (s : Tables 𝓜) (fd j : ℕ) where
    add_read-Agrees :
        (token : ℕ) → Agrees i s fd → Agrees i s j → Agrees i (add_read_event 𝓜 i ok s fd token).0 j
    unfolding add_read_event
    add_read-Agrees token h k = ground (arith, (𝓜.laws U).get-insert fd j tt s.readable)

    add_write-Agrees :
        (token : ℕ)
        → Agrees i s fd
        → Agrees i s j
        → Agrees i (add_write_event 𝓜 i ok s fd token).0 j
    unfolding add_write_event
    add_write-Agrees token h k = ground (arith, (𝓜.laws U).get-insert fd j tt s.writable)

    del-Agrees : Agrees i s fd → Agrees i s j → Agrees i (del_event 𝓜 i ok s fd).0 j
    unfolding del_event
    del-Agrees h k =
        ground (arith, (𝓜.laws U).get-remove fd j s.readable, (𝓜.laws U).get-remove fd j s.writable)

    del_read-Agrees : Agrees i s fd → Agrees i s j → Agrees i (del_read_event 𝓜 i ok s fd).0 j
    unfolding del_read_event
    del_read-Agrees h k =
        ground (arith, (𝓜.laws U).get-remove fd j s.readable, (𝓜.laws U).get-remove fd j s.writable)

    del_write-Agrees : Agrees i s fd → Agrees i s j → Agrees i (del_write_event 𝓜 i ok s fd).0 j
    unfolding del_write_event
    del_write-Agrees h k =
        ground (arith, (𝓜.laws U).get-remove fd j s.readable, (𝓜.laws U).get-remove fd j s.writable)

  on_events-Agrees :
      (i : ℕ) (es : List Event) (s : Tables 𝓜) (j : ℕ)
      → Agrees i s j
      → Agrees i (on_events 𝓜 s es) j
  unfolding on_events
  on_events-Agrees i [] s j h = h
  on_events-Agrees i (e ∷ es) s j h = on_events-Agrees i es (on_event 𝓜 s e) j h

  step-Agrees :
      (i : ℕ) (ok : Request → Bool) (s : Tables 𝓜) (op : Op)
      → AllAgree i s
      → AllAgree i (step i ok s op)
  unfolding step
  step-Agrees i ok s (add_read fd token) h j = add_read-Agrees i ok s fd j token (h fd) (h j)
  step-Agrees i ok s (add_write fd token) h j = add_write-Agrees i ok s fd j token (h fd) (h j)
  step-Agrees i ok s (del fd) h j = del-Agrees i ok s fd j (h fd) (h j)
  step-Agrees i ok s (del_read fd) h j = del_read-Agrees i ok s fd j (h fd) (h j)
  step-Agrees i ok s (del_write fd) h j = del_write-Agrees i ok s fd j (h fd) (h j)
  step-Agrees i ok s (events es) h j = on_events-Agrees i es s j (h j)

  -- In a process where one event loop's selector is used alone, whatever its poller answers to each
  -- call: every sequence of the selector's methods keeps, for all descriptors, the tables of readable
  -- and writable ones in agreement with what that poller watches.
  pub run_one-Agrees :
      (i : ℕ) (ops : List ((Request → Bool) × Op)) (s : Tables 𝓜) (h : AllAgree i s) (fd : ℕ)
      → Agrees i (run_one i s ops) fd
  unfolding run_one
  run_one-Agrees i [] s h fd = h fd
  run_one-Agrees i ((ok, op) ∷ ops) s h fd =
      run_one-Agrees i ops (step i ok s op) (step-Agrees i ok s op h) fd

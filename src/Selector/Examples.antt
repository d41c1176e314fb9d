-- ===== src/Selector/Examples.antt =====
-- Runs of the selector over maps as functions, and the theorems at concrete inputs.
use open_coroutine.Prelude.{ℕ, arith, Bool, true, false, refl, none, List, [], ◌∷◌}
use open_coroutine.Maps.{fun_maps}
use open_coroutine.Selector.Records.{Request, Tables, Event}
use open_coroutine.Selector.Agreement.{
  Op, add_read, add_write, del_read, events, Agrees, IsWatched, run, run_one, run_one-Agrees,
}
use open_coroutine.Selector.Watching.{run-IsWatched}

abbrev empty : Tables fun_maps
empty = record {
  token_fd = λ k. none;
  readable = λ k. none;
  readable_token = λ k. none;
  writable = λ k. none;
  writable_token = λ k. none;
  watched = λ i fd. none;
}

abbrev accepts : Request → Bool
accepts q = true

abbrev ready : List Event
ready = record { token = 11; is_readable = true; is_writable = false } ∷ []

abbrev history : List ((Request → Bool) × Op)
history =
    (accepts, add_read 5 11)
    ∷ (accepts, events ready)
    ∷ (accepts, add_write 5 12)
    ∷ (accepts, del_read 5)
    ∷ []

run_one-Agrees_example : Agrees fun_maps 0 (run_one fun_maps 0 empty history) 5
run_one-Agrees_example = run_one-Agrees fun_maps 0 history empty (λ fd. (refl, refl)) 5

-- One event loop reads a descriptor that another one writes, and deletes what it reads.
abbrev two_loops : List (ℕ × (Request → Bool) × Op)
two_loops =
    (0, accepts, add_read 5 11) ∷ (1, accepts, add_write 5 12) ∷ (0, accepts, del_read 5) ∷ []

run-IsWatched_example : IsWatched fun_maps (run fun_maps empty two_loops) 5
run-IsWatched_example =
    run-IsWatched fun_maps two_loops empty 5
      ((λ r. absurd (ground arith)), (λ w. absurd (ground arith)))

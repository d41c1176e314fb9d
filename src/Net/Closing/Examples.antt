-- ===== src/Net/Closing/Examples.antt =====
-- core/src/syscall/unix/close.rs and shutdown.rs: runs, and the theorems at two event loops.
use open_coroutine.Prelude.{ℕ, zero, suc, Bool, true, false, ◌≡◌, refl, arith, none, some}
use open_coroutine.Maps.{fun_maps}
use open_coroutine.Syscall.Polling.{pos, negsuc}
use open_coroutine.Selector.Records.{Request, Tables, contains, add_read_event}
use open_coroutine.Net.Closing.{nio_close, nio_shutdown}
use open_coroutine.Net.Closing.Forgets.{Forgets, nio_close-Forgets, nio_close-unheard}

abbrev empty : Tables fun_maps
empty = record {
  token_fd = λ k. none;
  readable = λ k. none;
  readable_token = λ k. none;
  writable = λ k. none;
  writable_token = λ k. none;
  watched = λ i fd. none;
}

abbrev accepts : ℕ → Request → Bool
accepts i q = true

-- The second event loop's poller alone knows the descriptor.
abbrev strict : ℕ → Request → Bool
strict zero q = false
strict (suc i) q = true

-- Descriptor 5 is read by a coroutine of the first event loop; of the second one.
abbrev first : Tables fun_maps
first = (add_read_event fun_maps 0 (accepts 0) empty 5 11).0

abbrev second : Tables fun_maps
second = (add_read_event fun_maps 1 (accepts 1) empty 5 12).0

shutdown_of_unknown :
    (nio_shutdown fun_maps accepts 5 (pos 3) none 2 first ≡ none)
    × (nio_shutdown fun_maps accepts 5 (negsuc 0) none 2 first ≡ none)
unfolding nio_shutdown
shutdown_of_unknown = (refl, refl)

nio_close-Forgets_example :
    Forgets fun_maps 5 0 first (nio_close fun_maps accepts 5 none 2 first)
    × (nio_shutdown fun_maps accepts 5 (pos 2) none 2 first
        ≡ some (nio_close fun_maps accepts 5 none 2 first))
nio_close-Forgets_example = nio_close-Forgets fun_maps 5 accepts none 2 first (omega arith) refl

nio_close-unheard_example :
    let s' = nio_close fun_maps strict 5 none 2 second in
    (s'.watched ≡ second.watched)
    × (contains fun_maps s'.readable 5 ≡ true)
    × (add_read_event fun_maps 1 (accepts 1) s' 5 21 ≡ (s', true))
unfolding add_read_event
nio_close-unheard_example =
    nio_close-unheard fun_maps 5 strict none 2 second (accepts 1) 1 21 (omega arith) refl refl

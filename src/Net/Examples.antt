-- ===== src/Net/Examples.antt =====
-- Event loops that take turns, the delivery of events, and the theorems at concrete inputs.
use open_coroutine.Prelude.{ℕ, ◌≡◌, Bool, true, false, none, some, List, [], ◌∷◌, ◌++◌, arith, refl}
use open_coroutine.Maps.{fun_maps, fun_insert}
use open_coroutine.Coroutine.State.{read as read_call, SyscallState, CoroutineState, Coroutine}
use open_coroutine.Selector.Records.{Event, Request, read, fold_token}
use open_coroutine.Scheduler.Queues.{list_queue}
use open_coroutine.Scheduler.Places.{Scheduler, find}
use open_coroutine.Scheduler.Places.Keeping.{Ends, InPlace}
use open_coroutine.Net.Loops.{turns}
use open_coroutine.Net.Loops.Turns.{turns-append}
use open_coroutine.Net.Tokens.{Net, has_token, listen_read, deliver}
use open_coroutine.Net.Tokens.Dispatch.{Delivered, deliver-Fate, deliver-listen_read}

-- Loops 5, 6 and 7, from the second on.
abbrev behind : List ℕ
behind = 5 ∷ []

abbrev ahead : List ℕ
ahead = 6 ∷ 7 ∷ []

turns-append_example :
    turns 3 (record { index = 4; loops = behind ++ ahead }) ≡ some 6 ∷ some 7 ∷ some 5 ∷ []
turns-append_example = turns-append behind ahead 4 refl (omega arith)

-- Coroutine 7 waits in a syscall.
abbrev waiting : Coroutine ℕ ℕ
waiting = record {
  id = 7;
  state = CoroutineState.syscall 0 read_call (SyscallState.suspend 30);
  listeners = [];
  log = [];
}

abbrev scheduler : Scheduler (List (Coroutine ℕ ℕ)) fun_maps ℕ ℕ
scheduler = record {
  ready = [];
  suspend = [];
  syscall = fun_insert 7 waiting (λ k. none);
  syscall_suspend = [];
  results = [];
  cancels = λ k. none;
  listeners = [];
}

scheduler-InPlace : InPlace list_queue fun_maps scheduler
scheduler-InPlace = (tt, λ k. ground arith)

abbrev net : Net {Y = ℕ} {R = ℕ} list_queue fun_maps
net = record {
  tables = record {
    token_fd = λ k. none;
    readable = λ k. none;
    readable_token = λ k. none;
    writable = λ k. none;
    writable_token = λ k. none;
    watched = λ i fd. none;
  };
  tokens = fun_insert 7 tt (λ k. none);
  scheduler = scheduler;
}

-- One for another token, and one for coroutine 7.
abbrev events : List Event
events =
    record { token = 9; is_readable = true; is_writable = false }
    ∷ record { token = 7; is_readable = true; is_writable = false }
    ∷ []

deliver-Fate_example :
    Ends (Delivered list_queue fun_maps 7 events net) (deliver list_queue fun_maps events net)
deliver-Fate_example = deliver-Fate list_queue fun_maps events 7 net scheduler-InPlace

abbrev obliging : Request → Bool
obliging q = true

abbrev for_seven : List Event
for_seven = record { token = 7; is_readable = true; is_writable = false } ∷ []

-- Folding leaves 7 as it is.
deliver-listen_read_example :
    ((listen_read list_queue fun_maps 0 obliging 3 7 net).0.tables.watched 0 3 ≡ some (read, 7))
    × Ends
        (λ n'.
          (find list_queue fun_maps 7 n'.scheduler.syscall ≡ none)
          × (has_token {Y = ℕ} {R = ℕ} list_queue fun_maps 7 n'.tokens ≡ false))
        (deliver list_queue fun_maps for_seven
          (record (listen_read list_queue fun_maps 0 obliging 3 7 net).0 { scheduler = scheduler }))
unfolding fold_token
deliver-listen_read_example =
    deliver-listen_read list_queue fun_maps obliging 0 3 7 net scheduler for_seven refl refl refl
      scheduler-InPlace (refl, tt) refl

-- It makes 6 of 2^32 + 7, and the event is for no registered token.
folded : fold_token 4294967303 ≡ 6
unfolding fold_token
folded = refl

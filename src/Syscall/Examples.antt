-- ===== src/Syscall/Examples.antt =====
-- Runs of the hooked calls, and the theorems at concrete inputs.
use open_coroutine.Prelude.{
  sum, ◌+◌, ◌-◌, ℕ, ◌≡◌, refl, Bool, true, false, List, [], ◌∷◌, none, some, inl, inr, replicate,
  arith,
}
use open_coroutine.Coroutine.State.{CoroutineState, Coroutine, recv}
use open_coroutine.Syscall.Facade.{Wait, by_timeout, by_callback, facade}
use open_coroutine.Syscall.Facade.Balance.{Ends, facade-running}
use open_coroutine.Syscall.Polling.{pos, nio_poll, Sets, Selected, nio_select}
use open_coroutine.Syscall.Polling.Waits.{Fills, nio_poll-Fills, idle, nio_select-thousandfold}
use open_coroutine.Syscall.World.{
  known, Iovec, Round, World, Reply, moves, fails, minus_one, bytes, returned, Gives,
}
use open_coroutine.Syscall.Buffers.{nio_read, nio_read_buf, nio_write_buf}
use open_coroutine.Syscall.Buffers.Accounts.{Accounts, hooked_buffers-Accounts}
use open_coroutine.Syscall.Buffers.Deadline.{IsReturned, hooked_buffers-ends}
use open_coroutine.Syscall.Vectors.{nio_read_iovec, nio_write_iovec}
use open_coroutine.Syscall.Vectors.Counts.{Bounded, hooked_vectors-Bounded}
use open_coroutine.Syscall.Vectors.Short.{LastRequest, hooked_vectors-skips}

abbrev caller : Coroutine ℕ ℕ
caller = record { id = 9; state = CoroutineState.running; listeners = 1 ∷ []; log = [] }

abbrev waits : List Wait
waits =
    record { timestamp = 100; why = by_timeout; resumed_at = 120 }
    ∷ record { timestamp = 200; why = by_callback; resumed_at = 150 }
    ∷ []

facade-running_example : Ends CoroutineState.running (facade 0 recv waits 160 caller)
facade-running_example = facade-running 0 recv waits 160 caller refl

poll_runs :
    nio_poll (pos 5) (bytes 0 ∷ bytes 0 ∷ bytes 0 ∷ bytes 0 ∷ [])
    ≡ some (bytes 0, 1_000_000 ∷ 2_000_000 ∷ 2_000_000 ∷ [])
unfolding nio_poll
poll_runs = refl

nio_poll-Fills_example :
    (ds : List ℕ) × (nio_poll (pos 5) (replicate 6 (bytes 0)) ≡ some (bytes 0, ds)) × Fills 5 ds
nio_poll-Fills_example = nio_poll-Fills 5 6 (omega arith) (omega arith)

abbrev sets : Sets
sets = record { readfds = some 1; writefds = none; errorfds = none }

nio_select-thousandfold_example :
    (end : Selected) × (nio_select (some (0, 3)) sets (idle (replicate 4 sets)) ≡ some end)
    × (end.r ≡ bytes 0)
    × (sum end.waits ≡ 3_000_000)
nio_select-thousandfold_example =
    nio_select-thousandfold 0 3 sets (replicate 4 sets) (omega arith) (omega arith)

abbrev fresh : World
fresh = record { errno = 0; flags = known false; moved = 0; requests = [] }

abbrev buffer : Iovec
buffer = record { base = 1000; len = 8 }

abbrev second : Iovec
second = record { base = 2000; len = 8 }

abbrev round : Reply → ℕ → Bool → Round
round reply clock ok = record {
  reply = reply;
  limit = 100;
  clock = clock;
  wait_ok = ok;
  wait_errno = 0;
}

-- Not ready, then five bytes.
abbrev served : List Round
served = round (fails 11) 20 true ∷ round (moves 5) 30 true ∷ []

-- Not ready before and after the deadline 110.
abbrev never : List Round
never = round (fails 11) 20 true ∷ round (fails 11) 110 true ∷ []

read_served :
    nio_read_buf true buffer served 10 100 fresh
    ≡ returned (bytes 5) (record fresh { moved = 5; requests = (buffer ∷ []) ∷ (buffer ∷ []) ∷ [] })
unfolding nio_read_buf
read_served = refl

read_never : Gives minus_one 0 (nio_read_buf true buffer never 10 100 fresh)
unfolding nio_read_buf
read_never = (refl, refl)

vector_served :
    Gives
      (bytes 16)
      16
      (nio_read_iovec true (buffer ∷ second ∷ []) (round (moves 16) 20 true ∷ []) 10 100 fresh)
unfolding nio_read_iovec
vector_served = (refl, refl)

-- The third request starts at 2004, though only 2 bytes of the second buffer are filled.
abbrev skipping : List Round
skipping = round (moves 10) 20 true ∷ round (fails 11) 30 true ∷ round (fails 5) 40 true ∷ []

hooked_buffers-Accounts_example :
    Accounts fresh (nio_read true served 10 100 fresh)
    × Accounts fresh (nio_read_buf true buffer served 10 100 fresh)
    × Accounts fresh (nio_write_buf true buffer served 10 100 fresh)
hooked_buffers-Accounts_example = hooked_buffers-Accounts true buffer served 10 100 fresh

hooked_buffers-ends_example :
    IsReturned (nio_read true never 10 100 fresh)
    × IsReturned (nio_read_buf true buffer never 10 100 fresh)
    × IsReturned (nio_write_buf true buffer never 10 100 fresh)
hooked_buffers-ends_example =
    hooked_buffers-ends true buffer never 10 100 fresh false refl
      (inr (inl ((λ e. ground arith), omega arith)))

hooked_vectors-Bounded_example :
    Bounded fresh (nio_read_iovec true (buffer ∷ second ∷ []) served 10 100 fresh)
    × Bounded fresh (nio_write_iovec true (buffer ∷ second ∷ []) served 10 100 fresh)
hooked_vectors-Bounded_example =
    hooked_vectors-Bounded true (buffer ∷ second ∷ []) served 10 100 fresh

abbrev shortened : List Round
shortened = round (moves 10) 20 true ∷ round (moves 1) 30 true ∷ []

hooked_vectors-skips_example :
    LastRequest
      (record { base = second.base + 4; len = second.len - 4 } ∷ [])
      (nio_read_iovec true (buffer ∷ second ∷ []) skipping 10 100 fresh)
    × LastRequest
        (record { base = second.base + 4; len = second.len - 4 } ∷ [])
        (nio_write_iovec true (buffer ∷ second ∷ []) skipping 10 100 fresh)
hooked_vectors-skips_example =
    hooked_vectors-skips buffer second (round (moves 10) 20 true) (round (fails 11) 30 true)
      (round (fails 5) 40 true) 10 100 fresh false 2 refl (omega arith) (omega arith) refl
      (omega arith) (omega arith) (omega arith) refl refl (omega arith) refl

-- ===== src/Syscall/Messages/Examples.antt =====
-- Runs of the hooked sendmsg and recvmsg, and the theorems at concrete inputs.
use open_coroutine.Prelude.{ℕ, true, false, List, [], ◌∷◌, arith, refl, replicate}
use open_coroutine.Syscall.World.{known, Iovec, Round, World, Reply, moves, fails, bytes, Gives}
use open_coroutine.Syscall.Vectors.Short.{LastRequest}
use open_coroutine.Syscall.Messages.{nio_sendmsg, nio_recvmsg}
use open_coroutine.Syscall.Messages.Strays.{hooked_messages-strays}

abbrev fresh : World
fresh = record { errno = 0; flags = known false; moved = 0; requests = [] }

abbrev header : Iovec
header = record { base = 1000; len = 8 }

abbrev body : Iovec
body = record { base = 2000; len = 8 }

-- What stands in memory behind the array.
abbrev behind : ℕ → List Iovec
behind n = replicate n (record { base = 666; len = 4096 })

abbrev round : Reply → ℕ → Round
round reply clock = record {
  reply = reply;
  limit = 100;
  clock = clock;
  wait_ok = true;
  wait_errno = 0;
}

abbrev halves : List Round
halves = round (moves 8) 20 ∷ round (fails 11) 30 ∷ round (moves 8) 40 ∷ []

sent : Gives (bytes 16) 16 (nio_sendmsg behind (header ∷ body ∷ []) halves 10 100 fresh)
unfolding nio_sendmsg
sent = (refl, refl)

hooked_messages-strays_example :
    LastRequest (body ∷ behind 1) (
      nio_sendmsg behind
        (header ∷ body ∷ [])
        (round (moves 8) 20 ∷ round (fails 5) 30 ∷ [])
        10
        100
        fresh)
    × LastRequest (body ∷ behind 1) (
        nio_recvmsg behind
          (header ∷ body ∷ [])
          (round (moves 8) 20 ∷ round (fails 5) 30 ∷ [])
          10
          100
          fresh)
hooked_messages-strays_example =
    hooked_messages-strays behind header body (round (moves 8) 20) (round (fails 5) 30) 10 100 fresh
      false refl (omega arith) (omega arith) (omega arith) refl refl

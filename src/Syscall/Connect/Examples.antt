-- ===== src/Syscall/Connect/Examples.antt =====
-- Runs of the hooked connect, and the theorems at concrete inputs.
use open_coroutine.Prelude.{ℕ, ◌≡◌, Bool, true, false, List, [], ◌∷◌, ◌++◌, some, arith, refl}
use open_coroutine.Syscall.World.{known, World, bytes, returned, Returns}
use open_coroutine.Syscall.Connect.{SoError, answers, Round, nio_connect}
use open_coroutine.Syscall.Connect.Answers.{HasCause, IsExplained, nio_connect-IsSound}
use open_coroutine.Syscall.Connect.Ends.{Connects, nio_connect-Connects}

abbrev fresh : World
fresh = record { errno = 0; flags = known false; moved = 0; requests = [] }

abbrev round : ℕ → Bool → SoError → Round
round clock connected so_error = record {
  limit = 100;
  clock = clock;
  wait_ok = true;
  wait_errno = 0;
  connected = connected;
  so_error = so_error;
}

-- Two waits; after the second the socket is connected.
abbrev slow : List Round
slow = round 20 false (answers 0) ∷ round 30 true (answers 0) ∷ []

-- Refused, ECONNREFUSED.
abbrev refused : List Round
refused = round 20 false (answers 111) ∷ []

slow_runs : nio_connect (some 115) slow 10 100 fresh ≡ returned (bytes 0) fresh
unfolding nio_connect
slow_runs = refl

nio_connect-IsSound_example :
    Returns
      (λ r u. (u.flags ≡ known false) × IsExplained (HasCause (some 115) refused) r u)
      (nio_connect (some 115) refused 10 100 fresh)
nio_connect-IsSound_example = nio_connect-IsSound (some 115) refused 10 100 fresh

nio_connect-Connects_example : Connects (
    nio_connect
      (some 115)
      ((round 20 false (answers 0) ∷ []) ++ round 30 true (answers 0) ∷ [])
      10
      100
      fresh)
nio_connect-Connects_example =
    nio_connect-Connects 115 (round 20 false (answers 0) ∷ []) [] (round 30 true (answers 0)) 10 100
      fresh false refl refl (omega arith) ((refl, refl, refl, omega arith), tt) (refl, refl, refl)

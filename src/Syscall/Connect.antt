-- ===== src/Syscall/Connect.antt =====
-- core/src/syscall/unix/connect.rs, on Linux. A round of the loop meets the limit and the clock, the
-- wait for a write event, and what getpeername and getsockopt answer. What getpeername leaves in errno
-- is overwritten before it is read.
pub mod Answers
pub mod Ends
mod Examples
use open_coroutine.Prelude.{
  ℕ, ◌+◌, ◌-◌, Bool, true, false, List, [], ◌∷◌, Option, none, some, ◌&&◌, ◌||◌, ltb, ◌==◌,
  if◌then◌else◌,
}
use open_coroutine.Time.{saturating_add}
use open_coroutine.Syscall.World.{
  World, Ret, minus_one, bytes, Outcome, returned, pending, set_errno, reset_errno,
  while_non_blocking,
}

-- What getsockopt answers for SO_ERROR: the pending error, 0 for none, or -1 with errno set.
pub data SoError : Type 0 where
  answers fails : ℕ → SoError

pub record Round : Type 0 where
  pub limit : ℕ
  pub clock : ℕ
  pub wait_ok : Bool
  pub wait_errno : ℕ
  pub connected : Bool
  pub so_error : SoError

-- EINPROGRESS, EALREADY or EWOULDBLOCK.
abbrev pub is_blocked : ℕ → Bool
is_blocked errno = errno == 115 || (errno == 114 || errno == 11)

-- What follows the loop, up to the restoring of the mode: ETIMEDOUT becomes EINPROGRESS.
unfoldable pub finish : Ret → World → Outcome
finish (bytes n) w = returned (bytes n) w
finish minus_one w = returned minus_one (if w.errno == 110 then set_errno 115 w else w)

-- From getpeername to the end of the loop's body. `again` takes the new `r`.
unfoldable pub probe : Round → (Ret → World → Outcome) → World → Outcome
unfolding finish
probe x again w = elim x.so_error [
  | fails e ↦ finish minus_one (set_errno e w)
  | answers e ↦
      let retried = again minus_one (set_errno 115 w) in
      let accepted = again (bytes 0) w in
      if e == 0
      then (if x.connected then accepted else retried)
      else finish minus_one (set_errno e w)
]

-- The branch that waits for a write event; `again` takes the time left.
unfoldable pub wait_write : Round → ℕ → (ℕ → Ret → World → Outcome) → World → Outcome
unfolding probe finish
wait_write x start again w =
    let w' = set_errno x.wait_errno w in
    if x.wait_ok
    then probe x (again (saturating_add start x.limit - x.clock)) w'
    else finish minus_one w'

-- The loop. A round that finds EINTR reads nothing of the script's element that it takes.
unfoldable pub connect_loop : List Round → ℕ → ℕ → Ret → World → Outcome
unfolding wait_write finish
connect_loop xs start left (bytes n) w = finish (bytes n) (if ltb 0 left then reset_errno w else w)
connect_loop [] start left minus_one w =
    if ltb 0 left && (is_blocked w.errno || w.errno == 4) then pending w else finish minus_one w
connect_loop (x ∷ xs) start left minus_one w =
    let interrupted = connect_loop xs start left minus_one w in
    if ltb 0 left
    then (if is_blocked w.errno
        then wait_write x start (connect_loop xs start) w
        else (if w.errno == 4 then interrupted else finish minus_one w))
    else finish minus_one w

-- The raw call: 0, or -1 with errno.
unfoldable pub raw_connect : Option ℕ → World → Ret × World
raw_connect none w = (bytes 0, w)
raw_connect (some e) w = (minus_one, set_errno e w)

unfoldable pub nio_connect : Option ℕ → List Round → ℕ → ℕ → World → Outcome
unfolding connect_loop raw_connect while_non_blocking
nio_connect reply rounds start limit w =
    while_non_blocking w
      (λ w'. let (r, u) = raw_connect reply w' in connect_loop rounds start limit r u)

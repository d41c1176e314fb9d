-- ===== src/Syscall/World.antt =====
-- core/src/syscall/unix/mod.rs: errno, the O_NONBLOCK flag of a descriptor, and one round of the loops
-- of the macros `impl_nio_…`. What the kernel, the clock and the event loop answer is given, round by
-- round; a script of rounds that ends before the call returns leaves the call pending.
use open_coroutine.Prelude.{
  ℕ, ◌+◌, ◌-◌, ◌≤◌, ◌≡◌, ◌≢◌, ◌⊎◌, Bool, true, false, not, List, [], ◌∷◌, Option, none, some, ◌==◌,
  if◌then◌else◌,
}
use open_coroutine.Time.{saturating_add}

-- The errors that the loops tell apart, by `std::io::Error::last_os_error().kind()`.
pub data ErrorKind : Type 0 where
  would_block interrupted other : ErrorKind

-- EAGAIN is 11 and EINTR is 4 on Linux.
unfoldable pub kind : ℕ → ErrorKind
kind errno = if errno == 11 then would_block else (if errno == 4 then interrupted else other)

-- What a raw call answers: a count, or -1 with errno set.
pub data Reply : Type 0 where
  moves : ℕ → Reply
  fails : ℕ → Reply

-- What the hooked call returns: -1 or a count.
pub data Ret : Type 0 where
  minus_one : Ret
  bytes : ℕ → Ret

-- A buffer: its address and its length.
pub record Iovec : Type 0 where
  pub base : ℕ
  pub len : ℕ

-- What one round meets: the reply of the raw call and, where the code asks for them, the time limit,
-- the clock, whether the wait for an event succeeds, and the errno that the wait leaves.
pub record Round : Type 0 where
  pub reply : Reply
  pub limit : ℕ
  pub clock : ℕ
  pub wait_ok : Bool
  pub wait_errno : ℕ

-- What fcntl says of a descriptor: nothing, where F_GETFL fails; its O_NONBLOCK bit; or, for `fixed`,
-- that it is blocking, where F_SETFL fails. F_SETFL is not called for one that is non-blocking already.
-- Which of these holds stays through a call.
pub data Flags : Type 0 where
  unknown : Flags
  known : Bool → Flags
  fixed : Flags

-- `moved` counts the bytes that raw calls moved, and `requests` the buffers that they were given,
-- newest first.
pub record World : Type 0 where
  pub errno : ℕ
  pub flags : Flags
  pub moved : ℕ
  pub requests : List (List Iovec)

-- `panicked`: an assertion of the code failed.
pub data Outcome : Type 0 where
  returned : Ret → World → Outcome
  pending : World → Outcome
  panicked : Outcome

abbrev pub set_errno : ℕ → World → World
set_errno e w = record w { errno = e }

abbrev pub reset_errno : World → World
reset_errno w = set_errno 0 w

-- `flags < 0` gives false.
abbrev pub is_set : Flags → Bool
is_set unknown = false
is_set (known b) = b
is_set fixed = false

unfoldable pub is_non_blocking : World → Bool
is_non_blocking w = is_set w.flags

unfoldable pub is_blocking : World → Bool
unfolding is_non_blocking
is_blocking w = not (is_non_blocking w)

abbrev flag_set : Flags → Bool → World → Option World
flag_set unknown on w = none
flag_set (known b) on w = some (record w { flags = known on })
flag_set fixed on w = none

-- `none`: it answers false, and the assertion of its callers fails.
unfoldable pub set_non_blocking_flag : Bool → World → Option World
set_non_blocking_flag on w = flag_set w.flags on w

-- `if blocking { set_blocking(fd) }`, the last step of every return.
abbrev restore_to : Ret → Option World → Outcome
restore_to r none = panicked
restore_to r (some w) = returned r w

unfoldable pub give_back : Bool → Outcome → Outcome
unfolding set_non_blocking_flag
give_back true (returned r w) = restore_to r (set_non_blocking_flag false w)
give_back false (returned r w) = returned r w
give_back blocking o = o

abbrev enter_with : Option World → (World → Outcome) → Outcome
enter_with none body = panicked
enter_with (some w) body = body w

-- `let blocking = is_blocking(fd); if blocking { set_non_blocking(fd) }`, a body, and the restoring.
unfoldable pub while_non_blocking : World → (World → Outcome) → Outcome
unfolding is_blocking set_non_blocking_flag give_back
while_non_blocking w body =
    let blocking = is_blocking w in
    if blocking
    then give_back true (enter_with (set_non_blocking_flag true w) body)
    else give_back false (body w)

-- The raw call, on the buffers given.
unfoldable pub call : List Iovec → Reply → World → Ret × World
call iov (moves n) w = (bytes n, record w { moved = w.moved + n; requests = iov ∷ w.requests })
call iov (fails e) w = (minus_one, record w { errno = e; requests = iov ∷ w.requests })

-- From `let error_kind = …` to the end of the loop's body. `again` goes on with the time left;
-- `finish` leaves the loop with a result: `r`, or `wait_failed` where the wait fails.
unfoldable pub retry :
    {A : Type 0} → (Ret → World → A) → Round → ℕ → ℕ → Ret → Ret → (ℕ → World → A) → World → A
unfolding kind
retry finish x start left r wait_failed again w = elim (kind w.errno) [
  | would_block ↦
      let left' = saturating_add start x.limit - x.clock in
      let w' = set_errno x.wait_errno w in
      if x.wait_ok then again left' w' else finish wait_failed w'
  | interrupted ↦ again left w
  | other ↦ finish r w
]

-- The bytes that a result speaks of.
abbrev pub count : Ret → ℕ
count minus_one = 0
count (bytes n) = n

-- What holds of a return.
abbrev pub Returns : (Ret → World → Type 0) → Outcome → Type 0
Returns P (returned r w) = P r w
Returns P (pending w) = Unit
Returns P panicked = Unit

abbrev pub IsPending : Outcome → Type 0
IsPending (pending w) = Unit
IsPending _ = ⊥

-- A round at which the deadline has passed, and whose raw call is not interrupted by a signal.
abbrev pub IsLate : ℕ → Round → Type 0
IsLate start x = (x.reply ≢ fails 4) × (saturating_add start x.limit ≤ x.clock)

abbrev pub AnyLate : ℕ → List Round → Type 0
AnyLate start [] = ⊥
AnyLate start (x ∷ xs) = IsLate start x ⊎ AnyLate start xs

-- A return of `r` with `moved` bytes moved in all.
abbrev pub Gives : Ret → ℕ → Outcome → Type 0
Gives r moved (returned r' w) = (r' ≡ r) × (w.moved ≡ moved)
Gives r moved _ = ⊥

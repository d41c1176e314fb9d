-- ===== src/Syscall/Buffers/Deadline.antt =====
-- The time limit of a hooked call on one buffer.
use open_coroutine.Prelude.{ℕ, ◌<◌, ◌≡◌, Bool, true, false, List, [], ◌∷◌, arith, inl, inr}
use open_coroutine.Syscall.World.{
  known, Iovec, Round, World, Ret, minus_one, bytes, fails, Outcome, returned, AnyLate, Gives,
  while_non_blocking,
}
use open_coroutine.Syscall.Buffers.{
  raw, read_loop, nio_read, read_buf_loop, nio_read_buf, write_buf_loop, nio_write_buf,
}

-- The call has returned.
abbrev pub IsReturned : Outcome → Type 0
IsReturned (returned r w) = Unit
IsReturned _ = ⊥

-- The same inside the loop, where the descriptor is non-blocking.
abbrev Leaves : Outcome → Type 0
Leaves (returned r w) = w.flags ≡ known true
Leaves _ = ⊥

while_non_blocking-ends :
    (w : World) (mode : Bool) (body : World → Outcome)
    → w.flags ≡ known mode
    → ((w' : World) → w'.flags ≡ known true → Leaves (body w'))
    → IsReturned (while_non_blocking w body)
unfolding while_non_blocking
while_non_blocking-ends w mode body f h = ground (arith, h w, h (record w { flags = known true }))

raw-ends :
    (iov : List Iovec) (xs : List Round) (start : ℕ) (w : World)
    → AnyLate start xs
    → IsReturned (raw iov xs w)
unfolding raw
raw-ends iov [] start w late = absurd late
raw-ends iov (x ∷ xs) start w late = ground arith

-- With no time left a loop returns at once.
read_buf_loop-no_time :
    (b : Iovec) (xs : List Round) (start received : ℕ) (r : Ret) (w : World)
    → w.flags ≡ known true
    → Leaves (read_buf_loop b xs start received r 0 w)
unfolding read_buf_loop
read_buf_loop-no_time b [] start received r w f = ground arith
read_buf_loop-no_time b (x ∷ xs) start received r w f = ground arith

read_buf_loop-ends :
    (b : Iovec) (xs : List Round) (start received : ℕ) (r : Ret) (left : ℕ) (w : World)
    → AnyLate start xs
    → w.flags ≡ known true
    → Leaves (read_buf_loop b xs start received r left w)
unfolding read_buf_loop
read_buf_loop-ends b [] start received r left w late f = absurd late
read_buf_loop-ends b (x ∷ xs) start received r left w (inl late) f =
    grind (arith, read_buf_loop-no_time b xs start)
read_buf_loop-ends b (x ∷ xs) start received r left w (inr late) f =
    grind (arith, read_buf_loop-ends b xs start)

write_buf_loop-no_time :
    (b : Iovec) (xs : List Round) (start sent : ℕ) (r : Ret) (w : World)
    → w.flags ≡ known true
    → Leaves (write_buf_loop b xs start sent r 0 w)
unfolding write_buf_loop
write_buf_loop-no_time b [] start sent r w f = ground arith
write_buf_loop-no_time b (x ∷ xs) start sent r w f = ground arith

write_buf_loop-ends :
    (b : Iovec) (xs : List Round) (start sent : ℕ) (r : Ret) (left : ℕ) (w : World)
    → AnyLate start xs
    → w.flags ≡ known true
    → Leaves (write_buf_loop b xs start sent r left w)
unfolding write_buf_loop
write_buf_loop-ends b [] start sent r left w late f = absurd late
write_buf_loop-ends b (x ∷ xs) start sent r left w (inl late) f =
    grind (arith, write_buf_loop-no_time b xs start)
write_buf_loop-ends b (x ∷ xs) start sent r left w (inr late) f =
    grind (arith, write_buf_loop-ends b xs start)

read_loop-no_time :
    (xs : List Round) (start : ℕ) (r : Ret) (w : World)
    → w.flags ≡ known true
    → Leaves (read_loop xs start r 0 w)
unfolding read_loop
read_loop-no_time [] start r w f = ground arith
read_loop-no_time (x ∷ xs) start r w f = ground arith

read_loop-ends :
    (xs : List Round) (start : ℕ) (r : Ret) (left : ℕ) (w : World)
    → AnyLate start xs
    → w.flags ≡ known true
    → Leaves (read_loop xs start r left w)
unfolding read_loop
read_loop-ends [] start r left w late f = absurd late
read_loop-ends (x ∷ xs) start r left w (inl late) f = grind (arith, read_loop-no_time xs start)
read_loop-ends (x ∷ xs) start r left w (inr late) f = grind (arith, read_loop-ends xs start)

-- A hooked accept returns no later than at the first round whose clock has reached the deadline and
-- whose raw call no signal interrupts.
pub nio_read-ends :
    (is_socket : Bool) (xs : List Round) (start limit : ℕ) (w : World) (mode : Bool)
    → w.flags ≡ known mode
    → AnyLate start xs
    → IsReturned (nio_read is_socket xs start limit w)
unfolding nio_read
nio_read-ends true xs start limit w mode f late =
    while_non_blocking-ends w mode _ f (λ w' f'. read_loop-ends xs start minus_one limit w' late f')
nio_read-ends false xs start limit w mode f late = raw-ends [] xs start w late

-- A hooked read on one buffer returns no later than at the first round whose clock has reached the
-- deadline and whose raw call no signal interrupts.
pub nio_read_buf-ends :
    (is_socket : Bool) (b : Iovec) (xs : List Round) (start limit : ℕ) (w : World) (mode : Bool)
    → w.flags ≡ known mode
    → AnyLate start xs
    → IsReturned (nio_read_buf is_socket b xs start limit w)
unfolding nio_read_buf
nio_read_buf-ends true b xs start limit w mode f late =
    while_non_blocking-ends w mode _ f
      (λ w' f'. read_buf_loop-ends b xs start 0 minus_one limit w' late f')
nio_read_buf-ends false b xs start limit w mode f late = raw-ends (b ∷ []) xs start w late

-- A hooked write on one buffer returns no later than at the first round whose clock has reached the
-- deadline and whose raw call no signal interrupts.
pub nio_write_buf-ends :
    (is_socket : Bool) (b : Iovec) (xs : List Round) (start limit : ℕ) (w : World) (mode : Bool)
    → w.flags ≡ known mode
    → AnyLate start xs
    → IsReturned (nio_write_buf is_socket b xs start limit w)
unfolding nio_write_buf
nio_write_buf-ends true b xs start limit w mode f late =
    while_non_blocking-ends w mode _ f
      (λ w' f'. write_buf_loop-ends b xs start 0 minus_one limit w' late f')
nio_write_buf-ends false b xs start limit w mode f late = raw-ends (b ∷ []) xs start w late

-- A hooked read whose socket has no data yet and whose wait for an event fails returns the count 0,
-- which a caller takes for the end of the stream, and not -1; nothing was read.
pub nio_read_buf-wait_failed :
    (b : Iovec) (x : Round) (xs : List Round) (start limit : ℕ) (w : World) (mode : Bool)
    → 0 < b.len
    → 0 < limit
    → w.flags ≡ known mode
    → x.reply ≡ fails 11
    → x.wait_ok ≡ false
    → Gives (bytes 0) w.moved (nio_read_buf true b (x ∷ xs) start limit w)
unfolding nio_read_buf
nio_read_buf-wait_failed b x xs start limit w mode l t f e k = ground arith

-- A hooked accept, and a hooked read or write on one buffer, on a descriptor whose mode fcntl tells and
-- changes, return, with no panic, no later than at the first round whose clock has reached the deadline
-- and whose raw call no signal interrupts.
pub hooked_buffers-ends :
    (is_socket : Bool) (b : Iovec) (xs : List Round) (start limit : ℕ) (w : World) (mode : Bool)
    → w.flags ≡ known mode
    → AnyLate start xs
    → IsReturned (nio_read is_socket xs start limit w)
      × IsReturned (nio_read_buf is_socket b xs start limit w)
      × IsReturned (nio_write_buf is_socket b xs start limit w)
hooked_buffers-ends is_socket b xs start limit w mode f late = (
  nio_read-ends is_socket xs start limit w mode f late,
  nio_read_buf-ends is_socket b xs start limit w mode f late,
  nio_write_buf-ends is_socket b xs start limit w mode f late,
)

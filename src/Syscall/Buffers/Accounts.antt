-- ===== src/Syscall/Buffers/Accounts.antt =====
-- The descriptor's mode after a hooked call on one buffer, and the count that it returns.
use open_coroutine.Prelude.{ℕ, ◌+◌, ◌≡◌, Bool, true, false, List, [], ◌∷◌, arith}
use open_coroutine.Syscall.World.{
  known, Iovec, Round, World, minus_one, Outcome, count, Returns, while_non_blocking,
}
use open_coroutine.Syscall.Buffers.{
  raw, read_loop, nio_read, read_buf_loop, nio_read_buf, write_buf_loop, nio_write_buf,
}

-- A return leaves the descriptor's mode as it was and speaks of just the bytes that were moved.
abbrev pub Accounts : World → Outcome → Type 0
Accounts w0 = Returns λ r w. (w.flags ≡ w0.flags) × (w.moved ≡ w0.moved + count r)

-- The same inside the loop, where the descriptor is non-blocking.
abbrev Within : ℕ → Outcome → Type 0
Within m = Returns λ r w. (w.flags ≡ known true) × (w.moved ≡ m + count r)

while_non_blocking-Accounts :
    (w : World) (body : World → Outcome)
    → ((w' : World) → w'.flags ≡ known true → w'.moved ≡ w.moved → Within w.moved (body w'))
    → Accounts w (while_non_blocking w body)
unfolding while_non_blocking
while_non_blocking-Accounts w body h = ground (arith, h w, h (record w { flags = known true }))

raw-Accounts : (iov : List Iovec) (xs : List Round) (w : World) → Accounts w (raw iov xs w)
unfolding raw
raw-Accounts iov [] w = tt
raw-Accounts iov (x ∷ xs) w = ground arith

read_loop-Within :
    (xs : List Round) (start left m : ℕ) (w : World)
    → w.flags ≡ known true
    → w.moved ≡ m
    → Within m (read_loop xs start minus_one left w)
unfolding read_loop
read_loop-Within [] start left m w f e = ground arith
read_loop-Within (x ∷ xs) start left m w f e = grind (arith, read_loop-Within xs start)

read_buf_loop-Within :
    (b : Iovec) (xs : List Round) (start left m : ℕ) (w : World)
    → w.flags ≡ known true
    → w.moved ≡ m
    → Within m (read_buf_loop b xs start 0 minus_one left w)
unfolding read_buf_loop
read_buf_loop-Within b [] start left m w f e = ground arith
read_buf_loop-Within b (x ∷ xs) start left m w f e = grind (arith, read_buf_loop-Within b xs start)

write_buf_loop-Within :
    (b : Iovec) (xs : List Round) (start left m : ℕ) (w : World)
    → w.flags ≡ known true
    → w.moved ≡ m
    → Within m (write_buf_loop b xs start 0 minus_one left w)
unfolding write_buf_loop
write_buf_loop-Within b [] start left m w f e = ground arith
write_buf_loop-Within b (x ∷ xs) start left m w f e =
    grind (arith, write_buf_loop-Within b xs start)

-- A hooked accept restores the descriptor's mode on every return, and its count is that of the raw
-- call that it ended on.
pub nio_read-Accounts :
    (is_socket : Bool) (xs : List Round) (start limit : ℕ) (w : World)
    → Accounts w (nio_read is_socket xs start limit w)
unfolding nio_read
nio_read-Accounts true xs start limit w =
    while_non_blocking-Accounts w _ λ w' f e. read_loop-Within xs start limit w.moved w' f e
nio_read-Accounts false xs start limit w = raw-Accounts [] xs w

-- A hooked read into one buffer restores the descriptor's mode on every return, and returns just the
-- number of bytes that its raw calls read, none of them with -1.
pub nio_read_buf-Accounts :
    (is_socket : Bool) (b : Iovec) (xs : List Round) (start limit : ℕ) (w : World)
    → Accounts w (nio_read_buf is_socket b xs start limit w)
unfolding nio_read_buf
nio_read_buf-Accounts true b xs start limit w =
    while_non_blocking-Accounts w _ λ w' f e. read_buf_loop-Within b xs start limit w.moved w' f e
nio_read_buf-Accounts false b xs start limit w = raw-Accounts (b ∷ []) xs w

-- A hooked write from one buffer restores the descriptor's mode on every return, and returns just the
-- number of bytes that its raw calls wrote, none of them with -1.
pub nio_write_buf-Accounts :
    (is_socket : Bool) (b : Iovec) (xs : List Round) (start limit : ℕ) (w : World)
    → Accounts w (nio_write_buf is_socket b xs start limit w)
unfolding nio_write_buf
nio_write_buf-Accounts true b xs start limit w =
    while_non_blocking-Accounts w _ λ w' f e. write_buf_loop-Within b xs start limit w.moved w' f e
nio_write_buf-Accounts false b xs start limit w = raw-Accounts (b ∷ []) xs w

-- A hooked accept, and a hooked read or write on one buffer, restore the descriptor's mode on every
-- return, and return just the count that their raw calls moved, none of them with -1.
pub hooked_buffers-Accounts :
    (is_socket : Bool) (b : Iovec) (xs : List Round) (start limit : ℕ) (w : World)
    → Accounts w (nio_read is_socket xs start limit w)
      × Accounts w (nio_read_buf is_socket b xs start limit w)
      × Accounts w (nio_write_buf is_socket b xs start limit w)
hooked_buffers-Accounts is_socket b xs start limit w = (
  nio_read-Accounts is_socket xs start limit w,
  nio_read_buf-Accounts is_socket b xs start limit w,
  nio_write_buf-Accounts is_socket b xs start limit w,
)

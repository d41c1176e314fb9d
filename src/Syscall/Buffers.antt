-- ===== src/Syscall/Buffers.antt =====
-- core/src/syscall/unix/mod.rs: the macros `impl_nio_read`, `impl_nio_read_buf` and
-- `impl_nio_write_buf`, by which accept, recv, recvfrom, read, pread, send, sendto, pwrite and write
-- are hooked.
pub mod Accounts
pub mod Deadline
use open_coroutine.Prelude.{
  ℕ, ◌+◌, ◌-◌, Bool, List, [], ◌∷◌, ◌&&◌, ◌||◌, ltb, leb, ◌==◌, if◌then◌else◌,
}
use open_coroutine.Syscall.World.{
  Iovec, Round, World, Ret, minus_one, bytes, Outcome, returned, pending, call, retry, reset_errno,
  while_non_blocking,
}

-- A descriptor that is no socket goes straight to the raw call.
unfoldable pub raw : List Iovec → List Round → World → Outcome
unfolding call
raw iov [] w = pending w
raw iov (x ∷ xs) w = let (r, w') = call iov x.reply w in returned r w'

-- `impl_nio_read`: any reply but -1 ends the loop. The raw call has no buffer that is cut here.
read_step : Round → ℕ → ℕ → Ret × World → (ℕ → World → Outcome) → Outcome
unfolding retry
read_step x start left (bytes n, w) again = returned (bytes n) (reset_errno w)
read_step x start left (minus_one, w) again =
    retry returned x start left minus_one minus_one again w

read_loop : List Round → ℕ → Ret → ℕ → World → Outcome
unfolding call read_step
read_loop [] start r left w = if ltb 0 left then pending w else returned r w
read_loop (x ∷ xs) start r left w =
    if ltb 0 left
    then read_step x start left (call [] x.reply w) (read_loop xs start minus_one)
    else returned r w

unfoldable pub nio_read : Bool → List Round → ℕ → ℕ → World → Outcome
unfolding raw read_loop while_non_blocking
nio_read is_socket rounds start limit w =
    if is_socket
    then while_non_blocking w (read_loop rounds start minus_one limit)
    else raw [] rounds w

-- The part of a buffer that is not filled yet.
abbrev pub rest : Iovec → ℕ → List Iovec
rest b done = record { base = b.base + done; len = b.len - done } ∷ []

-- `impl_nio_read_buf`. `again` takes `received`, `r` and the time left.
read_buf_step : Iovec → Round → ℕ → ℕ → ℕ → Ret × World → (ℕ → Ret → ℕ → World → Outcome) → Outcome
unfolding retry
read_buf_step b x start received left (bytes n, w) again =
    let received' = received + n in
    if leb b.len received' || n == 0
    then returned (bytes received') (reset_errno w)
    else retry returned x start left (bytes n) (bytes received') (again received' (bytes n))
        (reset_errno w)
read_buf_step b x start received left (minus_one, w) again =
    retry returned x start left minus_one (bytes received) (again received minus_one) w

read_buf_loop : Iovec → List Round → ℕ → ℕ → Ret → ℕ → World → Outcome
unfolding call read_buf_step
read_buf_loop b [] start received r left w =
    if ltb received b.len && ltb 0 left then pending w else returned r w
read_buf_loop b (x ∷ xs) start received r left w =
    if ltb received b.len && ltb 0 left
    then read_buf_step b x start received left (call (rest b received) x.reply w)
        (read_buf_loop b xs start)
    else returned r w

unfoldable pub nio_read_buf : Bool → Iovec → List Round → ℕ → ℕ → World → Outcome
unfolding raw read_buf_loop while_non_blocking
nio_read_buf is_socket b rounds start limit w =
    if is_socket
    then while_non_blocking w (read_buf_loop b rounds start 0 minus_one limit)
    else raw (b ∷ []) rounds w

-- `impl_nio_write_buf`: a count of 0 does not end the loop by itself.
write_buf_step : Iovec → Round → ℕ → ℕ → ℕ → Ret × World → (ℕ → Ret → ℕ → World → Outcome) → Outcome
unfolding retry
write_buf_step b x start sent left (bytes n, w) again =
    let sent' = sent + n in
    if leb b.len sent'
    then returned (bytes sent') (reset_errno w)
    else retry returned x start left (bytes n) (bytes sent') (again sent' (bytes n)) (reset_errno w)
write_buf_step b x start sent left (minus_one, w) again =
    retry returned x start left minus_one (bytes sent) (again sent minus_one) w

write_buf_loop : Iovec → List Round → ℕ → ℕ → Ret → ℕ → World → Outcome
unfolding call write_buf_step
write_buf_loop b [] start sent r left w =
    if ltb sent b.len && ltb 0 left then pending w else returned r w
write_buf_loop b (x ∷ xs) start sent r left w =
    if ltb sent b.len && ltb 0 left
    then write_buf_step b x start sent left (call (rest b sent) x.reply w)
        (write_buf_loop b xs start)
    else returned r w

unfoldable pub nio_write_buf : Bool → Iovec → List Round → ℕ → ℕ → World → Outcome
unfolding raw write_buf_loop while_non_blocking
nio_write_buf is_socket b rounds start limit w =
    if is_socket
    then while_non_blocking w (write_buf_loop b rounds start 0 minus_one limit)
    else raw (b ∷ []) rounds w

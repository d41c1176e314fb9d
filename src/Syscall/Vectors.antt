-- ===== src/Syscall/Vectors.antt =====
-- core/src/syscall/unix/mod.rs: the macros `impl_nio_read_iovec` and `impl_nio_write_iovec`, by which
-- readv, preadv, writev and pwritev are hooked. The subtraction `iov_len - offset` wraps, as in a
-- release build.
pub mod Counts
pub mod Short
use open_coroutine.Prelude.{
  ℕ, ◌+◌, ◌-◌, ◌%◌, Bool, List, [], ◌∷◌, ◌&&◌, ltb, leb, ◌==◌, if◌then◌else◌, drop,
}
use open_coroutine.Syscall.World.{
  Iovec, Round, World, Ret, minus_one, bytes, Outcome, returned, pending, call, retry, reset_errno,
  while_non_blocking,
}
use open_coroutine.Syscall.Buffers.{raw}

-- `iov_len - offset` on usize.
abbrev pub sub_usize : ℕ → ℕ → ℕ
sub_usize a b = (a + 18446744073709551616 - b) % 18446744073709551616

-- `arg[0] = iovec { base + offset, len - offset }`; `arg` is not empty where this runs.
unfoldable pub advance : ℕ → List Iovec → List Iovec
advance offset [] = []
advance offset (v ∷ vs) = record { base = v.base + offset; len = sub_usize v.len offset } ∷ vs

abbrev pub advance_if : ℕ → List Iovec → List Iovec
unfolding advance
advance_if offset arg = if offset == 0 then arg else advance offset arg

-- The variables of the outer loop; `moved` is `received` or `sent`.
pub record Progress : Type 0 where
  pub length : ℕ
  pub moved : ℕ
  pub r : Ret
  pub index : ℕ
  pub left : ℕ

-- How the inner `while` loop ends: it leaves for the outer loop with the rounds that remain, it makes
-- the whole call return, or the script ends.
pub data Inner : Type 0 where
  leaves : List Round → Progress → World → Inner
  early : Ret → World → Inner
  starved : World → Inner

-- What follows the inner loop.
unfoldable pub after_inner : Inner → (List Round → Progress → World → Outcome) → Outcome
after_inner (leaves xs p w) next = next xs p w
after_inner (early r w) next = returned r w
after_inner (starved w) next = pending w

-- One round of the inner loop, after the raw call. `again` takes `arg`, `offset` and the progress.
read_iovec_step :
    List Iovec
    → List Round
    → Round
    → ℕ
    → ℕ
    → ℕ
    → Progress
    → Ret × World
    → (List Iovec → ℕ → Progress → World → Inner)
    → Inner
unfolding retry
read_iovec_step arg xs x start stage offset p (bytes n, w) again =
    let received = p.moved + n in
    let w' = reset_errno w in
    let short = λ (left : ℕ). record p { moved = received; r = bytes n; left = left } in
    if n == 0
    then early (bytes p.moved) w
    else (if leb p.length received
        then leaves xs (record p { moved = received; r = bytes received }) w'
        else retry early x start p.left (bytes n) (bytes received)
            (λ left. again arg (received - stage) (short left)) w')
read_iovec_step arg xs x start stage offset p (minus_one, w) again =
    retry early x start p.left minus_one (bytes p.moved)
      (λ left. again arg offset (record p { r = minus_one; left = left })) w

read_iovec_fill : List Round → ℕ → ℕ → List Iovec → ℕ → Progress → World → Inner
unfolding call read_iovec_step
read_iovec_fill [] start stage arg offset p w =
    if ltb p.moved p.length && ltb 0 p.left then starved w else leaves [] p w
read_iovec_fill (x ∷ xs) start stage arg offset p w =
    let arg' = advance_if offset arg in
    if ltb p.moved p.length && ltb 0 p.left
    then read_iovec_step arg' xs x start stage offset p (call arg' x.reply w)
        (read_iovec_fill xs start stage)
    else leaves (x ∷ xs) p w

abbrev pub next_index : Progress → ℕ
next_index p = if leb p.length p.moved then p.index + 1 else p.index

-- The `for` loop over what is left of `vec`.
read_iovec_loop : List Iovec → List Iovec → List Round → ℕ → Progress → World → Outcome
unfolding read_iovec_fill after_inner
read_iovec_loop [] vec xs start p w = returned p.r w
read_iovec_loop (v ∷ vs) vec xs start p w =
    let stage = p.length in
    let p' = record p { length = stage + v.len } in
    let skip = read_iovec_loop vs vec xs start (record p' { index = p.index + 1 }) w in
    if ltb p'.length p.moved
    then skip
    else after_inner (read_iovec_fill xs start stage (drop p.index vec) (p.moved - stage) p' w)
        (λ xs' q w'. read_iovec_loop vs vec xs' start (record q { index = next_index q }) w')

abbrev at_start : ℕ → Progress
at_start limit = record { length = 0; moved = 0; r = minus_one; index = 0; left = limit }

unfoldable pub nio_read_iovec : Bool → List Iovec → List Round → ℕ → ℕ → World → Outcome
unfolding raw read_iovec_loop while_non_blocking
nio_read_iovec is_socket vec rounds start limit w =
    if is_socket
    then while_non_blocking w (read_iovec_loop vec vec rounds start (at_start limit))
    else raw vec rounds w

-- `impl_nio_write_iovec` differs in the round: a count of 0 is a count like any other.
write_iovec_step :
    List Iovec
    → List Round
    → Round
    → ℕ
    → ℕ
    → ℕ
    → Progress
    → Ret × World
    → (List Iovec → ℕ → Progress → World → Inner)
    → Inner
unfolding retry
write_iovec_step arg xs x start stage offset p (bytes n, w) again =
    let sent = p.moved + n in
    let w' = reset_errno w in
    let short = λ (left : ℕ). record p { moved = sent; r = bytes n; left = left } in
    if leb p.length sent
    then leaves xs (record p { moved = sent; r = bytes sent }) w'
    else retry early x start p.left (bytes n) (bytes sent)
        (λ left. again arg (sent - stage) (short left)) w'
write_iovec_step arg xs x start stage offset p (minus_one, w) again =
    retry early x start p.left minus_one (bytes p.moved)
      (λ left. again arg offset (record p { r = minus_one; left = left })) w

write_iovec_fill : List Round → ℕ → ℕ → List Iovec → ℕ → Progress → World → Inner
unfolding call write_iovec_step
write_iovec_fill [] start stage arg offset p w =
    if ltb p.moved p.length && ltb 0 p.left then starved w else leaves [] p w
write_iovec_fill (x ∷ xs) start stage arg offset p w =
    let arg' = advance_if offset arg in
    if ltb p.moved p.length && ltb 0 p.left
    then write_iovec_step arg' xs x start stage offset p (call arg' x.reply w)
        (write_iovec_fill xs start stage)
    else leaves (x ∷ xs) p w

write_iovec_loop : List Iovec → List Iovec → List Round → ℕ → Progress → World → Outcome
unfolding write_iovec_fill after_inner
write_iovec_loop [] vec xs start p w = returned p.r w
write_iovec_loop (v ∷ vs) vec xs start p w =
    let stage = p.length in
    let p' = record p { length = stage + v.len } in
    let skip = write_iovec_loop vs vec xs start (record p' { index = p.index + 1 }) w in
    if ltb p'.length p.moved
    then skip
    else after_inner (write_iovec_fill xs start stage (drop p.index vec) (p.moved - stage) p' w)
        (λ xs' q w'. write_iovec_loop vs vec xs' start (record q { index = next_index q }) w')

unfoldable pub nio_write_iovec : Bool → List Iovec → List Round → ℕ → ℕ → World → Outcome
unfolding raw write_iovec_loop while_non_blocking
nio_write_iovec is_socket vec rounds start limit w =
    if is_socket
    then while_non_blocking w (write_iovec_loop vec vec rounds start (at_start limit))
    else raw vec rounds w

-- ===== src/Syscall/Messages.antt =====
-- core/src/syscall/unix/sendmsg.rs and recvmsg.rs, which differ in what a count of 0 does. On Linux the
-- raw call is told of as many buffers as the caller gave, though the array that it is given starts with
-- the first one that is not full: it reads on behind the array. `beyond n` is what stands there, `n`
-- entries. Subtraction wraps, as in a release build.
pub mod Strays
mod Examples
use open_coroutine.Prelude.{
  ℕ, ◌+◌, ◌-◌, Bool, true, false, List, [], ◌∷◌, ◌++◌, ◌&&◌, ltb, leb, ◌==◌, if◌then◌else◌, drop,
  length,
}
use open_coroutine.Syscall.World.{
  Iovec, Round, World, Ret, minus_one, bytes, Outcome, call, retry, reset_errno, returned,
  while_non_blocking,
}
use open_coroutine.Syscall.Vectors.{
  Progress, Inner, leaves, early, starved, after_inner, next_index, advance_if,
}

-- One round of the inner loop, after the raw call.
message_step :
    Bool
    → List Iovec
    → List Round
    → Round
    → ℕ
    → ℕ
    → Progress
    → Ret × World
    → (List Iovec → ℕ → Progress → World → Inner)
    → Inner
unfolding retry
message_step receiving iov xs x start offset p (bytes n, w) again =
    let moved = p.moved + n in
    let w' = reset_errno w in
    let short = λ (left : ℕ). record p { moved = moved; r = bytes n; left = left } in
    if receiving && n == 0
    then early (bytes 0) w
    else (if leb p.length moved
        then leaves xs (record p { moved = moved; r = bytes moved }) w'
        else retry early x start p.left (bytes n) (bytes n)
            (λ left. again iov (moved - p.length) (short left)) w')
message_step receiving iov xs x start offset p (minus_one, w) again =
    retry early x start p.left minus_one minus_one
      (λ left. again iov offset (record p { r = minus_one; left = left })) w

module _ (beyond : ℕ → List Iovec) where
  -- The entries that the raw call reads.
  abbrev pub entries : List Iovec → List Iovec → List Iovec
  entries vec iov = iov ++ beyond (length vec - length iov)

  message_fill : Bool → List Iovec → List Round → ℕ → List Iovec → ℕ → Progress → World → Inner
  unfolding call message_step
  message_fill receiving vec [] start iov offset p w =
      if ltb p.moved p.length && ltb 0 p.left then starved w else leaves [] p w
  message_fill receiving vec (x ∷ xs) start iov offset p w =
      let iov' = advance_if offset iov in
      if ltb p.moved p.length && ltb 0 p.left
      then message_step receiving iov' xs x start offset p (call (entries vec iov') x.reply w)
          (message_fill receiving vec xs start)
      else leaves (x ∷ xs) p w

  -- The `for` loop over what is left of `vec`.
  pub message_loop : Bool → List Iovec → List Iovec → List Round → ℕ → Progress → World → Outcome
  unfolding message_fill after_inner
  message_loop receiving [] vec xs start p w = returned p.r w
  message_loop receiving (v ∷ vs) vec xs start p w =
      let offset = p.moved - p.length in
      let p' = record p { length = p.length + v.len } in
      let skip = message_loop receiving vs vec xs start (record p' { index = p.index + 1 }) w in
      if ltb p'.length p.moved
      then skip
      else after_inner (message_fill receiving vec xs start (drop p.index vec) offset p' w)
          (λ xs' q w'.
            message_loop receiving vs vec xs' start (record q { index = next_index q }) w')

  -- `r` is 0 at first.
  abbrev pub at_outset : ℕ → Progress
  at_outset limit = record { length = 0; moved = 0; r = bytes 0; index = 0; left = limit }

  unfoldable pub nio_sendmsg : List Iovec → List Round → ℕ → ℕ → World → Outcome
  unfolding message_loop while_non_blocking
  nio_sendmsg vec rounds start limit w =
      while_non_blocking w (message_loop false vec vec rounds start (at_outset limit))

  unfoldable pub nio_recvmsg : List Iovec → List Round → ℕ → ℕ → World → Outcome
  unfolding message_loop while_non_blocking
  nio_recvmsg vec rounds start limit w =
      while_non_blocking w (message_loop true vec vec rounds start (at_outset limit))

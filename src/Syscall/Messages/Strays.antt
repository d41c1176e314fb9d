-- ===== src/Syscall/Messages/Strays.antt =====
-- core/src/syscall/unix/sendmsg.rs and recvmsg.rs: the mode that they leave, the count that they
-- return, and the buffers that they hand on.
use open_coroutine.Prelude.{
  ℕ, ◌+◌, ◌-◌, ◌≤◌, ◌<◌, ◌≡◌, Bool, true, false, List, [], ◌∷◌, arith, drop, ltb, Bool-cases, inl,
  inr,
}
use open_coroutine.Time.{saturating_add}
use open_coroutine.Syscall.World.{
  known, Iovec, Round, World, moves, fails, minus_one, bytes, Gives, call, set_errno,
}
use open_coroutine.Syscall.Vectors.{Progress, next_index, advance_if}
use open_coroutine.Syscall.Vectors.Counts.{
  Bounded, Within, At, Kept, after_inner-Within, while_non_blocking-Bounded,
}
use open_coroutine.Syscall.Vectors.Short.{
  LastRequest, Latest, advance_if-zero, while_non_blocking-LastRequest,
}
use open_coroutine.Syscall.Messages.{
  entries, message_fill, message_loop, at_outset, nio_sendmsg, nio_recvmsg,
}

module _ (beyond : ℕ → List Iovec) where
  message_fill-Kept :
      (receiving : Bool) (vec : List Iovec) (xs : List Round) (start : ℕ) (iov : List Iovec)
      (offset : ℕ) (p : Progress) (w : World) (m : ℕ)
      → At m p w
      → Kept m (message_fill beyond receiving vec xs start iov offset p w)
  unfolding message_fill
  message_fill-Kept receiving vec [] start iov offset p w m h = ground arith
  message_fill-Kept receiving vec (x ∷ xs) start iov offset p w m h =
      let iov' = advance_if offset iov in
      let w' = (call (entries beyond vec iov') x.reply w).1 in
      let again = λ (left : ℕ) (u : World).
        message_fill-Kept receiving vec xs start iov' offset
          (record p { r = minus_one; left = left }) u m in
      ground (
        arith,
        again p.left w',
        again (saturating_add start x.limit - x.clock) (set_errno x.wait_errno w'),
      )

  message_loop-Within :
      (receiving : Bool) (vs vec : List Iovec) (xs : List Round) (start : ℕ) (p : Progress)
      (w : World) (m : ℕ)
      → At m p w
      → Within m (message_loop beyond receiving vs vec xs start p w)
  unfolding message_loop
  message_loop-Within receiving [] vec xs start p w m h = ground arith
  message_loop-Within receiving (v ∷ vs) vec xs start p w m h =
      let p' = record p { length = p.length + v.len } in
      let offset = p.moved - p.length in
      elim (Bool-cases (ltb (p.length + v.len) p.moved)) [
        | inl skip ↦ rw skip (
            message_loop-Within receiving vs vec xs start (record p' { index = p.index + 1 }) w m h)
        | inr stay ↦ rw stay (
            after_inner-Within m
              (message_fill beyond receiving vec xs start (drop p.index vec) offset p' w)
              (λ xs' q w'.
                message_loop beyond receiving vs vec xs' start (record q { index = next_index q })
                  w')
              (message_fill-Kept receiving vec xs start (drop p.index vec) offset p' w m h)
              (λ xs' q w' k.
                message_loop-Within receiving vs vec xs' start (record q { index = next_index q })
                  w' m k))
      ]

  -- A hooked sendmsg or recvmsg restores the descriptor's mode on every return, and never returns more
  -- than the number of bytes that its raw calls moved.
  pub hooked_messages-Bounded :
      (vec : List Iovec) (xs : List Round) (start limit : ℕ) (w : World)
      → Bounded w (nio_sendmsg beyond vec xs start limit w)
        × Bounded w (nio_recvmsg beyond vec xs start limit w)
  unfolding nio_sendmsg nio_recvmsg
  hooked_messages-Bounded vec xs start limit w = (
    while_non_blocking-Bounded w _ (λ w' f e.
        message_loop-Within false vec vec xs start (at_outset beyond limit) w' w.moved
          (f, omega arith, omega arith)),
    while_non_blocking-Bounded w _ (λ w' f e.
        message_loop-Within true vec vec xs start (at_outset beyond limit) w' w.moved
          (f, omega arith, omega arith)),
  )

  message_loop-strays :
      (receiving : Bool) (u v : Iovec) (x y : Round) (start limit : ℕ) (w : World)
      → w.flags ≡ known true
      → 0 < limit
      → 0 < u.len
      → 0 < v.len
      → x.reply ≡ moves u.len
      → y.reply ≡ fails 5
      → Latest (v ∷ beyond 1) (
          message_loop beyond receiving
            (u ∷ v ∷ [])
            (u ∷ v ∷ [])
            (x ∷ y ∷ [])
            start
            (at_outset beyond limit)
            w)
  unfolding message_loop
  message_loop-strays receiving u v x y start limit w f t l k a b =
      ground (arith, advance_if-zero (0 + u.len - (0 + u.len)) (v ∷ []) (omega arith))

  -- A hooked sendmsg or recvmsg on two buffers, neither of them empty, whose first raw call fills just
  -- the first one, and whose second raw call fails, has handed on what stands in memory behind its array
  -- of buffers as one more buffer in the second raw call.
  pub hooked_messages-strays :
      (u v : Iovec) (x y : Round) (start limit : ℕ) (w : World) (mode : Bool)
      → w.flags ≡ known mode
      → 0 < limit
      → 0 < u.len
      → 0 < v.len
      → x.reply ≡ moves u.len
      → y.reply ≡ fails 5
      → LastRequest (v ∷ beyond 1) (nio_sendmsg beyond (u ∷ v ∷ []) (x ∷ y ∷ []) start limit w)
        × LastRequest (v ∷ beyond 1) (nio_recvmsg beyond (u ∷ v ∷ []) (x ∷ y ∷ []) start limit w)
  unfolding nio_sendmsg nio_recvmsg
  hooked_messages-strays u v x y start limit w mode f t l k a b = (
    while_non_blocking-LastRequest (v ∷ beyond 1) mode w _ f
        (λ w' f'. message_loop-strays false u v x y start limit w' f' t l k a b),
    while_non_blocking-LastRequest (v ∷ beyond 1) mode w _ f
        (λ w' f'. message_loop-strays true u v x y start limit w' f' t l k a b),
  )

  -- A hooked recvmsg on two buffers, the first not empty, whose first raw call fills the first one and
  -- perhaps a part of the second, and whose second raw call reads 0 bytes, returns 0, the end of the
  -- stream, though it received bytes.
  pub nio_recvmsg-forgets :
      (u v : Iovec) (x y : Round) (xs : List Round) (start limit : ℕ) (w : World) (mode : Bool)
      (first : ℕ)
      → w.flags ≡ known mode
      → 0 < limit
      → 0 < u.len
      → u.len ≤ first
      → first < u.len + v.len
      → x.reply ≡ moves first
      → y.reply ≡ moves 0
      → Gives
          (bytes 0)
          (w.moved + first)
          (nio_recvmsg beyond (u ∷ v ∷ []) (x ∷ y ∷ xs) start limit w)
  unfolding nio_recvmsg
  nio_recvmsg-forgets u v x y xs start limit w mode first f t l b c a e = ground arith

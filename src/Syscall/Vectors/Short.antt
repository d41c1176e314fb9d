-- ===== src/Syscall/Vectors/Short.antt =====
-- What becomes of a hooked call on two buffers that the kernel serves in several pieces.
use mathlib.Core.Path.{subst}
use open_coroutine.Prelude.{
  ℕ, ◌+◌, ◌-◌, ◌*◌, ◌%◌, refl, ◌≤◌, ◌<◌, ◌≡◌, Bool, true, List, [], ◌∷◌, arith,
}
use open_coroutine.Time.{saturating_add}
use open_coroutine.Syscall.World.{
  known, Iovec, Round, World, moves, fails, bytes, Outcome, returned, Gives, while_non_blocking,
}
use open_coroutine.Syscall.Vectors.{
  advance, advance_if, at_start, read_iovec_loop, write_iovec_loop, nio_read_iovec, nio_write_iovec,
}

pub advance_if-zero : (n : ℕ) (arg : List Iovec) → n ≡ 0 → advance_if n arg ≡ arg
unfolding advance_if
advance_if-zero n arg h = ground (arith, h)

abbrev pub Newest : List Iovec → List (List Iovec) → Type 0
Newest iov [] = ⊥
Newest iov (q ∷ qs) = q ≡ iov

-- The buffers that the newest raw call was given, in a call that has returned.
abbrev pub LastRequest : List Iovec → Outcome → Type 0
LastRequest iov (returned r w) = Newest iov w.requests
LastRequest iov _ = ⊥

-- The same inside the loop, where the descriptor is non-blocking.
abbrev pub Latest : List Iovec → Outcome → Type 0
Latest iov (returned r w) = (w.flags ≡ known true) × Newest iov w.requests
Latest iov _ = ⊥

pub while_non_blocking-LastRequest :
    (iov : List Iovec) (mode : Bool) (w : World) (body : World → Outcome)
    → w.flags ≡ known mode
    → ((w' : World) → w'.flags ≡ known true → Latest iov (body w'))
    → LastRequest iov (while_non_blocking w body)
unfolding while_non_blocking
while_non_blocking-LastRequest iov mode w body f h =
    ground (arith, h w, h (record w { flags = known true }))

-- A short read over two buffers is under-reported: where the first raw call fills the first buffer and
-- perhaps a part of the second, and the second raw call moves `n` more bytes, at least 1, that leave
-- the second buffer short, the hooked call returns `n` alone, though it read both counts.
pub nio_read_iovec-short :
    (u v : Iovec) (x y : Round) (xs : List Round) (start limit : ℕ) (w : World) (mode : Bool)
    (first n : ℕ)
    → w.flags ≡ known mode
    → 0 < limit
    → 0 < u.len
    → x.reply ≡ moves first
    → y.reply ≡ moves n
    → u.len ≤ first
    → 0 < n
    → first + n < u.len + v.len
    → Gives
        (bytes n)
        (w.moved + first + n)
        (nio_read_iovec true (u ∷ v ∷ []) (x ∷ y ∷ xs) start limit w)
unfolding nio_read_iovec
nio_read_iovec-short u v x y xs start limit w mode first n f t l e d a b c = ground arith

read_iovec_loop-skips :
    (u v : Iovec) (x y z : Round) (start limit : ℕ) (w : World) (k : ℕ)
    → w.flags ≡ known true
    → 0 < limit
    → 0 < u.len
    → x.reply ≡ moves (u.len + k)
    → 0 < k
    → k < v.len
    → y.reply ≡ fails 11
    → y.wait_ok ≡ true
    → y.clock < saturating_add start y.limit
    → z.reply ≡ fails 5
    → Latest
        (advance k (advance k (v ∷ [])))
        (read_iovec_loop (u ∷ v ∷ []) (u ∷ v ∷ []) (x ∷ y ∷ z ∷ []) start (at_start limit) w)
unfolding read_iovec_loop advance
read_iovec_loop-skips u v x y z start limit w k f t l e a b d o g c = ground arith

-- The buffer of a read that is tried again is moved on twice: the first raw call fills the first buffer
-- and `k` bytes of the second, 1 at least; the second finds the socket not ready, and the wait
-- succeeds in time. The third raw call is given the second buffer moved on by `k` twice.
pub nio_read_iovec-skips :
    (u v : Iovec) (x y z : Round) (start limit : ℕ) (w : World) (mode : Bool) (k : ℕ)
    → w.flags ≡ known mode
    → 0 < limit
    → 0 < u.len
    → x.reply ≡ moves (u.len + k)
    → 0 < k
    → k < v.len
    → y.reply ≡ fails 11
    → y.wait_ok ≡ true
    → y.clock < saturating_add start y.limit
    → z.reply ≡ fails 5
    → LastRequest
        (advance k (advance k (v ∷ [])))
        (nio_read_iovec true (u ∷ v ∷ []) (x ∷ y ∷ z ∷ []) start limit w)
unfolding nio_read_iovec
nio_read_iovec-skips u v x y z start limit w mode k f t l e a b d o g c =
    while_non_blocking-LastRequest (advance k (advance k (v ∷ []))) mode w
      (read_iovec_loop (u ∷ v ∷ []) (u ∷ v ∷ []) (x ∷ y ∷ z ∷ []) start (at_start limit)) f
      (λ w' f'. read_iovec_loop-skips u v x y z start limit w' k f' t l e a b d o g c)

-- A short write over two buffers is under-reported: where the first raw call fills the first buffer and
-- perhaps a part of the second, and the second raw call moves `n` more bytes, at least 1, that leave
-- the second buffer short, the hooked call returns `n` alone, though it wrote both counts.
pub nio_write_iovec-short :
    (u v : Iovec) (x y : Round) (xs : List Round) (start limit : ℕ) (w : World) (mode : Bool)
    (first n : ℕ)
    → w.flags ≡ known mode
    → 0 < limit
    → 0 < u.len
    → x.reply ≡ moves first
    → y.reply ≡ moves n
    → u.len ≤ first
    → 0 < n
    → first + n < u.len + v.len
    → Gives
        (bytes n)
        (w.moved + first + n)
        (nio_write_iovec true (u ∷ v ∷ []) (x ∷ y ∷ xs) start limit w)
unfolding nio_write_iovec
nio_write_iovec-short u v x y xs start limit w mode first n f t l e d a b c = ground arith

write_iovec_loop-skips :
    (u v : Iovec) (x y z : Round) (start limit : ℕ) (w : World) (k : ℕ)
    → w.flags ≡ known true
    → 0 < limit
    → 0 < u.len
    → x.reply ≡ moves (u.len + k)
    → 0 < k
    → k < v.len
    → y.reply ≡ fails 11
    → y.wait_ok ≡ true
    → y.clock < saturating_add start y.limit
    → z.reply ≡ fails 5
    → Latest
        (advance k (advance k (v ∷ [])))
        (write_iovec_loop (u ∷ v ∷ []) (u ∷ v ∷ []) (x ∷ y ∷ z ∷ []) start (at_start limit) w)
unfolding write_iovec_loop advance
write_iovec_loop-skips u v x y z start limit w k f t l e a b d o g c = ground arith

-- The buffer of a write that is tried again is moved on twice: the first raw call fills the first buffer
-- and `k` bytes of the second, 1 at least; the second finds the socket not ready, and the wait
-- succeeds in time. The third raw call is given the second buffer moved on by `k` twice.
pub nio_write_iovec-skips :
    (u v : Iovec) (x y z : Round) (start limit : ℕ) (w : World) (mode : Bool) (k : ℕ)
    → w.flags ≡ known mode
    → 0 < limit
    → 0 < u.len
    → x.reply ≡ moves (u.len + k)
    → 0 < k
    → k < v.len
    → y.reply ≡ fails 11
    → y.wait_ok ≡ true
    → y.clock < saturating_add start y.limit
    → z.reply ≡ fails 5
    → LastRequest
        (advance k (advance k (v ∷ [])))
        (nio_write_iovec true (u ∷ v ∷ []) (x ∷ y ∷ z ∷ []) start limit w)
unfolding nio_write_iovec
nio_write_iovec-skips u v x y z start limit w mode k f t l e a b d o g c =
    while_non_blocking-LastRequest (advance k (advance k (v ∷ []))) mode w
      (write_iovec_loop (u ∷ v ∷ []) (u ∷ v ∷ []) (x ∷ y ∷ z ∷ []) start (at_start limit)) f
      (λ w' f'. write_iovec_loop-skips u v x y z start limit w' k f' t l e a b d o g c)

-- A short read or write over two buffers is under-reported: where the first raw call fills the first
-- buffer and perhaps a part of the second, and the second raw call moves `n` more bytes, at least 1,
-- that leave the second buffer short, the hooked call returns `n` alone, though it moved both counts.
pub hooked_vectors-short :
    (u v : Iovec) (x y : Round) (xs : List Round) (start limit : ℕ) (w : World) (mode : Bool)
    (first n : ℕ)
    → w.flags ≡ known mode
    → 0 < limit
    → 0 < u.len
    → x.reply ≡ moves first
    → y.reply ≡ moves n
    → u.len ≤ first
    → 0 < n
    → first + n < u.len + v.len
    → Gives
        (bytes n)
        (w.moved + first + n)
        (nio_read_iovec true (u ∷ v ∷ []) (x ∷ y ∷ xs) start limit w)
      × Gives
          (bytes n)
          (w.moved + first + n)
          (nio_write_iovec true (u ∷ v ∷ []) (x ∷ y ∷ xs) start limit w)
hooked_vectors-short u v x y xs start limit w mode first n f t l e d a b c = (
  nio_read_iovec-short u v x y xs start limit w mode first n f t l e d a b c,
  nio_write_iovec-short u v x y xs start limit w mode first n f t l e d a b c,
)

advance_twice :
    (v : Iovec) (k : ℕ)
    → 2 * k ≤ v.len
    → v.len < 18446744073709551616
    → advance k (advance k (v ∷ [])) ≡ record { base = v.base + 2 * k; len = v.len - 2 * k } ∷ []
unfolding advance
advance_twice v k h b =
    let first : (v.len + 18446744073709551616 - k) % 18446744073709551616 ≡ v.len - k =
      omega (arith, h, b) in
    let second : (v.len - k + 18446744073709551616 - k) % 18446744073709551616 ≡ v.len - 2 * k =
      omega (arith, h, b) in
    let base : v.base + k + k ≡ v.base + 2 * k = omega arith in rw (first, second, base) refl

-- The buffer of a read or write that is tried again is moved on twice: the first raw call fills the
-- first buffer and `k` bytes of the second, 1 at least; the second finds the socket not ready, and the
-- wait succeeds in time. The third raw call, which ends the call with EIO, is given what lies `2 * k`
-- bytes into the second buffer, and not `k`; where the second buffer has as many bytes.
pub hooked_vectors-skips :
    (u v : Iovec) (x y z : Round) (start limit : ℕ) (w : World) (mode : Bool) (k : ℕ)
    → w.flags ≡ known mode
    → 0 < limit
    → 0 < u.len
    → x.reply ≡ moves (u.len + k)
    → 0 < k
    → 2 * k ≤ v.len
    → v.len < 18446744073709551616
    → y.reply ≡ fails 11
    → y.wait_ok ≡ true
    → y.clock < saturating_add start y.limit
    → z.reply ≡ fails 5
    → LastRequest
        (record { base = v.base + 2 * k; len = v.len - 2 * k } ∷ [])
        (nio_read_iovec true (u ∷ v ∷ []) (x ∷ y ∷ z ∷ []) start limit w)
      × LastRequest
          (record { base = v.base + 2 * k; len = v.len - 2 * k } ∷ [])
          (nio_write_iovec true (u ∷ v ∷ []) (x ∷ y ∷ z ∷ []) start limit w)
hooked_vectors-skips u v x y z start limit w mode k f t l e a b m d o g c =
    let twice = advance_twice v k b m in
    let inside : k < v.len = omega (arith, a, b) in
    (
      subst
          (λ iov. LastRequest iov (nio_read_iovec true (u ∷ v ∷ []) (x ∷ y ∷ z ∷ []) start limit w))
          twice (nio_read_iovec-skips u v x y z start limit w mode k f t l e a inside d o g c),
      subst
          (λ iov.
            LastRequest iov (nio_write_iovec true (u ∷ v ∷ []) (x ∷ y ∷ z ∷ []) start limit w))
          twice (nio_write_iovec-skips u v x y z start limit w mode k f t l e a inside d o g c),
    )

-- ===== src/Syscall/Vectors/Counts.antt =====
-- The descriptor's mode after a hooked call on several buffers, and a bound on the count that it
-- returns.
use open_coroutine.Prelude.{
  ℕ, ◌+◌, ◌-◌, ◌≤◌, ◌≡◌, Bool, true, false, List, [], ◌∷◌, arith, drop, ltb, Bool-cases, inl, inr,
}
use open_coroutine.Time.{saturating_add}
use open_coroutine.Syscall.World.{
  known, Iovec, Round, World, minus_one, Outcome, count, Returns, while_non_blocking, call,
  set_errno,
}
use open_coroutine.Syscall.Buffers.{raw}
use open_coroutine.Syscall.Vectors.{
  Progress, Inner, leaves, early, starved, after_inner, next_index, advance_if, at_start,
  read_iovec_fill, read_iovec_loop, nio_read_iovec, write_iovec_fill, write_iovec_loop,
  nio_write_iovec,
}

-- A return leaves the descriptor's mode as it was, and its count is at most the bytes moved.
abbrev pub Bounded : World → Outcome → Type 0
Bounded w0 = Returns λ r w. (w.flags ≡ w0.flags) × (w0.moved + count r ≤ w.moved)

abbrev pub Within : ℕ → Outcome → Type 0
Within m = Returns λ r w. (w.flags ≡ known true) × (m + count r ≤ w.moved)

-- What holds at the head of both loops, `m` bytes being moved before the call.
abbrev pub At : ℕ → Progress → World → Type 0
At m p w = (w.flags ≡ known true) × (w.moved ≡ m + p.moved) × (count p.r ≤ p.moved)

abbrev pub Kept : ℕ → Inner → Type 0
Kept m (leaves xs p w) = At m p w
Kept m (early r w) = (w.flags ≡ known true) × (m + count r ≤ w.moved)
Kept m (starved w) = Unit

pub after_inner-Within :
    (m : ℕ) (i : Inner) (next : List Round → Progress → World → Outcome)
    → Kept m i
    → ((xs : List Round) (q : Progress) (w : World) → At m q w → Within m (next xs q w))
    → Within m (after_inner i next)
unfolding after_inner
after_inner-Within m (leaves xs q w) next k h = h xs q w k
after_inner-Within m (early r w) next k h = k
after_inner-Within m (starved w) next k h = k

pub while_non_blocking-Bounded :
    (w : World) (body : World → Outcome)
    → ((w' : World) → w'.flags ≡ known true → w'.moved ≡ w.moved → Within w.moved (body w'))
    → Bounded w (while_non_blocking w body)
unfolding while_non_blocking
while_non_blocking-Bounded w body h = ground (arith, h w, h (record w { flags = known true }))

raw-Bounded : (iov : List Iovec) (xs : List Round) (w : World) → Bounded w (raw iov xs w)
unfolding raw
raw-Bounded iov [] w = tt
raw-Bounded iov (x ∷ xs) w = ground arith

read_iovec_fill-Kept :
    (xs : List Round) (start stage : ℕ) (arg : List Iovec) (offset : ℕ) (p : Progress) (w : World)
    (m : ℕ)
    → At m p w
    → Kept m (read_iovec_fill xs start stage arg offset p w)
unfolding read_iovec_fill
read_iovec_fill-Kept [] start stage arg offset p w m h = ground arith
read_iovec_fill-Kept (x ∷ xs) start stage arg offset p w m h =
    let arg' = advance_if offset arg in
    let w' = (call arg' x.reply w).1 in
    let again = λ (left : ℕ) (u : World).
      read_iovec_fill-Kept xs start stage arg' offset (record p { r = minus_one; left = left }) u
        m in
    ground (
      arith,
      again p.left w',
      again (saturating_add start x.limit - x.clock) (set_errno x.wait_errno w'),
    )

read_iovec_loop-Within :
    (vs vec : List Iovec) (xs : List Round) (start : ℕ) (p : Progress) (w : World) (m : ℕ)
    → At m p w
    → Within m (read_iovec_loop vs vec xs start p w)
unfolding read_iovec_loop
read_iovec_loop-Within [] vec xs start p w m h = ground arith
read_iovec_loop-Within (v ∷ vs) vec xs start p w m h =
    let p' = record p { length = p.length + v.len } in
    elim (Bool-cases (ltb (p.length + v.len) p.moved)) [
      | inl skip ↦
          rw skip (read_iovec_loop-Within vs vec xs start (record p' { index = p.index + 1 }) w m h)
      | inr stay ↦ rw stay (
          after_inner-Within m
            (read_iovec_fill xs start p.length (drop p.index vec) (p.moved - p.length) p' w)
            (λ xs' q w'. read_iovec_loop vs vec xs' start (record q { index = next_index q }) w')
            (read_iovec_fill-Kept xs start p.length (drop p.index vec) (p.moved - p.length) p' w m
              h)
            (λ xs' q w' k.
              read_iovec_loop-Within vs vec xs' start (record q { index = next_index q }) w' m k))
    ]

-- A hooked read of several buffers restores the descriptor's mode on every return, and never returns
-- more than the number of bytes that its raw calls read.
pub nio_read_iovec-Bounded :
    (is_socket : Bool) (vec : List Iovec) (xs : List Round) (start limit : ℕ) (w : World)
    → Bounded w (nio_read_iovec is_socket vec xs start limit w)
unfolding nio_read_iovec
nio_read_iovec-Bounded true vec xs start limit w = while_non_blocking-Bounded w _ λ w' f e.
    read_iovec_loop-Within vec vec xs start (at_start limit) w' w.moved
      (f, omega arith, omega arith)
nio_read_iovec-Bounded false vec xs start limit w = raw-Bounded vec xs w

write_iovec_fill-Kept :
    (xs : List Round) (start stage : ℕ) (arg : List Iovec) (offset : ℕ) (p : Progress) (w : World)
    (m : ℕ)
    → At m p w
    → Kept m (write_iovec_fill xs start stage arg offset p w)
unfolding write_iovec_fill
write_iovec_fill-Kept [] start stage arg offset p w m h = ground arith
write_iovec_fill-Kept (x ∷ xs) start stage arg offset p w m h =
    let arg' = advance_if offset arg in
    let w' = (call arg' x.reply w).1 in
    let again = λ (left : ℕ) (u : World).
      write_iovec_fill-Kept xs start stage arg' offset (record p { r = minus_one; left = left }) u
        m in
    ground (
      arith,
      again p.left w',
      again (saturating_add start x.limit - x.clock) (set_errno x.wait_errno w'),
    )

write_iovec_loop-Within :
    (vs vec : List Iovec) (xs : List Round) (start : ℕ) (p : Progress) (w : World) (m : ℕ)
    → At m p w
    → Within m (write_iovec_loop vs vec xs start p w)
unfolding write_iovec_loop
write_iovec_loop-Within [] vec xs start p w m h = ground arith
write_iovec_loop-Within (v ∷ vs) vec xs start p w m h =
    let p' = record p { length = p.length + v.len } in
    elim (Bool-cases (ltb (p.length + v.len) p.moved)) [
      | inl skip ↦
          rw skip
            (write_iovec_loop-Within vs vec xs start (record p' { index = p.index + 1 }) w m h)
      | inr stay ↦ rw stay (
          after_inner-Within m
            (write_iovec_fill xs start p.length (drop p.index vec) (p.moved - p.length) p' w)
            (λ xs' q w'. write_iovec_loop vs vec xs' start (record q { index = next_index q }) w')
            (write_iovec_fill-Kept xs start p.length (drop p.index vec) (p.moved - p.length) p' w m
              h)
            (λ xs' q w' k.
              write_iovec_loop-Within vs vec xs' start (record q { index = next_index q }) w' m k))
    ]

-- A hooked write of several buffers restores the descriptor's mode on every return, and never returns
-- more than the number of bytes that its raw calls wrote.
pub nio_write_iovec-Bounded :
    (is_socket : Bool) (vec : List Iovec) (xs : List Round) (start limit : ℕ) (w : World)
    → Bounded w (nio_write_iovec is_socket vec xs start limit w)
unfolding nio_write_iovec
nio_write_iovec-Bounded true vec xs start limit w = while_non_blocking-Bounded w _ λ w' f e.
    write_iovec_loop-Within vec vec xs start (at_start limit) w' w.moved
      (f, omega arith, omega arith)
nio_write_iovec-Bounded false vec xs start limit w = raw-Bounded vec xs w

-- A hooked read or write of several buffers restores the descriptor's mode on every return, and never
-- returns more than the number of bytes that its raw calls moved.
pub hooked_vectors-Bounded :
    (is_socket : Bool) (vec : List Iovec) (xs : List Round) (start limit : ℕ) (w : World)
    → Bounded w (nio_read_iovec is_socket vec xs start limit w)
      × Bounded w (nio_write_iovec is_socket vec xs start limit w)
hooked_vectors-Bounded is_socket vec xs start limit w = (
  nio_read_iovec-Bounded is_socket vec xs start limit w,
  nio_write_iovec-Bounded is_socket vec xs start limit w,
)

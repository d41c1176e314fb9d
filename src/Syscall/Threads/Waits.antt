-- ===== src/Syscall/Threads/Waits.antt =====
-- core/src/syscall/unix/pthread_cond_timedwait.rs and pthread_mutex_lock.rs: when the calls return, and
-- what they return.
use open_coroutine.Prelude.{
  ℕ, ◌+◌, ◌-◌, ◌≤◌, ◌≡◌, ◌≢◌, ◌⊎◌, Bool, true, false, Option, some, List, [], ◌∷◌, ◌++◌, ◌/◌, ◌%◌,
  zero, suc, arith, inl, inr, replicate,
}
use open_coroutine.Time.{saturating_add}
use open_coroutine.Syscall.Threads.{
  Timespec, CondRound, Act, raw_until, waits, CondOutcome, returned, pending, wait_time,
  abstimeout_of, timedwait_loop, nio_timedwait, LockRound, lock_loop,
}

-- A clock reading has reached the deadline.
abbrev pub IsOver : ℕ → CondRound → Type 0
IsOver deadline x = (deadline ≤ x.now) ⊎ (deadline ≤ x.now_after)

abbrev pub AnyRound : (CondRound → Type 0) → List CondRound → Type 0
AnyRound P [] = ⊥
AnyRound P (x ∷ xs) = P x ⊎ AnyRound P xs

-- Why the call may answer `r`: the raw call did, with no time-out; or it is ETIMEDOUT, and a reading has
-- reached the deadline or a wait on the event loop failed.
abbrev pub IsGround : ℕ → ℕ → CondRound → Type 0
IsGround deadline r x =
    ((x.reply ≡ r) × (r ≢ 110)) ⊎ ((r ≡ 110) × (IsOver deadline x ⊎ (x.wait_ok ≡ false)))

abbrev pub IsGrounded : ℕ → List CondRound → CondOutcome → Type 0
IsGrounded deadline xs (returned r acts) = AnyRound (IsGround deadline r) xs
IsGrounded deadline xs (pending acts) = Unit

Grounded-later :
    (deadline : ℕ) (x : CondRound) (xs : List CondRound) (o : CondOutcome)
    → IsGrounded deadline xs o
    → IsGrounded deadline (x ∷ xs) o
Grounded-later deadline x xs (returned r acts) h = inr h
Grounded-later deadline x xs (pending acts) h = tt

timedwait_loop-IsGrounded :
    (deadline : ℕ) (xs : List CondRound) (acts : List Act)
    → IsGrounded deadline xs (timedwait_loop deadline xs acts)
unfolding timedwait_loop
timedwait_loop-IsGrounded deadline [] acts = tt
timedwait_loop-IsGrounded deadline (x ∷ xs) acts =
    let next_timeout = saturating_add x.now_at_call (wait_time (deadline - x.now)) in
    let acts' =
      waits (wait_time (deadline - x.now_after))
      ∷ raw_until (next_timeout / 1_000_000_000) (next_timeout % 1_000_000_000)
      ∷ acts in
    ground (
      arith,
      Grounded-later deadline x xs (timedwait_loop deadline xs acts')
          (timedwait_loop-IsGrounded deadline xs acts'),
    )

-- A hooked pthread_cond_timedwait off the monitor's thread, until a valid time, answers what a raw call
-- answers that did not time out, or ETIMEDOUT; and that only where a reading of the clock has reached
-- the time or a wait on the event loop has failed.
pub nio_timedwait-IsGrounded :
    (raw deadline : ℕ) (abstime : Option Timespec) (xs : List CondRound)
    → abstimeout_of abstime ≡ some deadline
    → IsGrounded deadline xs (nio_timedwait false raw abstime xs)
unfolding nio_timedwait
nio_timedwait-IsGrounded raw deadline abstime xs e =
    ground (arith, e, timedwait_loop-IsGrounded deadline xs [])

abbrev pub IsPending : CondOutcome → Type 0
IsPending (pending acts) = Unit
IsPending (returned r acts) = ⊥

timedwait_loop-ends :
    (deadline : ℕ) (xs : List CondRound) (acts : List Act)
    → AnyRound (λ x. deadline ≤ x.now) xs
    → ¬ IsPending (timedwait_loop deadline xs acts)
unfolding timedwait_loop
timedwait_loop-ends deadline [] acts late p = late
timedwait_loop-ends deadline (x ∷ xs) acts (inl late) p = ground arith
timedwait_loop-ends deadline (x ∷ xs) acts (inr late) p =
    let next_timeout = saturating_add x.now_at_call (wait_time (deadline - x.now)) in
    let acts' =
      waits (wait_time (deadline - x.now_after))
      ∷ raw_until (next_timeout / 1_000_000_000) (next_timeout % 1_000_000_000)
      ∷ acts in
    ground (arith, timedwait_loop-ends deadline xs acts' late)

-- A hooked pthread_cond_timedwait until a valid time returns no later than at the first round that
-- begins when the clock has reached the time.
pub nio_timedwait-ends :
    (from_monitor : Bool) (raw deadline : ℕ) (abstime : Option Timespec) (xs : List CondRound)
    → abstimeout_of abstime ≡ some deadline
    → AnyRound (λ x. deadline ≤ x.now) xs
    → ¬ IsPending (nio_timedwait from_monitor raw abstime xs)
unfolding nio_timedwait
nio_timedwait-ends from_monitor raw deadline abstime xs e late p =
    ground (arith, e, timedwait_loop-ends deadline xs [] late)

-- A hooked pthread_mutex_lock of a coroutine that finds the mutex busy `n` times, each time with a wait
-- that succeeds, and then gets the answer `r`, returns `r` after `n` waits; the mutex is taken where `r`
-- is 0.
lock_loop-replicate :
    (n m r : ℕ) (ok : Bool) (xs : List LockRound)
    → r ≢ 16
    → lock_loop
        (replicate n (record { reply = 16; wait_ok = true })
          ++ record { reply = r; wait_ok = ok } ∷ xs)
        m
      ≡ some (r, m + n)
unfolding lock_loop
lock_loop-replicate zero m r ok xs ne = ground arith
lock_loop-replicate (suc n) m r ok xs ne = ground (arith, lock_loop-replicate n (m + 1) r ok xs ne)

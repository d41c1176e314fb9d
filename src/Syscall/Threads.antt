-- ===== src/Syscall/Threads.antt =====
-- core/src/syscall/unix/pthread_cond_timedwait.rs and pthread_mutex_lock.rs. A round of a loop meets the
-- readings of the clock, the answer of the raw call, and whether the wait on the event loop succeeds; a
-- script that ends before the call returns leaves it pending.
pub mod Waits
mod Examples
use open_coroutine.Prelude.{
  ℕ, ◌+◌, ◌-◌, ◌*◌, ◌/◌, ◌%◌, Bool, true, false, not, Option, none, some, List, [], ◌∷◌, ◌||◌, ltb,
  leb, ◌==◌, if◌then◌else◌,
}
use open_coroutine.Time.{u64_max, saturating_add}
use open_coroutine.Syscall.Polling.{ℤ, pos, negsuc}

pub record Timespec : Type 0 where
  pub tv_sec : ℤ
  pub tv_nsec : ℤ

pub record CondRound : Type 0 where
  pub now : ℕ
  pub now_at_call : ℕ
  pub reply : ℕ
  pub now_after : ℕ
  pub wait_ok : Bool

-- What the call does: a raw call with a deadline in seconds and ns, or a wait of some ns.
pub data Act : Type 0 where
  raw_until : ℕ → ℕ → Act
  waits : ℕ → Act

-- `acts` are newest first.
pub data CondOutcome : Type 0 where
  returned : ℕ → List Act → CondOutcome
  pending : List Act → CondOutcome

-- The inner function `wait_time`.
unfoldable pub wait_time : ℕ → ℕ
wait_time left_time = if ltb 10_000_000 left_time then 10_000_000 else left_time

-- `u64::try_from(Duration::new(…).as_nanos()).unwrap_or(u64::MAX)`
unfoldable pub deadline_of : ℕ → ℕ → ℕ
deadline_of sec nsec =
    let nanos = sec * 1_000_000_000 + nsec in if leb nanos u64_max then nanos else u64_max

-- `none` is EINVAL.
unfoldable pub abstimeout_of : Option Timespec → Option ℕ
unfolding deadline_of
abstimeout_of none = some u64_max
abstimeout_of (some t) = elim t.tv_sec [
  | negsuc n ↦ none
  | pos sec ↦ elim t.tv_nsec [
    | negsuc n ↦ none
    | pos nsec ↦ if ltb 999_999_999 nsec then none else some (deadline_of sec nsec)
  ]
]

-- The loop; ETIMEDOUT is 110.
unfoldable pub timedwait_loop : ℕ → List CondRound → List Act → CondOutcome
unfolding wait_time
timedwait_loop abstimeout [] acts = pending acts
timedwait_loop abstimeout (x ∷ xs) acts =
    let left_time = abstimeout - x.now in
    let next_timeout = saturating_add x.now_at_call (wait_time left_time) in
    let called = raw_until (next_timeout / 1_000_000_000) (next_timeout % 1_000_000_000) ∷ acts in
    let left_after = abstimeout - x.now_after in
    let waited = waits (wait_time left_after) ∷ called in
    let again = timedwait_loop abstimeout xs waited in
    if left_time == 0
    then returned 110 acts
    else (if not (x.reply == 110)
        then returned x.reply called
        else (if left_after == 0
            then returned 110 called
            else (if x.wait_ok then again else returned x.reply waited)))

-- `from_monitor`: the monitor's thread makes the raw call alone, which answers `raw`. EINVAL is 22.
unfoldable pub nio_timedwait : Bool → ℕ → Option Timespec → List CondRound → CondOutcome
unfolding abstimeout_of timedwait_loop
nio_timedwait from_monitor raw abstime xs =
    if from_monitor then returned raw [] else elim (abstimeout_of abstime) [
      | none ↦ returned 22 []
      | some abstimeout ↦ timedwait_loop abstimeout xs []
    ]

-- A round of the hooked pthread_mutex_lock: what trylock answers, and whether the wait succeeds.
pub record LockRound : Type 0 where
  pub reply : ℕ
  pub wait_ok : Bool

-- The loop of a coroutine; EBUSY is 16. The number counts the waits of 10 ms.
unfoldable pub lock_loop : List LockRound → ℕ → Option (ℕ × ℕ)
lock_loop [] n = none
lock_loop (x ∷ xs) n =
    let again = lock_loop xs (n + 1) in
    if x.reply == 0 || not (x.reply == 16)
    then some (x.reply, n)
    else (if x.wait_ok then again else some (x.reply, n + 1))

unfoldable pub nio_mutex_lock : Bool → ℕ → List LockRound → Option (ℕ × ℕ)
unfolding lock_loop
nio_mutex_lock in_coroutine raw xs = if in_coroutine then lock_loop xs 0 else some (raw, 0)

-- ===== src/Syscall/Threads/Examples.antt =====
-- Runs of the hooked pthread calls, and the theorems at concrete inputs.
use open_coroutine.Prelude.{ℕ, ◌+◌, ◌≡◌, true, false, some, List, [], ◌∷◌, refl, arith, inl, inr}
use open_coroutine.Syscall.Polling.{pos}
use open_coroutine.Syscall.Threads.{
  Timespec, CondRound, raw_until, waits, returned, abstimeout_of, nio_timedwait,
}
use open_coroutine.Syscall.Threads.Waits.{
  IsGrounded, IsPending, nio_timedwait-IsGrounded, nio_timedwait-ends,
}

-- 1.03 s.
abbrev until : Timespec
until = record { tv_sec = pos 1; tv_nsec = pos 30_000_000 }

abbrev round : ℕ → ℕ → CondRound
round now reply = record {
  now = now;
  now_at_call = now;
  reply = reply;
  now_after = now + 10_000_000;
  wait_ok = true;
}

-- Two raw calls in vain; then the time is over.
abbrev vain : List CondRound
vain = round 1_000_000_000 110 ∷ round 1_015_000_000 110 ∷ round 1_030_000_000 110 ∷ []

vain_runs :
    nio_timedwait false 0 (some until) vain
    ≡ returned 110
        (waits 5_000_000 ∷ raw_until 1 25_000_000 ∷ waits 10_000_000 ∷ raw_until 1 10_000_000 ∷ [])
unfolding nio_timedwait
vain_runs = refl

nio_timedwait-IsGrounded_example :
    IsGrounded 1_030_000_000 vain (nio_timedwait false 0 (some until) vain)
unfolding abstimeout_of
nio_timedwait-IsGrounded_example = nio_timedwait-IsGrounded 0 1_030_000_000 (some until) vain refl

nio_timedwait-ends_example : ¬ IsPending (nio_timedwait false 0 (some until) vain)
unfolding abstimeout_of
nio_timedwait-ends_example =
    nio_timedwait-ends false 0 1_030_000_000 (some until) vain refl (inr (inr (inl (omega arith))))

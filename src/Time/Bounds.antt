-- ===== src/Time/Bounds.antt =====
-- The range of deadlines and limits.
use open_coroutine.Prelude.{ℕ, ◌+◌, ◌*◌, ◌-◌, ◌≤◌, ◌<◌, ◌≡◌, min, arith, ◌==◌, if◌then◌else◌}
use open_coroutine.Time.{u64_max, get_timeout_time, get_time_limit}

-- A deadline is a u64, is not before the clock, and what is left until it, read off at the same
-- clock, is the duration cut at what the range of u64 leaves above the clock.
pub get_timeout_time-left :
    (dur clock : ℕ)
    → clock ≤ u64_max
    → (clock ≤ get_timeout_time dur clock)
      × (get_timeout_time dur clock ≤ u64_max)
      × (get_timeout_time dur clock - clock ≡ min dur (u64_max - clock))
unfolding get_timeout_time
get_timeout_time-left dur clock h = ground arith

-- A time limit is a positive u64: the number of ns, cut at the greatest u64, and that greatest u64
-- where the number is 0.
pub get_time_limit-exact :
    (tv_sec tv_usec : ℕ)
    → let exact = tv_sec * 1_000_000_000 + tv_usec * 1_000 in
      (get_time_limit tv_sec tv_usec ≡ (if exact == 0 then u64_max else min exact u64_max))
      × (0 < get_time_limit tv_sec tv_usec)
unfolding get_time_limit
get_time_limit-exact tv_sec tv_usec = ground arith

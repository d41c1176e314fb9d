-- ===== src/Time.antt =====
-- core/src/common/mod.rs and core/src/syscall/unix/mod.rs: time stamps in ns as u64 values, and the
-- slicing of a duration. `saturating_sub` of the source is `-` on ℕ, which stops at 0.
pub mod Bounds
pub mod Slices
mod Examples
use open_coroutine.Prelude.{
  ℕ, zero, suc, ◌+◌, ◌-◌, ◌*◌, ◌^◌, min, List, [], ◌∷◌, ◌++◌, Option, none, some, leb, ltb, ◌==◌,
  if◌then◌else◌,
}

-- `u64::MAX`, also `usize::MAX` on a 64-bit target.
abbrev pub u64_max : ℕ
u64_max = 18446744073709551615

abbrev pub saturating_add : ℕ → ℕ → ℕ
saturating_add a b = min (a + b) u64_max

abbrev pub saturating_mul : ℕ → ℕ → ℕ
saturating_mul a b = min (a * b) u64_max

-- `SLICE`, 10 ms in ns.
abbrev pub slice_ns : ℕ
slice_ns = 10_000_000

-- `dur.as_nanos()` is a u128 and may not fit; `clock` is what `now()` answers.
unfoldable pub get_timeout_time : ℕ → ℕ → ℕ
get_timeout_time dur clock = if leb dur u64_max then saturating_add dur clock else u64_max

-- A `timeval` with fields that are not negative, in ns; 0 means no limit.
unfoldable pub get_time_limit : ℕ → ℕ → ℕ
get_time_limit tv_sec tv_usec =
    let time_limit =
      saturating_add (saturating_mul tv_sec 1_000_000_000) (saturating_mul tv_usec 1_000) in
    if time_limit == 0 then u64_max else time_limit

-- The `while` loop of `get_slices` and the push after it. `none`: the fuel ran out.
slices_loop : ℕ → ℕ → ℕ → List ℕ → Option (List ℕ)
slices_loop zero left slice result = none
slices_loop (suc fuel) left slice result =
    let again = slices_loop fuel (left - slice) slice (result ++ slice ∷ []) in
    if ltb slice left then again else some (result ++ left ∷ [])

unfoldable pub get_slices : ℕ → ℕ → ℕ → Option (List ℕ)
unfolding slices_loop
get_slices fuel total slice = if total == 0 then some [] else slices_loop fuel total slice []

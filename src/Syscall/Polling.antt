-- ===== src/Syscall/Polling.antt =====
-- core/src/syscall/unix/poll.rs and select.rs: the calls that ask the kernel without
-- waiting, and wait on the event loop in between. The raw calls' answers are given as a script; `none`
-- means that it ended before the call returned. `waits` collects what `wait_event` is asked for, in ns.
pub mod Waits
use open_coroutine.Prelude.{
  ℕ, ◌+◌, ◌-◌, ◌*◌, min, Bool, true, false, not, List, [], ◌∷◌, ◌++◌, ◌||◌, Option, none, some, ltb,
  ◌==◌, if◌then◌else◌,
}
use open_coroutine.Syscall.World.{Ret, minus_one, bytes}

-- A signed number of C: `negsuc n` is -(n + 1).
pub data ℤ : Type 0 where
  pos : ℕ → ℤ
  negsuc : ℕ → ℤ

abbrev pub c_int_max : ℕ
c_int_max = 2147483647

abbrev pub c_uint_max : ℕ
c_uint_max = 4294967295

abbrev pub is_zero : Ret → Bool
is_zero minus_one = false
is_zero (bytes n) = n == 0

-- `if x < 16 { x <<= 1; }`
abbrev pub double_up : ℕ → ℕ
double_up x = if ltb x 16 then x * 2 else x

-- `Duration::from_millis`, in ns.
abbrev pub from_millis : ℕ → ℕ
from_millis n = n * 1_000_000

-- `t` and `x` are in ms.
poll_loop : List Ret → ℕ → ℕ → List ℕ → Option (Ret × List ℕ)
poll_loop [] t x waits = none
poll_loop (r ∷ rs) t x waits =
    let t' = if t == c_int_max then t else (if ltb x t then t - x else 0) in
    let again = poll_loop rs t' (double_up x) (waits ++ from_millis (min t x) ∷ []) in
    if not (is_zero r) || t == 0 then some (r, waits) else again

abbrev poll_time : ℤ → ℕ
poll_time (pos n) = n
poll_time (negsuc n) = c_int_max

unfoldable pub nio_poll : ℤ → List Ret → Option (Ret × List ℕ)
unfolding poll_loop
nio_poll timeout replies = poll_loop replies (poll_time timeout) 1 []

-- The three sets that `select` is given by pointers, each null or with its contents.
pub record Sets : Type 0 where
  pub readfds : Option ℕ
  pub writefds : Option ℕ
  pub errorfds : Option ℕ

-- `if !p.is_null() { *p = s }`
abbrev pub put_back : Option ℕ → Option ℕ → Option ℕ
put_back none now = now
put_back (some s) now = some s

abbrev pub restore : Sets → Sets → Sets
restore saved now = record {
  readfds = put_back saved.readfds now.readfds;
  writefds = put_back saved.writefds now.writefds;
  errorfds = put_back saved.errorfds now.errorfds;
}

-- `t` is in µs, and is waited for in ms; what a raw call is given is logged in `asked`. A reply comes
-- with the sets that the raw call leaves.
pub record Selected : Type 0 where
  pub r : Ret
  pub sets : Sets
  pub waits : List ℕ
  pub asked : List Sets

select_loop : List (Ret × Sets) → Sets → Sets → ℕ → ℕ → List ℕ → List Sets → Option Selected
select_loop [] s sets t x waits asked = none
select_loop ((r, left) ∷ rs) s sets t x waits asked =
    let asked' = asked ++ sets ∷ [] in
    let t' = if t == c_uint_max then t else t - x in
    let again =
      select_loop rs s (restore s left) t' (double_up x) (waits ++ from_millis (min t x) ∷ [])
        asked' in
    if not (is_zero r) || t == 0
    then some (record { r = r; sets = left; waits = waits; asked = asked' })
    else again

-- A timeout in seconds and µs, where its pointer is not null, on c_uint.
abbrev pub select_time : Option (ℕ × ℕ) → ℕ
select_time none = c_uint_max
select_time (some (tv_sec, tv_usec)) =
    min (min (tv_sec * 1_000_000) c_uint_max + tv_usec) c_uint_max

unfoldable pub nio_select : Option (ℕ × ℕ) → Sets → List (Ret × Sets) → Option Selected
unfolding select_loop
nio_select timeout sets replies = select_loop replies sets sets (select_time timeout) 1 [] []

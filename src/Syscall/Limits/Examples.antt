-- ===== src/Syscall/Limits/Examples.antt =====
-- Runs of the calls on time limits, and the theorems at concrete inputs.
use open_coroutine.Prelude.{ℕ, ◌≡◌, ◌≢◌, true, none, some, List, [], ◌∷◌, refl}
use open_coroutine.Maps.{fun_maps, fun_insert}
use open_coroutine.Time.{get_time_limit}
use open_coroutine.Syscall.Limits.{
  timeval, so_rcvtimeo, Limits, limit_of, recv_time_limit, nio_setsockopt,
}
use open_coroutine.Syscall.Limits.Fixed.{
  Call, asks_send, asks_recv, sets, recv_time_limit-nio_setsockopt,
}

-- Descriptor 3 receives for 2 s at most.
abbrev two_seconds : Limits fun_maps
two_seconds = record { send = λ fd. none; recv = fun_insert 3 2_000_000_000 (λ fd. none) }

-- The limits are read, and descriptor 4 gets one.
abbrev calls : List Call
calls =
    asks_recv (timeval 9 0) 3 ∷ asks_send (timeval 0 5) 3 ∷ sets true true 4 so_rcvtimeo 1 0 ∷ []

abbrev after : Limits fun_maps
after = record {
  send = fun_insert 3 5_000 (λ fd. none);
  recv = fun_insert 4 1_000_000_000 (fun_insert 3 2_000_000_000 (λ fd. none));
}

recv_time_limit-nio_setsockopt_example :
    (s' : Limits fun_maps) × (nio_setsockopt fun_maps true true 4 so_rcvtimeo 1 500 two_seconds
      ≡ some (true, s'))
    × (recv_time_limit fun_maps (timeval 9 0) 4 s' ≡ some (get_time_limit 1 500, s'))
    × (s'.send ≡ two_seconds.send)
    × ((j : ℕ) → j ≢ 4 → limit_of fun_maps j s'.recv ≡ limit_of fun_maps j two_seconds.recv)
recv_time_limit-nio_setsockopt_example =
    recv_time_limit-nio_setsockopt fun_maps 4 1 500 (timeval 9 0) two_seconds refl

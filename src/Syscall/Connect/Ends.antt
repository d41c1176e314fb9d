-- ===== src/Syscall/Connect/Ends.antt =====
-- core/src/syscall/unix/connect.rs: when the hooked call returns.
use open_coroutine.Prelude.{
  ℕ, ◌<◌, ◌≤◌, ◌-◌, ◌≡◌, ◌≢◌, ◌⊎◌, Bool, true, false, List, [], ◌∷◌, ◌++◌, Option, none, some,
  arith, inl, inr, refl,
}
use open_coroutine.Time.{saturating_add}
use open_coroutine.Syscall.World.{
  known, World, Ret, minus_one, bytes, Outcome, IsPending, set_errno, while_non_blocking, returned,
}
use open_coroutine.Syscall.Connect.{answers, Round, is_blocked, connect_loop, nio_connect}
use open_coroutine.Syscall.Connect.Answers.{IsConnected, Sound, connect_loop-Sound}

-- A round at which the deadline has passed.
abbrev pub AnyLate : ℕ → List Round → Type 0
AnyLate start [] = ⊥
AnyLate start (x ∷ xs) = (saturating_add start x.limit ≤ x.clock) ⊎ AnyLate start xs

connect_loop-no_time :
    (xs : List Round) (start : ℕ) (r : Ret) (w : World) → ¬ IsPending (connect_loop xs start 0 r w)
unfolding connect_loop
connect_loop-no_time [] start (bytes n) w p = ground arith
connect_loop-no_time [] start minus_one w p = ground arith
connect_loop-no_time (x ∷ xs) start (bytes n) w p = ground arith
connect_loop-no_time (x ∷ xs) start minus_one w p = ground arith

accepted-ends :
    (xs : List Round) (start left n : ℕ) (w : World)
    → ¬ IsPending (connect_loop xs start left (bytes n) w)
unfolding connect_loop
accepted-ends [] start left n w p = ground arith
accepted-ends (x ∷ xs) start left n w p = ground arith

connect_loop-ends :
    (xs : List Round) (start left : ℕ) (w : World)
    → w.errno ≢ 4
    → AnyLate start xs
    → ¬ IsPending (connect_loop xs start left minus_one w)
unfolding connect_loop
connect_loop-ends [] start left w ne late p = late
connect_loop-ends (x ∷ xs) start left w ne (inl late) p =
    let w' = set_errno x.wait_errno w in
    ground (
      arith,
      connect_loop-no_time xs start minus_one (set_errno 115 w'),
      connect_loop-no_time xs start (bytes 0) w',
    )
connect_loop-ends (x ∷ xs) start left w ne (inr late) p =
    let left' = saturating_add start x.limit - x.clock in
    let w' = set_errno x.wait_errno w in
    ground (
      arith,
      connect_loop-ends xs start left' (set_errno 115 w'),
      accepted-ends xs start left' 0 w',
    )

while_non_blocking-ends :
    (w : World) (body : World → Outcome)
    → ((u : World) → ¬ IsPending (body u))
    → ¬ IsPending (while_non_blocking w body)
unfolding while_non_blocking
while_non_blocking-ends w body h p = ground (arith, h w, h (record w { flags = known true }))

-- A hooked connect whose raw call no signal interrupts returns no later than at the first round whose
-- clock has reached the deadline.
pub nio_connect-ends :
    (reply : Option ℕ) (xs : List Round) (start limit : ℕ) (w : World)
    → reply ≢ some 4
    → AnyLate start xs
    → ¬ IsPending (nio_connect reply xs start limit w)
unfolding nio_connect
nio_connect-ends none xs start limit w ne late =
    while_non_blocking-ends w _ (λ u. accepted-ends xs start limit 0 u)
nio_connect-ends (some e) xs start limit w ne late =
    while_non_blocking-ends w _
      (λ u. connect_loop-ends xs start limit (set_errno e u) (λ q. ground arith) late)

connect_loop-spins :
    (xs : List Round) (start left : ℕ) (w : World)
    → 0 < left
    → w.errno ≡ 4
    → IsPending (connect_loop xs start left minus_one w)
unfolding connect_loop
connect_loop-spins [] start left w t e = ground arith
connect_loop-spins (x ∷ xs) start left w t e = ground (arith, connect_loop-spins xs start left w)

while_non_blocking-IsPending :
    (mode : Bool) (w : World) (body : World → Outcome)
    → w.flags ≡ known mode
    → ((u : World) → IsPending (body u))
    → IsPending (while_non_blocking w body)
unfolding while_non_blocking
while_non_blocking-IsPending mode w body f h =
    ground (arith, h w, h (record w { flags = known true }))

-- A hooked connect whose raw call a signal interrupts, on a descriptor whose mode fcntl tells and
-- changes and with a positive time limit, never returns, whatever the clock and the socket answer: no
-- number of rounds is enough.
pub nio_connect-spins :
    (xs : List Round) (start limit : ℕ) (w : World) (mode : Bool)
    → w.flags ≡ known mode
    → 0 < limit
    → IsPending (nio_connect (some 4) xs start limit w)
unfolding nio_connect
nio_connect-spins xs start limit w mode f t =
    while_non_blocking-IsPending mode w _ f
      (λ u. connect_loop-spins xs start limit (set_errno 4 u) t refl)

-- A round in which the wait succeeds in time and the socket has neither a peer nor an error.
abbrev pub IsWaiting : ℕ → Round → Type 0
IsWaiting start x =
    (x.wait_ok ≡ true)
    × (x.connected ≡ false)
    × (x.so_error ≡ answers 0)
    × (x.clock < saturating_add start x.limit)

abbrev pub AllWaiting : ℕ → List Round → Type 0
AllWaiting start [] = Unit
AllWaiting start (x ∷ xs) = IsWaiting start x × AllWaiting start xs

abbrev pub Connects : Outcome → Type 0
Connects (returned r w) = r ≡ bytes 0
Connects _ = ⊥

accepted-Connects :
    (xs : List Round) (start left : ℕ) (w : World)
    → Connects (connect_loop xs start left (bytes 0) w)
unfolding connect_loop
accepted-Connects [] start left w = ground arith
accepted-Connects (x ∷ xs) start left w = ground arith

connect_loop-Connects :
    (xs ys : List Round) (y : Round) (start left : ℕ) (w : World)
    → is_blocked w.errno ≡ true
    → 0 < left
    → AllWaiting start xs
    → IsConnected y
    → Connects (connect_loop (xs ++ y ∷ ys) start left minus_one w)
unfolding connect_loop
connect_loop-Connects [] ys y start left w b t a c = ground (
  arith,
  accepted-Connects ys start (saturating_add start y.limit - y.clock) (set_errno y.wait_errno w),
)
connect_loop-Connects (x ∷ xs) ys y start left w b t a c = ground (
  arith,
  connect_loop-Connects xs ys y start (saturating_add start x.limit - x.clock)
      (set_errno 115 (set_errno x.wait_errno w)),
)

while_non_blocking-Connects :
    (mode : Bool) (w : World) (body : World → Outcome)
    → w.flags ≡ known mode
    → ((u : World) → u.flags ≡ known true → Connects (body u) × Sound (known true) Unit (body u))
    → Connects (while_non_blocking w body)
unfolding while_non_blocking
while_non_blocking-Connects mode w body f h =
    ground (arith, f, h w, h (record w { flags = known true }))

-- A hooked connect that is under way, on a descriptor whose mode fcntl tells and changes and with a
-- positive time limit, returns 0 if, after any number of rounds that find the socket without peer or
-- error before the deadline, a round finds it connected.
pub nio_connect-Connects :
    (e : ℕ) (xs ys : List Round) (y : Round) (start limit : ℕ) (w : World) (mode : Bool)
    → w.flags ≡ known mode
    → is_blocked e ≡ true
    → 0 < limit
    → AllWaiting start xs
    → IsConnected y
    → Connects (nio_connect (some e) (xs ++ y ∷ ys) start limit w)
unfolding nio_connect
nio_connect-Connects e xs ys y start limit w mode f b t a c =
    while_non_blocking-Connects mode w _ f (λ u g. (
      connect_loop-Connects xs ys y start limit (set_errno e u) b t a c,
      connect_loop-Sound Unit (known true) (xs ++ y ∷ ys) start limit (set_errno e u) g (λ z. tt),
    ))

-- ===== src/Syscall/Connect/Answers.antt =====
-- core/src/syscall/unix/connect.rs: what the hooked call returns, and the descriptor's mode.
use open_coroutine.Prelude.{
  ℕ, ◌-◌, ◌≡◌, ◌≢◌, ◌⊎◌, true, List, [], ◌∷◌, Option, none, some, arith, inl, inr, refl,
}
use open_coroutine.Time.{saturating_add}
use open_coroutine.Syscall.World.{
  known, Flags, World, Ret, minus_one, bytes, Outcome, Returns, set_errno, while_non_blocking,
}
use open_coroutine.Syscall.Connect.{answers, Round, finish, wait_write, connect_loop, nio_connect}

-- A round in which the wait succeeds, the socket has a peer and no pending error.
abbrev pub IsConnected : Round → Type 0
IsConnected x = (x.wait_ok ≡ true) × (x.connected ≡ true) × (x.so_error ≡ answers 0)

abbrev pub AnyConnected : List Round → Type 0
AnyConnected [] = ⊥
AnyConnected (x ∷ xs) = IsConnected x ⊎ AnyConnected xs

-- 0 has a cause, and -1 does not carry ETIMEDOUT.
abbrev pub IsExplained : Type 0 → Ret → World → Type 0
IsExplained cause (bytes n) w = (n ≡ 0) × cause
IsExplained cause minus_one w = w.errno ≢ 110

abbrev pub Sound : Flags → Type 0 → Outcome → Type 0
Sound mode cause = Returns λ r w. (w.flags ≡ mode) × IsExplained cause r w

finish-Sound :
    (cause : Type 0) (mode : Flags) (w : World)
    → w.flags ≡ mode
    → Sound mode cause (finish minus_one w)
unfolding finish
finish-Sound cause mode w f = ground arith

accepted-Sound :
    (cause : Type 0) (mode : Flags) (xs : List Round) (start left : ℕ) (w : World)
    → w.flags ≡ mode
    → cause
    → Sound mode cause (connect_loop xs start left (bytes 0) w)
unfolding connect_loop
accepted-Sound cause mode [] start left w f c = ground arith
accepted-Sound cause mode (x ∷ xs) start left w f c = ground arith

wait_write-Sound :
    (cause : Type 0) (mode : Flags) (x : Round) (start : ℕ) (again : ℕ → Ret → World → Outcome)
    (w : World)
    → w.flags ≡ mode
    → ((left : ℕ) (u : World) → u.flags ≡ mode → Sound mode cause (again left minus_one u))
    → ((left : ℕ) (u : World)
        → u.flags ≡ mode
        → IsConnected x
        → Sound mode cause (again left (bytes 0) u))
    → Sound mode cause (wait_write x start again w)
unfolding wait_write
wait_write-Sound cause mode x start again w f retry accept =
    let left = saturating_add start x.limit - x.clock in
    let w' = set_errno x.wait_errno w in
    ground (arith, retry left (set_errno 115 w'), accept left w')

pub connect_loop-Sound :
    (cause : Type 0) (mode : Flags) (xs : List Round) (start left : ℕ) (w : World)
    → w.flags ≡ mode
    → (AnyConnected xs → cause)
    → Sound mode cause (connect_loop xs start left minus_one w)
unfolding connect_loop
connect_loop-Sound cause mode [] start left w f c = ground arith
connect_loop-Sound cause mode (x ∷ xs) start left w f c =
    let later = λ (a : AnyConnected xs). c (inr a) in
    ground (
      arith,
      connect_loop-Sound cause mode xs start left w f later,
      wait_write-Sound cause mode x start (connect_loop xs start) w f
          (λ left' u g. connect_loop-Sound cause mode xs start left' u g later)
          (λ left' u g h. accepted-Sound cause mode xs start left' u g (c (inl h))),
    )

while_non_blocking-Sound :
    (cause : Type 0) (w : World) (body : World → Outcome)
    → ((u : World) → u.flags ≡ known true → Sound (known true) cause (body u))
    → Sound w.flags cause (while_non_blocking w body)
unfolding while_non_blocking
while_non_blocking-Sound cause w body h = ground (arith, h w, h (record w { flags = known true }))

-- The raw call succeeds, or a round that the script has finds the socket connected.
abbrev pub HasCause : Option ℕ → List Round → Type 0
HasCause reply xs = (reply ≡ none) ⊎ AnyConnected xs

-- A hooked connect restores the descriptor's mode on every return; it returns 0 only if the raw call
-- does, or if a wait for a write event succeeds after which the socket has a peer and no pending error;
-- where it returns -1, errno is not ETIMEDOUT.
pub nio_connect-IsSound :
    (reply : Option ℕ) (xs : List Round) (start limit : ℕ) (w : World)
    → Returns
        (λ r u. (u.flags ≡ w.flags) × IsExplained (HasCause reply xs) r u)
        (nio_connect reply xs start limit w)
unfolding nio_connect
nio_connect-IsSound none xs start limit w =
    while_non_blocking-Sound (HasCause none xs) w _
      (λ u f. accepted-Sound (HasCause none xs) (known true) xs start limit u f (inl refl))
nio_connect-IsSound (some e) xs start limit w =
    while_non_blocking-Sound (HasCause (some e) xs) w _ (λ u f.
      connect_loop-Sound (HasCause (some e) xs) (known true) xs start limit (set_errno e u) f
        (λ a. inr a))

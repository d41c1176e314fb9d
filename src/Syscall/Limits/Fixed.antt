-- ===== src/Syscall/Limits/Fixed.antt =====
-- core/src/syscall/unix/mod.rs and setsockopt.rs: a descriptor's time limits, once known, never change.
use open_coroutine.Prelude.{
  ℕ, ◌≡◌, ◌≢◌, Bool, true, false, Option, none, some, List, [], ◌∷◌, arith, refl, Option-cases, inl,
  inr,
}
use open_coroutine.Time.{get_time_limit}
use open_coroutine.Maps.{Maps}
use open_coroutine.Syscall.Limits.{
  Timeval, timeval, not_socket, other_error, SockOpt, so_sndtimeo, so_rcvtimeo, Limits, limit_of,
  send_time_limit, recv_time_limit, nio_setsockopt,
}

-- A call that reads or sets a limit, on any descriptor.
pub data Call : Type 0 where
  asks_send asks_recv : Timeval → ℕ → Call
  sets : Bool → Bool → ℕ → SockOpt → ℕ → ℕ → Call

module _ (𝓜 : Maps) where
  abbrev table : {A : Type 0} → Option (A × Limits 𝓜) → Option (Limits 𝓜)
  table none = none
  table (some (a, s)) = some s

  unfoldable pub step : Call → Limits 𝓜 → Option (Limits 𝓜)
  unfolding send_time_limit recv_time_limit nio_setsockopt
  step (asks_send answer fd) s = table (send_time_limit 𝓜 answer fd s)
  step (asks_recv answer fd) s = table (recv_time_limit 𝓜 answer fd s)
  step (sets raw_ok sol_socket fd name sec usec) s =
      table (nio_setsockopt 𝓜 raw_ok sol_socket fd name sec usec s)

  unfoldable pub steps : List Call → Limits 𝓜 → Option (Limits 𝓜)
  unfolding step
  steps [] s = some s
  steps (c ∷ cs) s = elim (step c s) [ some s' ↦ steps cs s' | none ↦ none ]

  -- What is known stays.
  abbrev Extends : 𝓜.Map ℕ → 𝓜.Map ℕ → Type 0
  Extends m m' = (fd t : ℕ) → limit_of 𝓜 fd m ≡ some t → limit_of 𝓜 fd m' ≡ some t

  step-Extends :
      (c : Call) (s s' : Limits 𝓜)
      → step c s ≡ some s'
      → Extends s.send s'.send × Extends s.recv s'.recv
  unfolding step
  step-Extends (asks_send (timeval sec usec) fd) s s' e = (
    (λ j t h. ground (arith, e, (𝓜.laws ℕ).get-insert fd j (get_time_limit sec usec) s.send)),
    (λ j t h. ground (arith, e)),
  )
  step-Extends (asks_send not_socket fd) s s' e =
      ((λ j t h. ground (arith, e)), (λ j t h. ground (arith, e)))
  step-Extends (asks_send other_error fd) s s' e =
      ((λ j t h. ground (arith, e)), (λ j t h. ground (arith, e)))
  step-Extends (asks_recv (timeval sec usec) fd) s s' e = (
    (λ j t h. ground (arith, e)),
    (λ j t h. ground (arith, e, (𝓜.laws ℕ).get-insert fd j (get_time_limit sec usec) s.recv)),
  )
  step-Extends (asks_recv not_socket fd) s s' e =
      ((λ j t h. ground (arith, e)), (λ j t h. ground (arith, e)))
  step-Extends (asks_recv other_error fd) s s' e =
      ((λ j t h. ground (arith, e)), (λ j t h. ground (arith, e)))
  step-Extends (sets raw_ok sol_socket fd name sec usec) s s' e = (
    (λ j t h. ground (arith, e, (𝓜.laws ℕ).get-insert fd j (get_time_limit sec usec) s.send)),
    (λ j t h. ground (arith, e, (𝓜.laws ℕ).get-insert fd j (get_time_limit sec usec) s.recv)),
  )

  steps-Extends :
      (cs : List Call) (s s' : Limits 𝓜)
      → steps cs s ≡ some s'
      → Extends s.send s'.send × Extends s.recv s'.recv
  unfolding steps
  steps-Extends [] s s' e = ((λ j t h. ground (arith, e)), (λ j t h. ground (arith, e)))
  steps-Extends (c ∷ cs) s s' e = elim (Option-cases (step c s)) [
    | inl f ↦ absurd (ground (arith, e, f))
    | inr (u, f) ↦
        let (a, b) = step-Extends c s u f in
        let (a', b') = steps-Extends cs u s' (ground (arith, e, f)) in
        ((λ j t h. a' j t (a j t h)), (λ j t h. b' j t (b j t h)))
  ]

  -- The limit for sending or for receiving, and the option that sets it.
  abbrev pub known : Bool → ℕ → Limits 𝓜 → Option ℕ
  known true fd s = limit_of 𝓜 fd s.send
  known false fd s = limit_of 𝓜 fd s.recv

  -- Through every sequence of calls that read or set a limit, on any descriptors, whatever the kernel
  -- answers, that ends with no panic, a limit that is known for sending or for receiving stays as it is:
  -- also where the descriptor is closed meanwhile and its number is given to a new socket.
  pub known-steps :
      (sending : Bool) (cs : List Call) (s s' : Limits 𝓜) (fd t : ℕ)
      → known sending fd s ≡ some t
      → steps cs s ≡ some s'
      → known sending fd s' ≡ some t
  known-steps true cs s s' fd t h e = (steps-Extends cs s s' e).0 fd t h
  known-steps false cs s s' fd t h e = (steps-Extends cs s s' e).1 fd t h

  -- A time-out that is set by an accepted setsockopt, on a descriptor whose limit is not known yet, is
  -- what the next reading of that limit answers, in ns, whatever the kernel says then; the limits of
  -- other descriptors and of the other direction stay.
  pub recv_time_limit-nio_setsockopt :
      (fd sec usec : ℕ) (answer : Timeval) (s : Limits 𝓜)
      → limit_of 𝓜 fd s.recv ≡ none
      → (s' : Limits 𝓜) × (nio_setsockopt 𝓜 true true fd so_rcvtimeo sec usec s ≡ some (true, s'))
        × (recv_time_limit 𝓜 answer fd s' ≡ some (get_time_limit sec usec, s'))
        × (s'.send ≡ s.send)
        × ((j : ℕ) → j ≢ fd → limit_of 𝓜 j s'.recv ≡ limit_of 𝓜 j s.recv)
  unfolding nio_setsockopt recv_time_limit
  recv_time_limit-nio_setsockopt fd sec usec answer s h =
      let limit = get_time_limit sec usec in
      (
        record s { recv = (𝓜.laws ℕ).insert fd limit s.recv },
        ground (arith, h),
        ground (arith, (𝓜.laws ℕ).get-insert fd fd limit s.recv),
        refl,
        (λ j ne. ground (arith, (𝓜.laws ℕ).get-insert fd j limit s.recv)),
      )

  abbrev pub option_of : Bool → SockOpt
  option_of true = so_sndtimeo
  option_of false = so_rcvtimeo

  -- An accepted setsockopt of a time-out panics where that limit of the descriptor is known: where the
  -- time-out was set before, or a hooked call has read it.
  pub nio_setsockopt-again :
      (sending : Bool) (fd sec usec t : ℕ) (s : Limits 𝓜)
      → known sending fd s ≡ some t
      → nio_setsockopt 𝓜 true true fd (option_of sending) sec usec s ≡ none
  unfolding nio_setsockopt
  nio_setsockopt-again true fd sec usec t s h = ground (arith, h)
  nio_setsockopt-again false fd sec usec t s h = ground (arith, h)

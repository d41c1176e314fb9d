-- ===== src/Net/Operator/Clearing.antt =====
-- core/src/net/operator/linux/mod.rs: a select that cleans the backlog to its end.
use open_coroutine.Prelude.{
  ℕ, suc, ◌≡◌, refl, ◌∙◌, Bool, true, false, none, some, List, [], ◌∷◌, inl, inr, Bool-cases,
}
use open_coroutine.Net.Operator.{
  Rings, took, Operator, Round, kernel_takes, make_room, goes, clean, Script, after_wait,
  timeout_add, do_select, select,
}
use open_coroutine.Net.Operator.Order.{all, kernel_takes-all, clean-all}

module _ {Q E : Type 0} (𝓡 : Rings Q E) where
  -- Every submission of the loop succeeds, and the queue has room whenever it is read again.
  abbrev pub IsWilling : (ℕ → Round) → Type 0
  IsWilling kernel =
      (i : ℕ)
      → ((n : ℕ) × ((kernel i).answer ≡ took n))
        × ((q : Q) → 𝓡.is_full (𝓡.take (kernel i).synced q).1 ≡ false)

  make_room-goes :
      (kernel : ℕ → Round) (i : ℕ) (o : Operator Q E)
      → IsWilling kernel
      → (o' : Operator Q E) × (make_room 𝓡 (kernel i) o ≡ goes o')
        × (𝓡.is_full o'.inner ≡ false)
        × (o'.backlog ≡ o.backlog)
  make_room-goes kernel i o h =
      let ((n, e), room) = h i in
      elim (Bool-cases (𝓡.is_full o.inner)) [
        | inl f ↦
            let o' = kernel_takes 𝓡 (kernel i).synced (kernel_takes 𝓡 n o) in
            (o', rw (f, e) refl, room (kernel_takes 𝓡 n o).inner, refl)
        | inr f ↦ (kernel_takes 𝓡 (kernel i).synced o, rw f refl, room o.inner, refl)
      ]

  clean-clears :
      (kernel : ℕ → Round) (i : ℕ) (backlog : List E) (o : Operator Q E)
      → IsWilling kernel
      → ((clean 𝓡 kernel i backlog o).1 ≡ true) × ((clean 𝓡 kernel i backlog o).0.backlog ≡ [])
  unfolding clean
  clean-clears kernel i [] o h =
      let (o', e, room, b) = make_room-goes kernel i (record o { backlog = [] }) h in
      rw (e, clean) (refl, b)
  clean-clears kernel i (sqe ∷ rest) o h =
      let (o', e, room, b) = make_room-goes kernel i (record o { backlog = sqe ∷ rest }) h in
      let (q, f) = 𝓡.push-room sqe o'.inner room in
      rw (e, f, clean) (clean-clears kernel (suc i) rest (record o' { inner = q }) h)

  -- A select without a timeout that is not entered already, where each submission succeeds and the
  -- queue has room whenever it is read again, answers the count and leaves the backlog empty. All
  -- entries stay, in the order in which the kernel takes them.
  pub select-clears :
      (supported : Bool) (x : Script) (n : ℕ) (o : Operator Q E)
      → o.entering ≡ false
      → x.on_wait ≡ took n
      → IsWilling x.kernel
      → let (o', r) = select 𝓡 supported none x o in
        (r ≡ some x.count) × (o'.backlog ≡ []) × (all 𝓡 o' ≡ all 𝓡 o) × (o'.entering ≡ false)
  unfolding select do_select timeout_add after_wait
  select-clears supported x n o idle e h =
      let o1 = kernel_takes 𝓡 n (record o { entering = true }) in
      let (done, empty) = clean-clears x.kernel 0 o1.backlog o1 h in
      let (same, m) = clean-all 𝓡 x.kernel 0 o1.backlog o1 in
      rw (idle, e, done, select, do_select, after_wait)
        (refl, empty, same ∙ kernel_takes-all 𝓡 n (record o { entering = true }), refl)

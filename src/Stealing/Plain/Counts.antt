-- ===== src/Stealing/Plain/Counts.antt =====
-- core/src/common/work_steal.rs: how many elements there are in all, before and after a step.
use mathlib.Core.Path.{subst}
use native.Mathlib.Nat.{mod-lt}
use open_coroutine.Prelude.{
  ℕ, zero, suc, ◌+◌, ◌%◌, ◌/◌, ◌<◌, ◌≡◌, refl, sym, ◌∙◌, ap, arith, Bool, false, Option, none, some,
  [], ◌∷◌, inl, inr, Bool-cases, Option-cases, length, get_elem?, ◌==◌,
}
use open_coroutine.Scheduler.Queues.{one_if, tally, tally-append}
use open_coroutine.Stealing.Parts.{Workers, Injectors}
use open_coroutine.Stealing.Parts.Contents.{list_cases, pop-items, push-items, steal-items}
use open_coroutine.Stealing.Ordered.{get_or, set_elem}
use open_coroutine.Stealing.Ordered.Weights.{
  sum_of, sum_of-set_elem, length-set_elem, get_or-set_elem_ne,
}
use open_coroutine.Stealing.Plain.{
  WorkStealQueue, LocalQueue, shared_push, shared_pop, own, set_own, local_len, can_steal,
  push_half, local_push, share, rob_all, pop_own,
}

-- The index of a local queue is one of the list.
abbrev pub InRange : {I W : Type 0} → LocalQueue → WorkStealQueue I W → Type 0
InRange l s = l.slot < length s.local_queues

module _ {T W I : Type 0} (𝓦 : Workers W T) (𝓘 : Injectors I T) (p : T → Bool) where
  abbrev pub in_worker : W → ℕ
  in_worker w = tally p (𝓦.items w)

  -- The number of elements that pass the test, in the shared queue and in all local ones.
  abbrev pub total : WorkStealQueue I W → ℕ
  total s = tally p (𝓘.items s.shared_queue) + sum_of in_worker s.local_queues

  abbrev pub of_taken : Option T → ℕ
  of_taken none = 0
  of_taken (some x) = one_if (p x)

  pub shared_push-total :
      (x : T) (s : WorkStealQueue I W) → total (shared_push 𝓦 𝓘 x s) ≡ one_if (p x) + total s
  unfolding shared_push
  shared_push-total x s = omega (
    arith,
    ap (tally p) (𝓘.items-push x s.shared_queue),
    tally-append p (𝓘.items s.shared_queue) (x ∷ []),
  )

  -- The result of a pop from `s`: what it takes is all that is missing, and no local queue is added.
  abbrev pub IsTaken : WorkStealQueue I W → Option T × WorkStealQueue I W → Type 0
  IsTaken s r =
      (total s ≡ of_taken r.0 + total r.1) × (length r.1.local_queues ≡ length s.local_queues)

  pub shared_pop-IsTaken : (s : WorkStealQueue I W) → IsTaken s (shared_pop 𝓦 𝓘 s)
  unfolding shared_pop
  shared_pop-IsTaken s = elim (Option-cases (𝓘.steal s.shared_queue)) [
    | inl e ↦ ground (arith, e)
    | inr ((x, i), e) ↦
        let items = ap (tally p) (steal-items 𝓘 s.shared_queue i x e) in ground (arith, e, items)
  ]

  set_own-total :
      (l : LocalQueue) (w : W) (s : WorkStealQueue I W)
      → InRange l s
      → total (set_own 𝓦 𝓘 l w s) + in_worker (own 𝓦 𝓘 l s) ≡ in_worker w + total s
  set_own-total l w s h =
      omega (arith, sum_of-set_elem in_worker l.slot w (𝓦.new 0) s.local_queues h)

  pub pop_own-IsTaken :
      (l : LocalQueue) (s : WorkStealQueue I W) → InRange l s → IsTaken s (pop_own 𝓦 𝓘 l s)
  unfolding pop_own
  pop_own-IsTaken l s h = elim (Option-cases (𝓦.pop (own 𝓦 𝓘 l s))) [
    | inl e ↦ ground (arith, e)
    | inr ((x, w), e) ↦
        let items = ap (tally p) (pop-items 𝓦 (own 𝓦 𝓘 l s) w x e) in
        let set = set_own-total l w s h in
        let n = length-set_elem l.slot w s.local_queues in
        rw (e, pop_own) (omega (arith, items, set), n)
  ]

  -- The loop of a push moves elements from the worker `w` to the shared queue.
  push_half-total :
      (n : ℕ) (w : W) (s : WorkStealQueue I W)
      → let r = push_half 𝓦 𝓘 n w s in
        (in_worker r.0 + total r.1 ≡ in_worker w + total s) × (r.1.local_queues ≡ s.local_queues)
  unfolding push_half shared_push
  push_half-total zero w s = (refl, refl)
  push_half-total (suc n) w s = elim (Option-cases (𝓦.pop w)) [
    | inl e ↦ rw (e, push_half) (push_half-total n w s)
    | inr ((x, w'), e) ↦
        let items = ap (tally p) (pop-items 𝓦 w w' x e) in
        let (t, q) = push_half-total n w' (shared_push 𝓦 𝓘 x s) in
        rw (e, push_half) (omega (arith, t, items, shared_push-total x s), q)
  ]

  -- A push to a local queue adds just the element pushed.
  pub local_push-total :
      (x : T) (l : LocalQueue) (s : WorkStealQueue I W)
      → InRange l s
      → let s' = local_push 𝓦 𝓘 x l s in
        (total s' ≡ one_if (p x) + total s) × (length s'.local_queues ≡ length s.local_queues)
  unfolding local_push shared_push
  local_push-total x l s h =
      let w = own 𝓦 𝓘 l s in
      elim (Option-cases (𝓦.push x w)) [
        | inr (w', e) ↦
            let more = push-items 𝓦 p w w' x e in
            rw (e, local_push)
              (
                omega (arith, more, set_own-total l w' s h),
                length-set_elem l.slot w' s.local_queues,
              )
        | inl e ↦
            let r = push_half 𝓦 𝓘 (local_len 𝓦 𝓘 w / 2) w s in
            let (t, q) = push_half-total (local_len 𝓦 𝓘 w / 2) w s in
            let h' : InRange l r.1 = subst (λ ws. l.slot < length ws) (sym q) h in
            let same : in_worker (own 𝓦 𝓘 l r.1) ≡ in_worker w =
              ap (λ ws. in_worker (get_or (𝓦.new 0) (get_elem? ws l.slot))) q in
            let set = set_own-total l r.0 r.1 h' in
            let pushed = shared_push-total x (set_own 𝓦 𝓘 l r.0 r.1) in
            rw (e, local_push)
              (
                omega (arith, t, same, set, pushed),
                length-set_elem l.slot r.0 r.1.local_queues ∙ ap length q,
              )
      ]

  -- The booty goes from the worker at the index `j` to the own one.
  seized-total :
      (f : ℕ → ℕ) (j : ℕ) (l : LocalQueue) (s : WorkStealQueue I W) (v w : W)
      → InRange l s
      → j < length s.local_queues
      → (l.slot == j) ≡ false
      → 𝓦.steal f (get_or (𝓦.new 0) (get_elem? s.local_queues j)) (own 𝓦 𝓘 l s) ≡ some (v, w)
      → let s1 = record s { local_queues = set_elem j v s.local_queues } in
        (total (set_own 𝓦 𝓘 l w s1) ≡ total s)
        × (length (set_own 𝓦 𝓘 l w s1).local_queues ≡ length s.local_queues)
  seized-total f j l s v w h a d e =
      let another = get_or (𝓦.new 0) (get_elem? s.local_queues j) in
      let mine = own 𝓦 𝓘 l s in
      let (taken, b, c, z, n, x, y) = 𝓦.steal-moves f another mine v w e in
      let lost = ap (tally p) b ∙ tally-append p taken (𝓦.items v) in
      let won = ap (tally p) c ∙ tally-append p (𝓦.items mine) taken in
      let s1 = record s { local_queues = set_elem j v s.local_queues } in
      let n1 = length-set_elem j v s.local_queues in
      let same = ap in_worker (get_or-set_elem_ne l.slot j v (𝓦.new 0) s.local_queues d) in
      let robbed = sum_of-set_elem in_worker j v (𝓦.new 0) s.local_queues a in
      let set = set_own-total l w s1 (subst (λ k. l.slot < k) (sym n1) h) in
      (omega (arith, lost, won, same, robbed, set), length-set_elem l.slot w s1.local_queues ∙ n1)

  -- Where the own queue is empty, a theft moves elements and loses none.
  pub rob_all-total :
      (n i : ℕ) (l : LocalQueue) (s s' : WorkStealQueue I W)
      → InRange l s
      → 𝓦.items (own 𝓦 𝓘 l s) ≡ []
      → rob_all 𝓦 𝓘 n i l s ≡ some s'
      → (total s' ≡ total s) × (length s'.local_queues ≡ length s.local_queues)
  unfolding rob_all
  rob_all-total zero i l s s' h g e = absurd (ground (arith, e))
  rob_all-total (suc n) i l s s' h g e =
      let j = i % length s.local_queues in
      let another = get_or (𝓦.new 0) (get_elem? s.local_queues j) in
      let mine = own 𝓦 𝓘 l s in
      let rest = rob_all-total n (i + 1) l s s' h g in
      elim (Bool-cases (can_steal 𝓦 𝓘 mine)) [
        | inr c ↦ absurd (ground (arith, c, e))
        | inl c ↦ elim (list_cases (𝓦.items another)) [
          | inl a ↦ rest (ground (arith, c, a, e))
          | inr (x, xs, a) ↦ elim (Option-cases (𝓦.steal (share 𝓦 𝓘 mine another) another mine)) [
            | inl f ↦ rest (ground (arith, c, a, f, e))
            | inr ((v, w), f) ↦
                let apart : (l.slot == j) ≡ false = elim (Bool-cases (l.slot == j)) [
                  | inr d ↦ d
                  | inl d ↦ absurd (ground (arith, d, a, g))
                ] in
                let s1 = record s { local_queues = set_elem j v s.local_queues } in
                let won : some (set_own 𝓦 𝓘 l w s1) ≡ some s' = ground (arith, c, a, f, e) in
                let (t, k) =
                  seized-total (share 𝓦 𝓘 mine another) j l s v w h (mod-lt i (omega (arith, h)))
                    apart f in
                let at = ap (get_or s) won in
                (ap total (sym at) ∙ t, ap (λ r. length r.local_queues) (sym at) ∙ k)
          ]
        ]
      ]

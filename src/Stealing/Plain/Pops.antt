-- ===== src/Stealing/Plain/Pops.antt =====
-- core/src/common/work_steal.rs: what a pop from a local queue takes, and when it finds nothing.
use mathlib.Core.Path.{subst}
use open_coroutine.Prelude.{
  ℕ, ◌%◌, ◌<◌, ◌≡◌, refl, sym, ◌∙◌, arith, Bool, Option, none, some, [], inl, inr, Bool-cases,
  Option-cases, length, ◌==◌,
}
use open_coroutine.Stealing.Parts.{Workers, Injectors}
use open_coroutine.Stealing.Parts.Contents.{list_cases}
use open_coroutine.Stealing.Plain.{
  WorkStealQueue, LocalQueue, shared_pop, own, rob_all, next_tick, pop_own, pop_elsewhere, or_else,
  local_pop,
}
use open_coroutine.Stealing.Plain.Counts.{
  InRange, IsTaken, shared_pop-IsTaken, pop_own-IsTaken, rob_all-total,
}

module _ {T W I : Type 0} (𝓦 : Workers W T) (𝓘 : Injectors I T) where
  pub pop_own-none :
      (l : LocalQueue) (s : WorkStealQueue I W)
      → (pop_own 𝓦 𝓘 l s).0 ≡ none
      → (𝓦.items (own 𝓦 𝓘 l s) ≡ []) × (pop_own 𝓦 𝓘 l s ≡ (none, s))
  unfolding pop_own
  pop_own-none l s e = elim (list_cases (𝓦.items (own 𝓦 𝓘 l s))) [
    | inl h ↦ (h, ground (arith, 𝓦.pop-nil (own 𝓦 𝓘 l s) h))
    | inr (x, xs, h) ↦
        let (w, f, g, c) = 𝓦.pop-cons (own 𝓦 𝓘 l s) x xs h in absurd (ground (arith, e, f))
  ]

  pub shared_pop-local_queues :
      (s : WorkStealQueue I W) → (shared_pop 𝓦 𝓘 s).1.local_queues ≡ s.local_queues
  unfolding shared_pop
  shared_pop-local_queues s = elim (Option-cases (𝓘.steal s.shared_queue)) [
    | inl e ↦ ground (arith, e)
    | inr (r, e) ↦ ground (arith, e)
  ]

  module _ (p : T → Bool) where
    or_else-IsTaken :
        (s : WorkStealQueue I W) (r : Option T × WorkStealQueue I W)
        (next : WorkStealQueue I W → Option T × WorkStealQueue I W)
        → IsTaken 𝓦 𝓘 p s r
        → (r.0 ≡ none → IsTaken 𝓦 𝓘 p r.1 (next r.1))
        → IsTaken 𝓦 𝓘 p s (or_else 𝓦 𝓘 r next)
    or_else-IsTaken s (none, s1) next h g = (omega (arith, h.0, (g refl).0), (g refl).1 ∙ h.1)
    or_else-IsTaken s (some x, s1) next h g = h

    pop_elsewhere-IsTaken :
        (start : ℕ) (l : LocalQueue) (s : WorkStealQueue I W)
        → InRange l s
        → 𝓦.items (own 𝓦 𝓘 l s) ≡ []
        → IsTaken 𝓦 𝓘 p s (pop_elsewhere 𝓦 𝓘 start l s)
    unfolding pop_elsewhere
    pop_elsewhere-IsTaken start l s h g = elim (Bool-cases l.stealing) [
      | inl b ↦ rw (b, pop_elsewhere) (shared_pop-IsTaken 𝓦 𝓘 p s)
      | inr b ↦ elim (Option-cases (rob_all 𝓦 𝓘 (length s.local_queues) start l s)) [
        | inl e ↦ rw (e, b, pop_elsewhere) (shared_pop-IsTaken 𝓦 𝓘 p s)
        | inr (s', e) ↦
            let (t, n) = rob_all-total 𝓦 𝓘 p (length s.local_queues) start l s s' h g e in
            let (u, m) = pop_own-IsTaken 𝓦 𝓘 p l s' (subst (λ k. l.slot < k) (sym n) h) in
            rw (e, b, pop_elsewhere) (sym t ∙ u, m ∙ n)
      ]
    ]

    then_own-IsTaken :
        (start : ℕ) (l : LocalQueue) (s : WorkStealQueue I W)
        → InRange l s
        → IsTaken 𝓦 𝓘 p s (or_else 𝓦 𝓘 (pop_own 𝓦 𝓘 l s) (pop_elsewhere 𝓦 𝓘 start l))
    then_own-IsTaken start l s h =
        or_else-IsTaken s (pop_own 𝓦 𝓘 l s) (pop_elsewhere 𝓦 𝓘 start l)
          (pop_own-IsTaken 𝓦 𝓘 p l s h)
          (λ e.
            let (g, f) = pop_own-none l s e in
            subst (λ r. IsTaken 𝓦 𝓘 p r.1 (pop_elsewhere 𝓦 𝓘 start l r.1)) (sym f)
              (pop_elsewhere-IsTaken start l s h g))

    pub local_pop-IsTaken :
        (start : ℕ) (l : LocalQueue) (s : WorkStealQueue I W)
        → InRange l s
        → IsTaken 𝓦 𝓘 p s (local_pop 𝓦 𝓘 start l s).0
    unfolding local_pop
    local_pop-IsTaken start l s h =
        let l' = record l { tick = next_tick 𝓦 𝓘 l.tick } in
        let q = shared_pop 𝓦 𝓘 s in
        let h' : InRange l' q.1 =
          subst (λ qs. l.slot < length qs) (sym (shared_pop-local_queues s)) h in
        elim (Bool-cases (next_tick 𝓦 𝓘 l.tick % 61 == 0)) [
          | inl e ↦
              rw (e, local_pop)
                (or_else-IsTaken s q _ (shared_pop-IsTaken 𝓦 𝓘 p s)
                  (λ g. then_own-IsTaken start l' q.1 h'))
          | inr e ↦ rw (e, local_pop) (then_own-IsTaken start l' s h)
        ]

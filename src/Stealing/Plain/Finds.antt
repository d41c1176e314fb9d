-- ===== src/Stealing/Plain/Finds.antt =====
-- core/src/common/work_steal.rs: when a pop from a local queue finds nothing.
use open_coroutine.Prelude.{
  ℕ, zero, suc, ◌+◌, ◌%◌, ◌<◌, ◌≡◌, refl, arith, Option, none, some, List, [], ◌∷◌, ◌++◌, inl, inr,
  Bool-cases, Option-cases, length, get_elem?, ◌==◌,
}
use mathlib.Core.Path.{subst}
use open_coroutine.Prelude.{sym, ap, ◌∙◌}
use open_coroutine.Stealing.Parts.{Workers, Injectors}
use open_coroutine.Stealing.Parts.Contents.{list_cases}
use open_coroutine.Stealing.Ordered.{get_or, set_elem}
use open_coroutine.Stealing.Ordered.Weights.{length-set_elem, get_or-set_elem}
use open_coroutine.Stealing.Plain.{
  WorkStealQueue, LocalQueue, shared_pop, own, set_own, can_steal, share, rob_all, next_tick,
  pop_own, pop_elsewhere, or_else, local_pop,
}
use open_coroutine.Stealing.Plain.Counts.{InRange}
use open_coroutine.Stealing.Plain.Pops.{pop_own-none}

module _ {T W I : Type 0} (𝓦 : Workers W T) (𝓘 : Injectors I T) where
  -- `len` counts the elements of the shared queue.
  abbrev pub IsCounted : WorkStealQueue I W → Type 0
  IsCounted s = s.len ≡ length (𝓘.items s.shared_queue)

  shared_pop-none :
      (s : WorkStealQueue I W)
      → IsCounted s
      → (shared_pop 𝓦 𝓘 s).0 ≡ none
      → (𝓘.items s.shared_queue ≡ []) × (shared_pop 𝓦 𝓘 s ≡ (none, s))
  unfolding shared_pop
  shared_pop-none s c e = elim (list_cases (𝓘.items s.shared_queue)) [
    | inl h ↦ (h, ground (arith, 𝓘.steal-nil s.shared_queue h))
    | inr (x, xs, h) ↦
        let (i, f, g) = 𝓘.steal-cons s.shared_queue x xs h in
        let long : length (𝓘.items s.shared_queue) ≡ suc (length xs) = ap length h in
        absurd (ground (arith, e, f, c, long))
  ]

  append-cons : (xs ys : List T) → 0 < length ys → xs ++ ys ≡ [] → ⊥
  append-cons [] [] h e = absurd (omega (arith, h))
  append-cons [] (y ∷ ys) h e = absurd (ground (arith, e))
  append-cons (x ∷ xs) ys h e = absurd (ground (arith, e))

  -- A theft that succeeds leaves something in the own queue.
  rob_all-own :
      (n i : ℕ) (l : LocalQueue) (s s' : WorkStealQueue I W)
      → InRange l s
      → rob_all 𝓦 𝓘 n i l s ≡ some s'
      → 𝓦.items (own 𝓦 𝓘 l s') ≡ []
      → ⊥
  unfolding rob_all
  rob_all-own zero i l s s' h e g = absurd (ground (arith, e))
  rob_all-own (suc n) i l s s' h e g =
      let j = i % length s.local_queues in
      let another = get_or (𝓦.new 0) (get_elem? s.local_queues j) in
      let mine = own 𝓦 𝓘 l s in
      let rest =
        λ (e' : rob_all 𝓦 𝓘 n (i + 1) l s ≡ some s'). rob_all-own n (i + 1) l s s' h e' g in
      elim (Bool-cases (can_steal 𝓦 𝓘 mine)) [
        | inr c ↦ absurd (ground (arith, c, e))
        | inl c ↦ elim (list_cases (𝓦.items another)) [
          | inl a ↦ rest (ground (arith, c, a, e))
          | inr (x, xs, a) ↦ elim (Option-cases (𝓦.steal (share 𝓦 𝓘 mine another) another mine)) [
            | inl f ↦ rest (ground (arith, c, a, f, e))
            | inr ((v, w), f) ↦
                let s1 = record s { local_queues = set_elem j v s.local_queues } in
                let won : some (set_own 𝓦 𝓘 l w s1) ≡ some s' = ground (arith, c, a, f, e) in
                let (taken, b, d, z, n1, n2, n3) =
                  𝓦.steal-moves (share 𝓦 𝓘 mine another) another mine v w f in
                let in_range =
                  subst (λ k. l.slot < k) (sym (length-set_elem j v s.local_queues)) h in
                let at = ap (λ r. 𝓦.items (own 𝓦 𝓘 l r)) (ap (get_or s) won) in
                let there =
                  ap 𝓦.items (get_or-set_elem l.slot w (𝓦.new 0) s1.local_queues in_range) in
                append-cons (𝓦.items mine) taken z (sym d ∙ sym there ∙ at ∙ g)
          ]
        ]
      ]

  pop_elsewhere-none :
      (start : ℕ) (l : LocalQueue) (s : WorkStealQueue I W)
      → InRange l s
      → IsCounted s
      → (pop_elsewhere 𝓦 𝓘 start l s).0 ≡ none
      → 𝓘.items s.shared_queue ≡ []
  unfolding pop_elsewhere
  pop_elsewhere-none start l s h c e = elim (Bool-cases l.stealing) [
    | inl b ↦ (shared_pop-none s c (ground (arith, b, e))).0
    | inr b ↦ elim (Option-cases (rob_all 𝓦 𝓘 (length s.local_queues) start l s)) [
      | inl f ↦ (shared_pop-none s c (ground (arith, f, b, e))).0
      | inr (s', f) ↦ absurd (
          rob_all-own (length s.local_queues) start l s s' h f
            (pop_own-none 𝓦 𝓘 l s' (ground (arith, f, b, e))).0)
    ]
  ]

  or_else-none :
      (r : Option T × WorkStealQueue I W)
      (next : WorkStealQueue I W → Option T × WorkStealQueue I W)
      → (or_else 𝓦 𝓘 r next).0 ≡ none
      → (r.0 ≡ none) × ((next r.1).0 ≡ none)
  or_else-none (none, s) next e = (refl, e)
  or_else-none (some x, s) next e = absurd (ground (arith, e))

  then_own-none :
      (start : ℕ) (l : LocalQueue) (s : WorkStealQueue I W)
      → InRange l s
      → IsCounted s
      → (or_else 𝓦 𝓘 (pop_own 𝓦 𝓘 l s) (pop_elsewhere 𝓦 𝓘 start l)).0 ≡ none
      → (𝓦.items (own 𝓦 𝓘 l s) ≡ []) × (𝓘.items s.shared_queue ≡ [])
  then_own-none start l s h c e =
      let (f, g) = or_else-none (pop_own 𝓦 𝓘 l s) (pop_elsewhere 𝓦 𝓘 start l) e in
      let (own_empty, same) = pop_own-none 𝓦 𝓘 l s f in
      (
        own_empty,
        pop_elsewhere-none start l s h c
            (ap (λ r. (pop_elsewhere 𝓦 𝓘 start l r.1).0) (sym same) ∙ g),
      )

  pub local_pop-none :
      (start : ℕ) (l : LocalQueue) (s : WorkStealQueue I W)
      → InRange l s
      → IsCounted s
      → (local_pop 𝓦 𝓘 start l s).0.0 ≡ none
      → (𝓦.items (own 𝓦 𝓘 l s) ≡ []) × (𝓘.items s.shared_queue ≡ [])
  unfolding local_pop
  local_pop-none start l s h c e =
      let l' = record l { tick = next_tick 𝓦 𝓘 l.tick } in
      let next =
        λ (s1 : WorkStealQueue I W). or_else 𝓦 𝓘 (pop_own 𝓦 𝓘 l' s1) (pop_elsewhere 𝓦 𝓘 start l') in
      elim (Bool-cases (next_tick 𝓦 𝓘 l.tick % 61 == 0)) [
        | inl t ↦
            let (f, g) = or_else-none (shared_pop 𝓦 𝓘 s) next (ground (arith, t, e)) in
            let (empty, same) = shared_pop-none s c f in
            then_own-none start l' s h c (ap (λ r. (next r.1).0) (sym same) ∙ g)
        | inr t ↦ then_own-none start l' s h c (ground (arith, t, e))
      ]

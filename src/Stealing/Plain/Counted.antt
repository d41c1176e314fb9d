-- ===== src/Stealing/Plain/Counted.antt =====
-- core/src/common/work_steal.rs: `len` counts the elements of the shared queue, so that a pop finds an
-- element if there is one.
use open_coroutine.Prelude.{
  ℕ, zero, suc, ◌+◌, ◌/◌, ◌%◌, ◌<◌, ◌≤◌, ◌≡◌, refl, ◌∙◌, ap, arith, true, Option, none, some, List,
  [], ◌∷◌, inl, inr, Bool-cases, Option-cases, length, length-append, get_elem?, ◌==◌,
}
use open_coroutine.Time.{u64_max}
use open_coroutine.Scheduler.Queues.{tally}
use open_coroutine.Stealing.Parts.{Workers, Injectors}
use open_coroutine.Stealing.Parts.Contents.{steal-items, pop-items}
use open_coroutine.Stealing.Ordered.{get_or}
use open_coroutine.Stealing.Ordered.Weights.{sum_of}
use open_coroutine.Stealing.Plain.{
  WorkStealQueue, LocalQueue, shared_push, shared_pop, own, set_own, local_len, push_half,
  local_push, rob_all, next_tick, pop_own, pop_elsewhere, or_else, local_pop,
}
use open_coroutine.Stealing.Plain.Counts.{InRange, total}
use open_coroutine.Stealing.Plain.Finds.{IsCounted}

pub tally-length : {T : Type 0} (xs : List T) → tally (λ x. true) xs ≡ length xs
tally-length [] = refl
tally-length (x ∷ xs) = omega (arith, tally-length xs)

pub get_or-sum_of :
    {A : Type 0} (f : A → ℕ) (d : A) (i : ℕ) (xs : List A)
    → i < length xs
    → f (get_or d (get_elem? xs i)) ≤ sum_of f xs
get_or-sum_of f d i [] h = absurd (omega (arith, h))
get_or-sum_of f d zero (x ∷ xs) h = omega arith
get_or-sum_of f d (suc i) (x ∷ xs) h = omega (arith, get_or-sum_of f d i xs (omega (arith, h)))

module _ {T W I : Type 0} (𝓦 : Workers W T) (𝓘 : Injectors I T) where
  abbrev pub shared : WorkStealQueue I W → ℕ
  shared s = length (𝓘.items s.shared_queue)

  -- The number of elements in all.
  abbrev pub size : WorkStealQueue I W → ℕ
  size s = total 𝓦 𝓘 (λ x. true) s

  pub shared_push-IsCounted :
      (x : T) (s : WorkStealQueue I W)
      → shared s < u64_max
      → IsCounted 𝓦 𝓘 s
      → IsCounted 𝓦 𝓘 (shared_push 𝓦 𝓘 x s) × (shared (shared_push 𝓦 𝓘 x s) ≡ suc (shared s))
  unfolding shared_push
  shared_push-IsCounted x s h c =
      let n =
        ap length (𝓘.items-push x s.shared_queue)
        ∙ length-append (𝓘.items s.shared_queue) (x ∷ []) in
      (ground (arith, n, h, c), omega (arith, n))

  pub shared_pop-IsCounted :
      (s : WorkStealQueue I W) → IsCounted 𝓦 𝓘 s → IsCounted 𝓦 𝓘 (shared_pop 𝓦 𝓘 s).1
  unfolding shared_pop
  shared_pop-IsCounted s c = elim (Option-cases (𝓘.steal s.shared_queue)) [
    | inl e ↦ ground (arith, e, c)
    | inr ((x, i), e) ↦
        let n = ap length (steal-items 𝓘 s.shared_queue i x e) in ground (arith, e, n, c)
  ]

  push_half-IsCounted :
      (n : ℕ) (w : W) (s : WorkStealQueue I W)
      → shared s + length (𝓦.items w) ≤ u64_max
      → IsCounted 𝓦 𝓘 s
      → let r = push_half 𝓦 𝓘 n w s in
        IsCounted 𝓦 𝓘 r.1 × (shared r.1 + length (𝓦.items r.0) ≡ shared s + length (𝓦.items w))
  unfolding push_half
  push_half-IsCounted zero w s h c = (c, refl)
  push_half-IsCounted (suc n) w s h c = elim (Option-cases (𝓦.pop w)) [
    | inl e ↦ rw (e, push_half) (push_half-IsCounted n w s h c)
    | inr ((x, w'), e) ↦
        let less = ap length (pop-items 𝓦 w w' x e) in
        let (c', g) = shared_push-IsCounted x s (omega (arith, less, h)) c in
        let (d, k) =
          push_half-IsCounted n w' (shared_push 𝓦 𝓘 x s) (omega (arith, less, g, h)) c' in
        rw (e, push_half) (d, omega (arith, k, less, g))
  ]

  held :
      (l : LocalQueue) (s : WorkStealQueue I W)
      → InRange l s
      → shared s + length (𝓦.items (own 𝓦 𝓘 l s)) ≤ size s
  held l s h =
      let one =
        get_or-sum_of (λ (w : W). tally (λ x. true) (𝓦.items w)) (𝓦.new 0) l.slot s.local_queues
          h in
      omega
        (arith, one, tally-length (𝓘.items s.shared_queue), tally-length (𝓦.items (own 𝓦 𝓘 l s)))

  pub local_push-IsCounted :
      (x : T) (l : LocalQueue) (s : WorkStealQueue I W)
      → InRange l s
      → size s < u64_max
      → IsCounted 𝓦 𝓘 s
      → IsCounted 𝓦 𝓘 (local_push 𝓦 𝓘 x l s)
  unfolding local_push
  local_push-IsCounted x l s h small c =
      let w = own 𝓦 𝓘 l s in
      elim (Option-cases (𝓦.push x w)) [
        | inr (w', e) ↦ rw (e, local_push) c
        | inl e ↦
            let (d, k) =
              push_half-IsCounted (local_len 𝓦 𝓘 w / 2) w s (omega (arith, held l s h, small)) c in
            let r = push_half 𝓦 𝓘 (local_len 𝓦 𝓘 w / 2) w s in
            let room : shared r.1 < u64_max = omega (arith, k, held l s h, small) in
            let (f, g) = shared_push-IsCounted x (set_own 𝓦 𝓘 l r.0 r.1) room d in
            rw (e, local_push) f
      ]

  -- What a pop leaves counted, where what came before it did.
  or_else-IsCounted :
      (r : Option T × WorkStealQueue I W)
      (next : WorkStealQueue I W → Option T × WorkStealQueue I W)
      → IsCounted 𝓦 𝓘 r.1
      → ((s : WorkStealQueue I W) → IsCounted 𝓦 𝓘 s → IsCounted 𝓦 𝓘 (next s).1)
      → IsCounted 𝓦 𝓘 (or_else 𝓦 𝓘 r next).1
  or_else-IsCounted (none, s) next c g = g s c
  or_else-IsCounted (some x, s) next c g = c

  pop_own-IsCounted :
      (l : LocalQueue) (s : WorkStealQueue I W)
      → IsCounted 𝓦 𝓘 s
      → IsCounted 𝓦 𝓘 (pop_own 𝓦 𝓘 l s).1
  unfolding pop_own
  pop_own-IsCounted l s c = elim (Option-cases (𝓦.pop (own 𝓦 𝓘 l s))) [
    | inl e ↦ ground (arith, e, c)
    | inr (r, e) ↦ ground (arith, e, c)
  ]

  rob_all-IsCounted :
      (n i : ℕ) (l : LocalQueue) (s s' : WorkStealQueue I W)
      → rob_all 𝓦 𝓘 n i l s ≡ some s'
      → IsCounted 𝓦 𝓘 s
      → IsCounted 𝓦 𝓘 s'
  unfolding rob_all
  rob_all-IsCounted zero i l s s' e c = absurd (ground (arith, e))
  rob_all-IsCounted (suc n) i l s s' e c = ground (arith, e, c, rob_all-IsCounted n (i + 1) l s s')

  pop_elsewhere-IsCounted :
      (start : ℕ) (l : LocalQueue) (s : WorkStealQueue I W)
      → IsCounted 𝓦 𝓘 s
      → IsCounted 𝓦 𝓘 (pop_elsewhere 𝓦 𝓘 start l s).1
  unfolding pop_elsewhere
  pop_elsewhere-IsCounted start l s c = elim (Bool-cases l.stealing) [
    | inl b ↦ rw (b, pop_elsewhere) (shared_pop-IsCounted s c)
    | inr b ↦ elim (Option-cases (rob_all 𝓦 𝓘 (length s.local_queues) start l s)) [
      | inl e ↦ rw (e, b, pop_elsewhere) (shared_pop-IsCounted s c)
      | inr (s', e) ↦
          rw (e, b, pop_elsewhere)
            (pop_own-IsCounted l s' (rob_all-IsCounted (length s.local_queues) start l s s' e c))
    ]
  ]

  pub local_pop-IsCounted :
      (start : ℕ) (l : LocalQueue) (s : WorkStealQueue I W)
      → IsCounted 𝓦 𝓘 s
      → IsCounted 𝓦 𝓘 (local_pop 𝓦 𝓘 start l s).0.1
  unfolding local_pop
  local_pop-IsCounted start l s c =
      let l' = record l { tick = next_tick 𝓦 𝓘 l.tick } in
      let next = λ (s1 : WorkStealQueue I W) (c1 : IsCounted 𝓦 𝓘 s1).
        or_else-IsCounted (pop_own 𝓦 𝓘 l' s1) (pop_elsewhere 𝓦 𝓘 start l')
          (pop_own-IsCounted l' s1 c1) (pop_elsewhere-IsCounted start l') in
      elim (Bool-cases (next_tick 𝓦 𝓘 l.tick % 61 == 0)) [
        | inl t ↦
            rw (t, local_pop)
              (or_else-IsCounted (shared_pop 𝓦 𝓘 s) _ (shared_pop-IsCounted s c) next)
        | inr t ↦ rw (t, local_pop) (next s c)
      ]

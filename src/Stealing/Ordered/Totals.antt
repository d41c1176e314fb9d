-- ===== src/Stealing/Ordered/Totals.antt =====
-- core/src/common/ordered_work_steal.rs: how many elements there are in all, before and after a step.
use open_coroutine.Prelude.{
  ℕ, ◌+◌, ◌≡◌, refl, ◌∙◌, ap, arith, Bool, Option, none, some, List, [], ◌∷◌, inl, inr,
  Option-cases,
}
use open_coroutine.Scheduler.Queues.{one_if, tally, tally-append}
use open_coroutine.Stealing.Parts.{Workers, Injectors, SkipMap, lookup, IsSorted}
use open_coroutine.Stealing.Parts.Contents.{steal-items, pop-items}
use open_coroutine.Stealing.Ordered.{
  Shared, Local, InRange, get_or, shared_push, first_injector, shared_pop, own, set_own,
  first_worker, pop_local,
}
use open_coroutine.Stealing.Ordered.Weights.{
  weight, of_old, weight-set_entry, lookup-IsAfterAll, sum_of, sum_of-set_elem,
}

module _ {T W I L S : Type 0} (𝓦 : Workers W T) (𝓘 : Injectors I T) (𝓛 : SkipMap L W)
    (𝓢 : SkipMap S I) (p : T → Bool) where
  abbrev pub in_worker : W → ℕ
  in_worker w = tally p (𝓦.items w)

  abbrev pub in_injector : I → ℕ
  in_injector i = tally p (𝓘.items i)

  abbrev pub in_local : L → ℕ
  in_local m = weight in_worker (𝓛.entries m)

  -- The number of elements that pass the test, in the shared queue and in all local ones.
  abbrev pub total : Shared S L → ℕ
  total s = weight in_injector (𝓢.entries s.shared_queue) + sum_of in_local s.local_queues

  abbrev pub of_taken : Option T → ℕ
  of_taken none = 0
  of_taken (some x) = one_if (p x)

  new_injector : (o : Option I) → in_injector (get_or 𝓘.new o) ≡ of_old in_injector o
  new_injector none = ap (tally p) 𝓘.items-new
  new_injector (some i) = refl

  pub shared_push-total :
      (k : ℕ) (x : T) (s : Shared S L) → total (shared_push 𝓦 𝓘 𝓛 𝓢 k x s) ≡ one_if (p x) + total s
  unfolding shared_push
  shared_push-total k x s =
      let o = lookup k (𝓢.entries s.shared_queue) in
      let i = get_or 𝓘.new o in
      let i' = 𝓘.push x i in
      let pushed : in_injector i' ≡ in_injector i + one_if (p x) =
        ap (tally p) (𝓘.items-push x i) ∙ omega (arith, tally-append p (𝓘.items i) (x ∷ [])) in
      let set = weight-set_entry in_injector k i' (𝓢.entries s.shared_queue) in
      let put = ap (weight in_injector) (𝓢.entries-put k i' s.shared_queue) in
      omega (arith, new_injector o, pushed, set, put)

  found_injector :
      (es : List (ℕ × I)) (x : T) (k : ℕ) (i' : I)
      → IsSorted es
      → first_injector 𝓦 𝓘 𝓛 𝓢 es ≡ some (x, k, i')
      → (i : I) × (lookup k es ≡ some i) × (𝓘.items i ≡ x ∷ 𝓘.items i')
  found_injector [] x k i' h e = absurd (ground arith)
  found_injector ((j, i) ∷ es) x k i' h e = elim (Option-cases (𝓘.steal i)) [
    | inl f ↦
        let (i1, l, g) = found_injector es x k i' h.1 (ground (arith, e, f)) in
        let later = lookup-IsAfterAll j k i1 es h.0 l in (i1, ground (arith, later, l), g)
    | inr ((y, i1), f) ↦ (i, ground (arith, e, f), ground (arith, e, f, steal-items 𝓘 i i1 y f))
  ]

  pub new_worker : (n : ℕ) (o : Option W) → in_worker (get_or (𝓦.new n) o) ≡ of_old in_worker o
  new_worker n none = ap (tally p) (𝓦.items-new n)
  new_worker n (some w) = refl

  pub found_worker :
      (es : List (ℕ × W)) (x : T) (k : ℕ) (w' : W)
      → IsSorted es
      → first_worker 𝓦 𝓘 𝓛 𝓢 es ≡ some (x, k, w')
      → (w : W) × (lookup k es ≡ some w) × (𝓦.items w ≡ x ∷ 𝓦.items w')
  found_worker [] x k w' h e = absurd (ground arith)
  found_worker ((j, w) ∷ es) x k w' h e = elim (Option-cases (𝓦.pop w)) [
    | inl f ↦
        let (w1, l, g) = found_worker es x k w' h.1 (ground (arith, e, f)) in
        let later = lookup-IsAfterAll j k w1 es h.0 l in (w1, ground (arith, later, l), g)
    | inr ((y, w1), f) ↦ (w, ground (arith, e, f), ground (arith, e, f, pop-items 𝓦 w w1 y f))
  ]

  pub shared_pop-total :
      (s : Shared S L) → let r = shared_pop 𝓦 𝓘 𝓛 𝓢 s in total s ≡ of_taken r.0 + total r.1
  unfolding shared_pop
  shared_pop-total s = elim (Option-cases (first_injector 𝓦 𝓘 𝓛 𝓢 (𝓢.entries s.shared_queue))) [
    | inl e ↦ ground (arith, e)
    | inr ((x, k, i'), e) ↦
        let es = 𝓢.entries s.shared_queue in
        let (i, l, g) = found_injector es x k i' (𝓢.entries-IsSorted s.shared_queue) e in
        let set = weight-set_entry in_injector k i' es in
        let put = ap (weight in_injector) (𝓢.entries-put k i' s.shared_queue) in
        let was : of_old in_injector (lookup k es) ≡ in_injector i = ap (of_old in_injector) l in
        let held = ap (tally p) g in ground (arith, e, set, put, was, held)
  ]

  pub set_own-total :
      (l : Local) (m : L) (s : Shared S L)
      → InRange l s
      → total (set_own 𝓦 𝓘 𝓛 𝓢 l m s) + in_local (own 𝓦 𝓘 𝓛 𝓢 l s) ≡ in_local m + total s
  set_own-total l m s h = omega (arith, sum_of-set_elem in_local l.slot m 𝓛.empty s.local_queues h)

  pub put_own-total :
      (l : Local) (k : ℕ) (w : W) (s : Shared S L)
      → InRange l s
      → total (set_own 𝓦 𝓘 𝓛 𝓢 l (𝓛.put k w (own 𝓦 𝓘 𝓛 𝓢 l s)) s)
          + of_old in_worker (lookup k (𝓛.entries (own 𝓦 𝓘 𝓛 𝓢 l s)))
        ≡ in_worker w + total s
  put_own-total l k w s h =
      let m = own 𝓦 𝓘 𝓛 𝓢 l s in
      let set = weight-set_entry in_worker k w (𝓛.entries m) in
      let put = ap (weight in_worker) (𝓛.entries-put k w m) in
      omega (arith, set_own-total l (𝓛.put k w m) s h, set, put)

  pub pop_local-total :
      (l : Local) (s : Shared S L)
      → InRange l s
      → let r = pop_local 𝓦 𝓘 𝓛 𝓢 l s in total s ≡ of_taken r.0 + total r.2
  unfolding pop_local
  pop_local-total l s h =
      let m = own 𝓦 𝓘 𝓛 𝓢 l s in
      elim (Option-cases (first_worker 𝓦 𝓘 𝓛 𝓢 (𝓛.entries m))) [
        | inl e ↦ ground (arith, e)
        | inr ((x, k, w'), e) ↦
            let (w, f, g) = found_worker (𝓛.entries m) x k w' (𝓛.entries-IsSorted m) e in
            let put = put_own-total l k w' s h in
            let was : of_old in_worker (lookup k (𝓛.entries m)) ≡ in_worker w =
              ap (of_old in_worker) f in
            let held = ap (tally p) g in ground (arith, e, put, was, held)
      ]

-- ===== src/Stealing/Ordered/Overflow.antt =====
-- core/src/common/ordered_work_steal.rs: what a push keeps, with the half of a full local queue that
-- goes to the shared one.
use mathlib.Core.Path.{subst}
use open_coroutine.Prelude.{
  ℕ, zero, suc, ◌+◌, ◌/◌, ◌<◌, ◌≡◌, length, get_elem?, refl, sym, ◌∙◌, ap, arith, Bool, some, List,
  [], ◌∷◌, inl, inr, Bool-cases, Option-cases, leb, ltb,
}
use open_coroutine.Scheduler.Queues.{one_if, tally}
use open_coroutine.Stealing.Parts.{Workers, Injectors, SkipMap, lookup}
use open_coroutine.Stealing.Parts.Contents.{pop-items, push-items}
use open_coroutine.Stealing.Ordered.{
  Shared, Local, InRange, get_or, own, set_own, shared_push, reverse_onto, pass, passes,
  push_to_global, local_push,
}
use open_coroutine.Stealing.Ordered.Weights.{weight, of_old, weight-set_entry}
use open_coroutine.Stealing.Ordered.Entries.{
  AllAt, IsFalling, AllAt-below, AllAt-self, AllAt-reverse_onto, reversed-IsFalling,
}
use open_coroutine.Stealing.Ordered.Totals.{
  in_worker, in_local, total, shared_push-total, set_own-total, put_own-total, new_worker,
}

module _ {T W I L S : Type 0} (𝓦 : Workers W T) (𝓘 : Injectors I T) (𝓛 : SkipMap L W)
    (𝓢 : SkipMap S I) (p : T → Bool) where
  -- The elements of a map of workers and of all queues, one copy of the local one being stale.
  abbrev pub both : L → Shared S L → ℕ
  both m s = in_local 𝓦 𝓘 𝓛 𝓢 p m + total 𝓦 𝓘 𝓛 𝓢 p s

  shared_push-local_queues :
      (k : ℕ) (x : T) (s : Shared S L) → (shared_push 𝓦 𝓘 𝓛 𝓢 k x s).local_queues ≡ s.local_queues
  unfolding shared_push
  shared_push-local_queues k x s = refl

  both-moves :
      (k : ℕ) (w w' : W) (x : T) (m : L) (s : Shared S L)
      → lookup k (𝓛.entries m) ≡ some w
      → 𝓦.pop w ≡ some (x, w')
      → both (𝓛.put k w' m) (shared_push 𝓦 𝓘 𝓛 𝓢 k x s) ≡ both m s
  both-moves k w w' x m s h f =
      let f' = in_worker 𝓦 𝓘 𝓛 𝓢 p in
      let set = weight-set_entry f' k w' (𝓛.entries m) in
      let put = ap (weight f') (𝓛.entries-put k w' m) in
      let was : of_old f' (lookup k (𝓛.entries m)) ≡ f' w = ap (of_old f') h in
      let held = ap (tally p) (pop-items 𝓦 w w' x f) in
      omega (arith, set, put, was, held, shared_push-total 𝓦 𝓘 𝓛 𝓢 p k x s)

  pass-keeps :
      (es : List (ℕ × W)) (count done : ℕ) (m : L) (s : Shared S L)
      → AllAt (𝓛.entries m) es
      → IsFalling es
      → let r = pass 𝓦 𝓘 𝓛 𝓢 es count done m s in
        (both r.1 r.2 ≡ both m s) × (r.2.local_queues ≡ s.local_queues)
  unfolding pass
  pass-keeps [] count done m s h g = (refl, refl)
  pass-keeps ((k, w) ∷ es) count done m s h g = elim (Bool-cases (leb count done)) [
    | inl e ↦ rw e (refl, refl)
    | inr e ↦ elim (Option-cases (𝓦.pop w)) [
      | inl f ↦ rw e (rw f (pass-keeps es count done m s h.1 g.1))
      | inr ((x, w'), f) ↦
          let m' = 𝓛.put k w' m in
          let s' = shared_push 𝓦 𝓘 𝓛 𝓢 k x s in
          let there =
            subst (λ fs. AllAt fs es) (sym (𝓛.entries-put k w' m))
              (AllAt-below k w' (𝓛.entries m) es g.0 h.1) in
          let rest = pass-keeps es count (done + 1) m' s' there g.1 in
          let moved = both-moves k w w' x m s h.0 f in
          rw e (rw f (rest.0 ∙ moved, rest.1 ∙ shared_push-local_queues k x s))
    ]
  ]

  pub passes-keeps :
      (fuel count done : ℕ) (m : L) (s : Shared S L) (m' : L) (s' : Shared S L)
      → passes 𝓦 𝓘 𝓛 𝓢 fuel count done m s ≡ some (m', s')
      → (both m' s' ≡ both m s) × (s'.local_queues ≡ s.local_queues)
  unfolding passes
  passes-keeps zero count done m s m' s' e = absurd (ground arith)
  passes-keeps (suc fuel) count done m s m' s' e =
      let es = 𝓛.entries m in
      let sorted = 𝓛.entries-IsSorted m in
      let r = pass 𝓦 𝓘 𝓛 𝓢 (reverse_onto es []) count done m s in
      let one =
        pass-keeps (reverse_onto es []) count done m s
          (AllAt-reverse_onto es es [] (AllAt-self es sorted) tt) (reversed-IsFalling es sorted) in
      elim (Bool-cases (ltb done count)) [
        | inl f ↦
            let rest = passes-keeps fuel count r.0 r.1 r.2 m' s' (ground (arith, e, f)) in
            (rest.0 ∙ one.0, rest.1 ∙ one.1)
        | inr f ↦ (ground (arith, e, f), ground (arith, e, f))
      ]

  push_to_global-total :
      (fuel k : ℕ) (x : T) (l : Local) (s : Shared S L) (l' : Local) (s' : Shared S L)
      → InRange l s
      → push_to_global 𝓦 𝓘 𝓛 𝓢 fuel k x l s ≡ some (l', s')
      → total 𝓦 𝓘 𝓛 𝓢 p s' ≡ one_if (p x) + total 𝓦 𝓘 𝓛 𝓢 p s
  unfolding push_to_global
  push_to_global-total fuel k x l s l' s' h e =
      elim (Option-cases (passes 𝓦 𝓘 𝓛 𝓢 fuel (l.len / 2) 0 (own 𝓦 𝓘 𝓛 𝓢 l s) s)) [
        | inl f ↦ absurd (ground (arith, e, f))
        | inr ((m, s1), f) ↦
            let (t, q) = passes-keeps fuel (l.len / 2) 0 (own 𝓦 𝓘 𝓛 𝓢 l s) s m s1 f in
            let set = set_own-total 𝓦 𝓘 𝓛 𝓢 p l m s1 (subst (λ qs. l.slot < length qs) (sym q) h) in
            let same = ap (λ qs. in_local 𝓦 𝓘 𝓛 𝓢 p (get_or 𝓛.empty (get_elem? qs l.slot))) q in
            let s2 = set_own 𝓦 𝓘 𝓛 𝓢 l m s1 in
            let last : shared_push 𝓦 𝓘 𝓛 𝓢 k x s2 ≡ s' = ground (arith, e, f) in
            let pushed = shared_push-total 𝓦 𝓘 𝓛 𝓢 p k x s2 in
            omega (arith, ap (total 𝓦 𝓘 𝓛 𝓢 p) last, t, set, same, pushed)
      ]

  -- A push adds just the element that is pushed, wherever it goes and whatever is moved on the way.
  pub local_push-total :
      (fuel k : ℕ) (x : T) (l : Local) (s : Shared S L) (l' : Local) (s' : Shared S L)
      → InRange l s
      → local_push 𝓦 𝓘 𝓛 𝓢 fuel k x l s ≡ some (l', s')
      → total 𝓦 𝓘 𝓛 𝓢 p s' ≡ one_if (p x) + total 𝓦 𝓘 𝓛 𝓢 p s
  unfolding local_push
  local_push-total fuel k x l s l' s' h e =
      let m = own 𝓦 𝓘 𝓛 𝓢 l s in
      let o = lookup k (𝓛.entries m) in
      let w = get_or (𝓦.new s.local_capacity) o in
      let global = push_to_global-total fuel k x l s l' s' h in
      elim (Bool-cases (leb s.local_capacity l.len)) [
        | inl full ↦ global (ground (arith, e, full))
        | inr room ↦ elim (Option-cases (𝓦.push x w)) [
          | inl f ↦ global (ground (arith, e, room, f))
          | inr (w', f) ↦
              let last : set_own 𝓦 𝓘 𝓛 𝓢 l (𝓛.put k w' m) s ≡ s' = ground (arith, e, room, f) in
              let put = put_own-total 𝓦 𝓘 𝓛 𝓢 p l k w' s h in
              let more = push-items 𝓦 p w w' x f in
              let fresh = new_worker 𝓦 𝓘 𝓛 𝓢 p s.local_capacity o in
              omega (arith, ap (total 𝓦 𝓘 𝓛 𝓢 p) last, put, more, fresh)
        ]
      ]

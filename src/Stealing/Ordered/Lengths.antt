-- ===== src/Stealing/Ordered/Lengths.antt =====
-- core/src/common/ordered_work_steal.rs: the count `len` of a local queue, by which a full queue knows
-- how many elements to move to the shared one.
use mathlib.Core.Path.{subst}
use open_coroutine.Prelude.{
  ℕ, zero, suc, ◌+◌, ◌-◌, ◌/◌, ◌<◌, ◌≤◌, ◌≡◌, refl, sym, ◌∙◌, ap, arith, true, none, some, List, [],
  ◌∷◌, inl, inr, Bool-cases, Option-cases, leb, ltb, length,
}
use open_coroutine.Scheduler.Queues.{tally}
use open_coroutine.Stealing.Parts.{Workers, Injectors, SkipMap, lookup}
use open_coroutine.Stealing.Parts.Contents.{list_cases, pop-items, push-items}
use open_coroutine.Stealing.Ordered.{
  Shared, Local, InRange, get_or, own, set_own, shared_push, reverse_onto, pass, passes,
  push_to_global, local_push, pop_local, first_worker,
}
use open_coroutine.Stealing.Ordered.Weights.{
  weight, of_old, weight-set_entry, weight-reverse_onto, get_or-set_elem,
}
use open_coroutine.Stealing.Ordered.Entries.{
  AllAt, IsFalling, AllAt-below, AllAt-self, AllAt-reverse_onto, reversed-IsFalling,
}
use open_coroutine.Stealing.Ordered.Totals.{in_worker, in_local, new_worker, found_worker}
use open_coroutine.Stealing.Ordered.Theft.{IsIdle}
use open_coroutine.Stealing.Ordered.Overflow.{passes-keeps}
use open_coroutine.Time.{u64_max, saturating_add}

module _ {T W I L S : Type 0} (𝓦 : Workers W T) (𝓘 : Injectors I T) (𝓛 : SkipMap L W)
    (𝓢 : SkipMap S I) where
  -- The number of elements of a worker, and of a local queue.
  abbrev pub held : W → ℕ
  held = in_worker 𝓦 𝓘 𝓛 𝓢 (λ x. true)

  abbrev pub size : L → ℕ
  size = in_local 𝓦 𝓘 𝓛 𝓢 (λ x. true)

  -- The count of a local queue is that of its elements.
  abbrev pub IsExact : Local → Shared S L → Type 0
  IsExact l s = l.len ≡ size (own 𝓦 𝓘 𝓛 𝓢 l s)

  -- A pass counts what it moves, and moves no more than it is to.
  pass-counts :
      (es : List (ℕ × W)) (count done : ℕ) (m : L) (s : Shared S L)
      → AllAt (𝓛.entries m) es
      → IsFalling es
      → done ≤ count
      → let r = pass 𝓦 𝓘 𝓛 𝓢 es count done m s in
        (r.0 + size r.1 ≡ done + size m) × (done ≤ r.0) × (r.0 ≤ count)
  unfolding pass
  pass-counts [] count done m s h g b = (refl, omega arith, b)
  pass-counts ((k, w) ∷ es) count done m s h g b = elim (Bool-cases (leb count done)) [
    | inl e ↦ rw e (refl, omega arith, b)
    | inr e ↦ elim (Option-cases (𝓦.pop w)) [
      | inl f ↦ rw e (rw f (pass-counts es count done m s h.1 g.1 b))
      | inr ((x, w'), f) ↦
          let m' = 𝓛.put k w' m in
          let s' = shared_push 𝓦 𝓘 𝓛 𝓢 k x s in
          let there =
            subst (λ fs. AllAt fs es) (sym (𝓛.entries-put k w' m))
              (AllAt-below k w' (𝓛.entries m) es g.0 h.1) in
          let below : done + 1 ≤ count = ground (arith, e) in
          let (c, d, z) = pass-counts es count (done + 1) m' s' there g.1 below in
          let set = weight-set_entry held k w' (𝓛.entries m) in
          let put = ap (weight held) (𝓛.entries-put k w' m) in
          let was : of_old held (lookup k (𝓛.entries m)) ≡ held w = ap (of_old held) h.0 in
          let less = ap (tally (λ x. true)) (pop-items 𝓦 w w' x f) in
          rw e (rw f (omega (arith, c, set, put, was, less), omega (arith, d), z))
    ]
  ]

  -- A pass over a queue that is not empty moves something.
  pass-progress :
      (es : List (ℕ × W)) (count done : ℕ) (m : L) (s : Shared S L)
      → AllAt (𝓛.entries m) es
      → IsFalling es
      → done < count
      → 0 < weight held es
      → done < (pass 𝓦 𝓘 𝓛 𝓢 es count done m s).0
  unfolding pass
  pass-progress [] count done m s h g b z = absurd (omega (arith, z))
  pass-progress ((k, w) ∷ es) count done m s h g b z = elim (list_cases (𝓦.items w)) [
    | inl e ↦
        let none_held : held w ≡ 0 = ap (tally (λ x. true)) e in
        let rest = pass-progress es count done m s h.1 g.1 b (omega (arith, z, none_held)) in
        ground (arith, 𝓦.pop-nil w e, rest, b)
    | inr (x, xs, e) ↦
        let (w', f, q, c) = 𝓦.pop-cons w x xs e in
        let m' = 𝓛.put k w' m in
        let s' = shared_push 𝓦 𝓘 𝓛 𝓢 k x s in
        let there =
          subst (λ fs. AllAt fs es) (sym (𝓛.entries-put k w' m))
            (AllAt-below k w' (𝓛.entries m) es g.0 h.1) in
        let (c, d, z) = pass-counts es count (done + 1) m' s' there g.1 (omega (arith, b)) in
        ground (arith, f, b, d)
  ]

  -- The loop ends where the queue has what is to be moved, and moves just that.
  passes-returns :
      (fuel count done : ℕ) (m : L) (s : Shared S L)
      → done ≤ count
      → count ≤ done + size m
      → count < done + fuel
      → (r : L × Shared S L) × (passes 𝓦 𝓘 𝓛 𝓢 fuel count done m s ≡ some r)
        × (count + size r.0 ≡ done + size m)
  unfolding passes
  passes-returns zero count done m s a b c = absurd (omega (arith, a, b, c))
  passes-returns (suc fuel) count done m s a b c = elim (Bool-cases (ltb done count)) [
    | inr e ↦ ((m, s), ground (arith, e), ground (arith, e, a))
    | inl e ↦
        let es = 𝓛.entries m in
        let sorted = 𝓛.entries-IsSorted m in
        let at = AllAt-reverse_onto es es [] (AllAt-self es sorted) tt in
        let falling = reversed-IsFalling es sorted in
        let r = pass 𝓦 𝓘 𝓛 𝓢 (reverse_onto es []) count done m s in
        let (x, y, z) = pass-counts (reverse_onto es []) count done m s at falling a in
        let below : done < count = ground (arith, e) in
        let more =
          pass-progress (reverse_onto es []) count done m s at falling below
            (omega (arith, weight-reverse_onto held es [], b, below)) in
        let (q, f, n) =
          passes-returns fuel count r.0 r.1 r.2 z (omega (arith, x, b)) (omega (arith, more, c)) in
        (q, ground (arith, e, f), omega (arith, n, x))
  ]

  -- The own queue after it was set.
  pub own-set_own :
      (l : Local) (m : L) (s : Shared S L) → InRange l s → own 𝓦 𝓘 𝓛 𝓢 l (set_own 𝓦 𝓘 𝓛 𝓢 l m s) ≡ m
  own-set_own l m s h = get_or-set_elem l.slot m 𝓛.empty s.local_queues h

  own-shared_push :
      (k : ℕ) (x : T) (l : Local) (s : Shared S L)
      → own 𝓦 𝓘 𝓛 𝓢 l (shared_push 𝓦 𝓘 𝓛 𝓢 k x s) ≡ own 𝓦 𝓘 𝓛 𝓢 l s
  unfolding shared_push
  own-shared_push k x l s = refl

  push_to_global-returns :
      (fuel k : ℕ) (x : T) (l : Local) (s : Shared S L)
      → InRange l s
      → IsExact l s
      → l.len / 2 < fuel
      → (r : Local × Shared S L) × (push_to_global 𝓦 𝓘 𝓛 𝓢 fuel k x l s ≡ some r)
        × IsExact r.0 r.1
        × (r.0.len ≡ l.len - l.len / 2)
  unfolding push_to_global
  push_to_global-returns fuel k x l s h e b =
      let m = own 𝓦 𝓘 𝓛 𝓢 l s in
      let (r, f, n) =
        passes-returns fuel (l.len / 2) 0 m s (omega arith) (omega (arith, e)) (omega (arith, b)) in
      let (t, q) = passes-keeps 𝓦 𝓘 𝓛 𝓢 (λ x. true) fuel (l.len / 2) 0 m s r.0 r.1 f in
      let h' : InRange l r.1 = subst (λ qs. l.slot < length qs) (sym q) h in
      let l' = record l { len = l.len - l.len / 2 } in
      let s' = set_own 𝓦 𝓘 𝓛 𝓢 l r.0 r.1 in
      let there = ap size (own-shared_push k x l s' ∙ own-set_own l r.0 r.1 h') in
      ((l', shared_push 𝓦 𝓘 𝓛 𝓢 k x s'), ground (arith, f), omega (arith, there, n, e), refl)

  -- Where the index of the local queue is one of the list, its count is that of its elements and the
  -- capacity is a usize, a push returns with any fuel above half the count, and the count is still that
  -- of its elements.
  pub local_push-returns :
      (fuel k : ℕ) (x : T) (l : Local) (s : Shared S L)
      → InRange l s
      → IsExact l s
      → s.local_capacity ≤ u64_max
      → l.len / 2 < fuel
      → (r : Local × Shared S L) × (local_push 𝓦 𝓘 𝓛 𝓢 fuel k x l s ≡ some r) × IsExact r.0 r.1
  unfolding local_push
  local_push-returns fuel k x l s h e u b =
      let m = own 𝓦 𝓘 𝓛 𝓢 l s in
      let o = lookup k (𝓛.entries m) in
      let w = get_or (𝓦.new s.local_capacity) o in
      let (r, f, g, n) = push_to_global-returns fuel k x l s h e b in
      elim (Bool-cases (leb s.local_capacity l.len)) [
        | inl full ↦ (r, ground (arith, f, full), g)
        | inr room ↦ elim (Option-cases (𝓦.push x w)) [
          | inl y ↦ (r, ground (arith, f, room, y), g)
          | inr (w', y) ↦
              let set = weight-set_entry held k w' (𝓛.entries m) in
              let put = ap (weight held) (𝓛.entries-put k w' m) in
              let more = push-items 𝓦 (λ x. true) w w' x y in
              let fresh = new_worker 𝓦 𝓘 𝓛 𝓢 (λ x. true) s.local_capacity o in
              let there = ap size (own-set_own l (𝓛.put k w' m) s h) in
              (
                (record l { len = saturating_add l.len 1 }, set_own 𝓦 𝓘 𝓛 𝓢 l (𝓛.put k w' m) s),
                ground (arith, room, y),
                ground (arith, there, set, put, more, fresh, e, u),
              )
        ]
      ]

  pub pop_local-IsExact :
      (l : Local) (s : Shared S L)
      → InRange l s
      → IsExact l s
      → let r = pop_local 𝓦 𝓘 𝓛 𝓢 l s in IsExact r.1 r.2
  unfolding pop_local
  pop_local-IsExact l s h e =
      let m = own 𝓦 𝓘 𝓛 𝓢 l s in
      elim (Option-cases (first_worker 𝓦 𝓘 𝓛 𝓢 (𝓛.entries m))) [
        | inl f ↦ ground (arith, e, f)
        | inr ((x, k, w'), f) ↦
            let (w, q, g) =
              found_worker 𝓦 𝓘 𝓛 𝓢 (λ x. true) (𝓛.entries m) x k w' (𝓛.entries-IsSorted m) f in
            let set = weight-set_entry held k w' (𝓛.entries m) in
            let put = ap (weight held) (𝓛.entries-put k w' m) in
            let was : of_old held (lookup k (𝓛.entries m)) ≡ held w = ap (of_old held) q in
            let less = ap (tally (λ x. true)) g in
            let there = ap size (own-set_own l (𝓛.put k w' m) s h) in
            ground (arith, f, there, set, put, was, less, e)
      ]

  pass-IsIdle :
      (es : List (ℕ × W)) (count done : ℕ) (m : L) (s : Shared S L)
      → IsIdle 𝓦 𝓘 𝓛 𝓢 (λ x. true) es
      → pass 𝓦 𝓘 𝓛 𝓢 es count done m s ≡ (done, m, s)
  unfolding pass
  pass-IsIdle [] count done m s h = refl
  pass-IsIdle ((k, w) ∷ es) count done m s h =
      ground (arith, 𝓦.pop-nil w h.0, pass-IsIdle es count done m s h.1)

  IsIdle-reverse_onto :
      (es fs : List (ℕ × W))
      → IsIdle 𝓦 𝓘 𝓛 𝓢 (λ x. true) es
      → IsIdle 𝓦 𝓘 𝓛 𝓢 (λ x. true) fs
      → IsIdle 𝓦 𝓘 𝓛 𝓢 (λ x. true) (reverse_onto es fs)
  IsIdle-reverse_onto [] fs h g = g
  IsIdle-reverse_onto ((k, w) ∷ es) fs h g = IsIdle-reverse_onto es ((k, w) ∷ fs) h.1 (h.0, g)

  passes-IsIdle :
      (fuel count done : ℕ) (m : L) (s : Shared S L)
      → IsIdle 𝓦 𝓘 𝓛 𝓢 (λ x. true) (𝓛.entries m)
      → done < count
      → passes 𝓦 𝓘 𝓛 𝓢 fuel count done m s ≡ none
  unfolding passes
  passes-IsIdle zero count done m s h b = refl
  passes-IsIdle (suc fuel) count done m s h b =
      let still =
        pass-IsIdle (reverse_onto (𝓛.entries m) []) count done m s
          (IsIdle-reverse_onto (𝓛.entries m) [] h tt) in
      ground (arith, b, still, passes-IsIdle fuel count done m s h b)

  -- Where the workers of a local queue are all empty, but its count, 2 or more, says that it is full, a
  -- push does not return with any fuel: it never ends.
  pub local_push-stuck :
      (fuel k : ℕ) (x : T) (l : Local) (s : Shared S L)
      → IsIdle 𝓦 𝓘 𝓛 𝓢 (λ x. true) (𝓛.entries (own 𝓦 𝓘 𝓛 𝓢 l s))
      → 2 ≤ l.len
      → s.local_capacity ≤ l.len
      → local_push 𝓦 𝓘 𝓛 𝓢 fuel k x l s ≡ none
  unfolding local_push push_to_global
  local_push-stuck fuel k x l s h b c =
      ground
        (arith, b, c, passes-IsIdle fuel (l.len / 2) 0 (own 𝓦 𝓘 𝓛 𝓢 l s) s h (omega (arith, b)))

-- ===== src/Stealing/Ordered/Theft.antt =====
-- core/src/common/ordered_work_steal.rs: what a pop keeps, with the theft from other local queues.
use mathlib.Core.Path.{subst}
use native.Mathlib.Nat.{mod-lt}
use open_coroutine.Prelude.{
  ℕ, zero, suc, ◌+◌, ◌%◌, ◌/◌, min, ◌<◌, ◌≡◌, refl, sym, ◌∙◌, ap, arith, Bool, true, false,
  if◌then◌else◌, Option, none, some, List, [], ◌∷◌, inl, inr, Bool-cases, Option-cases, ltb, length,
  get_elem?, ◌==◌,
}
use open_coroutine.Scheduler.Queues.{tally, tally-append}
use open_coroutine.Time.{saturating_add}
use open_coroutine.Stealing.Parts.{Workers, Injectors, SkipMap, lookup, set_entry}
use open_coroutine.Stealing.Parts.Contents.{list_cases}
use open_coroutine.Stealing.Ordered.{
  Shared, Local, InRange, get_or, set_elem, own, set_own, can_steal, shared_pop, first_worker,
  pop_local, rob, rob_all, pop_elsewhere, or_else, first_injector, next_tick, from_shared,
  local_pop, max_steal,
}
use open_coroutine.Stealing.Ordered.Weights.{
  weight, of_old, weight-set_entry, sum_of-set_elem, length-set_elem, get_or-set_elem,
  get_or-set_elem_ne,
}
use open_coroutine.Stealing.Ordered.Entries.{AllAt, AllAt-self, lookup-set_entry}
use open_coroutine.Stealing.Ordered.Totals.{
  in_worker, in_local, total, of_taken, shared_pop-total, put_own-total, new_worker,
  pop_local-total,
}

module _ {T W I L S : Type 0} (𝓦 : Workers W T) (𝓘 : Injectors I T) (𝓛 : SkipMap L W)
    (𝓢 : SkipMap S I) (p : T → Bool) where
  -- All workers are empty.
  abbrev pub IsIdle : List (ℕ × W) → Type 0
  IsIdle [] = Unit
  IsIdle ((k, w) ∷ es) = (𝓦.items w ≡ []) × IsIdle es

  first_worker-IsIdle : (es : List (ℕ × W)) → first_worker 𝓦 𝓘 𝓛 𝓢 es ≡ none → IsIdle es
  first_worker-IsIdle [] e = tt
  first_worker-IsIdle ((k, w) ∷ es) e = elim (list_cases (𝓦.items w)) [
    | inl h ↦ (h, first_worker-IsIdle es (ground (arith, e, 𝓦.pop-nil w h)))
    | inr (x, xs, h) ↦ let (w', f, g, c) = 𝓦.pop-cons w x xs h in absurd (ground (arith, e, f))
  ]

  pub rob-IsIdle :
      (i : ℕ) (es : List (ℕ × W)) (l : Local) (s : Shared S L)
      → IsIdle es
      → rob 𝓦 𝓘 𝓛 𝓢 i es l s ≡ (false, l, s)
  unfolding rob
  rob-IsIdle i [] l s h = refl
  rob-IsIdle i ((k, w) ∷ es) l s h = rw (h.0, rob) (rob-IsIdle i es l s h.1)

  -- Opening a worker for the booty.
  opened-total :
      (l : Local) (k : ℕ) (s : Shared S L)
      → InRange l s
      → let into = get_or (𝓦.new s.local_capacity) (lookup k (𝓛.entries (own 𝓦 𝓘 𝓛 𝓢 l s))) in
        total 𝓦 𝓘 𝓛 𝓢 p (set_own 𝓦 𝓘 𝓛 𝓢 l (𝓛.put k into (own 𝓦 𝓘 𝓛 𝓢 l s)) s) ≡ total 𝓦 𝓘 𝓛 𝓢 p s
  opened-total l k s h =
      let o = lookup k (𝓛.entries (own 𝓦 𝓘 𝓛 𝓢 l s)) in
      let into = get_or (𝓦.new s.local_capacity) o in
      omega (arith, put_own-total 𝓦 𝓘 𝓛 𝓢 p l k into s h, new_worker 𝓦 𝓘 𝓛 𝓢 p s.local_capacity o)

  module _ (i k : ℕ) (l : Local) (s : Shared S L) (h : InRange l s) (a : i < length s.local_queues)
      (d : (l.slot == i) ≡ false) where
    other : L
    other = get_or 𝓛.empty (get_elem? s.local_queues i)

    robbed : W → Shared S L
    unfolding other
    robbed w' = record s { local_queues = set_elem i (𝓛.put k w' other) s.local_queues }

    robbed-InRange : (w' : W) → InRange l (robbed w')
    unfolding robbed
    robbed-InRange w' =
        subst (λ n. l.slot < n) (sym (length-set_elem i (𝓛.put k w' other) s.local_queues)) h

    robbed-total :
        (w w' : W)
        → lookup k (𝓛.entries other) ≡ some w
        → total 𝓦 𝓘 𝓛 𝓢 p (robbed w') + in_worker 𝓦 𝓘 𝓛 𝓢 p w
          ≡ in_worker 𝓦 𝓘 𝓛 𝓢 p w' + total 𝓦 𝓘 𝓛 𝓢 p s
    unfolding robbed other
    robbed-total w w' e =
        let f = in_worker 𝓦 𝓘 𝓛 𝓢 p in
        let set = weight-set_entry f k w' (𝓛.entries other) in
        let put = ap (weight f) (𝓛.entries-put k w' other) in
        let was : of_old f (lookup k (𝓛.entries other)) ≡ f w = ap (of_old f) e in
        let sums =
          sum_of-set_elem (in_local 𝓦 𝓘 𝓛 𝓢 p) i (𝓛.put k w' other) 𝓛.empty s.local_queues a in
        omega (arith, set, put, was, sums)

    -- The booty goes from the one to the other.
    seized-total :
        (f : ℕ → ℕ) (w w' into into' : W)
        → lookup k (𝓛.entries other) ≡ some w
        → lookup k (𝓛.entries (own 𝓦 𝓘 𝓛 𝓢 l s)) ≡ some into
        → 𝓦.steal f w into ≡ some (w', into')
        → total 𝓦 𝓘 𝓛 𝓢 p
            (set_own 𝓦 𝓘 𝓛 𝓢 l (𝓛.put k into' (own 𝓦 𝓘 𝓛 𝓢 l (robbed w'))) (robbed w'))
          ≡ total 𝓦 𝓘 𝓛 𝓢 p s
    unfolding robbed
    seized-total f w w' into into' e g t =
        let v = in_worker 𝓦 𝓘 𝓛 𝓢 p in
        let (taken, b, c, z, n, x, y) = 𝓦.steal-moves f w into w' into' t in
        let lost = ap (tally p) b ∙ tally-append p taken (𝓦.items w') in
        let won = ap (tally p) c ∙ tally-append p (𝓦.items into) taken in
        let same = get_or-set_elem_ne l.slot i (𝓛.put k w' other) 𝓛.empty s.local_queues d in
        let was : of_old v (lookup k (𝓛.entries (own 𝓦 𝓘 𝓛 𝓢 l (robbed w')))) ≡ v into =
          ap (λ m. of_old v (lookup k (𝓛.entries m))) same ∙ ap (of_old v) g in
        let put = put_own-total 𝓦 𝓘 𝓛 𝓢 p l k into' (robbed w') (robbed-InRange w') in
        omega (arith, lost, won, was, put, robbed-total w w' e)

  -- A theft from another local queue moves elements and loses none.
  pub rob-total :
      (i : ℕ) (es : List (ℕ × W)) (l : Local) (s : Shared S L)
      → InRange l s
      → i < length s.local_queues
      → (l.slot == i) ≡ false
      → AllAt (𝓛.entries (get_or 𝓛.empty (get_elem? s.local_queues i))) es
      → let r = rob 𝓦 𝓘 𝓛 𝓢 i es l s in
        (total 𝓦 𝓘 𝓛 𝓢 p r.2 ≡ total 𝓦 𝓘 𝓛 𝓢 p s)
        × (length r.2.local_queues ≡ length s.local_queues)
        × (r.1.slot ≡ l.slot)
  unfolding rob other robbed
  rob-total i [] l s h a d g = (refl, refl, refl)
  rob-total i ((k, w) ∷ es) l s h a d g = elim (list_cases (𝓦.items w)) [
    | inl e ↦ rw (e, rob) (rob-total i es l s h a d g.1)
    | inr (x, xs, e) ↦
        let m = own 𝓦 𝓘 𝓛 𝓢 l s in
        let into = get_or (𝓦.new s.local_capacity) (lookup k (𝓛.entries m)) in
        let m' = 𝓛.put k into m in
        let s1 = set_own 𝓦 𝓘 𝓛 𝓢 l m' s in
        let n1 : length s1.local_queues ≡ length s.local_queues =
          length-set_elem l.slot m' s.local_queues in
        let h1 : InRange l s1 = subst (λ n. l.slot < n) (sym n1) h in
        let a1 = subst (λ n. i < n) (sym n1) a in
        let same = get_or-set_elem_ne i l.slot m' 𝓛.empty s.local_queues (ground (arith, d)) in
        let g1 = subst (λ v. AllAt (𝓛.entries v) ((k, w) ∷ es)) (sym same) g in
        let opened = opened-total l k s h in
        let share = λ (n : ℕ).
          min (min n (max_steal 𝓦 𝓘 𝓛 𝓢 s.local_capacity l))
            (saturating_add (length (𝓦.items w)) 1 / 2) in
        elim (Option-cases (𝓦.steal share w into)) [
          | inl f ↦
              let (t, n, z) = rob-total i es l s1 h1 a1 d g1.1 in
              rw (e, f, rob) (t ∙ opened, n ∙ n1, z)
          | inr ((w', into'), f) ↦
              let mine = get_or-set_elem l.slot m' 𝓛.empty s.local_queues h in
              let there =
                ap (λ v. lookup k (𝓛.entries v)) mine
                ∙ ap (lookup k) (𝓛.entries-put k into m)
                ∙ lookup-set_entry k into (𝓛.entries m) in
              let v = 𝓛.put k w' (get_or 𝓛.empty (get_elem? s1.local_queues i)) in
              let n2 =
                length-set_elem l.slot
                  (𝓛.put k into'
                    (own 𝓦 𝓘 𝓛 𝓢 l (record s1 { local_queues = set_elem i v s1.local_queues })))
                  (set_elem i v s1.local_queues)
                ∙ length-set_elem i v s1.local_queues in
              let t = seized-total i k l s1 h1 a1 d share w w' into into' g1.0 there f in
              rw (e, f, rob) (t ∙ opened, n2 ∙ n1, refl)
        ]
  ]

  pub lookup-IsIdle :
      (n k : ℕ) (es : List (ℕ × W)) → IsIdle es → 𝓦.items (get_or (𝓦.new n) (lookup k es)) ≡ []
  lookup-IsIdle n k [] h = 𝓦.items-new n
  lookup-IsIdle n k ((j, w) ∷ es) h = ground (arith, h.0, lookup-IsIdle n k es h.1, 𝓦.items-new n)

  pub set_entry-IsIdle :
      (k : ℕ) (w : W) (es : List (ℕ × W)) → 𝓦.items w ≡ [] → IsIdle es → IsIdle (set_entry k w es)
  set_entry-IsIdle k w [] e h = (e, tt)
  set_entry-IsIdle k w ((j, v) ∷ es) e h = elim (Bool-cases (ltb k j)) [
    | inl f ↦ rw f (e, h)
    | inr f ↦ elim (Bool-cases (k == j)) [
      | inl g ↦ rw f (rw g (e, h.1))
      | inr g ↦ rw f (rw g (h.0, set_entry-IsIdle k w es e h.1))
    ]
  ]

  -- Where nothing was stolen, the own queue is as empty as before.
  pub rob-stays :
      (i : ℕ) (es : List (ℕ × W)) (l : Local) (s : Shared S L)
      → InRange l s
      → IsIdle (𝓛.entries (own 𝓦 𝓘 𝓛 𝓢 l s))
      → let r = rob 𝓦 𝓘 𝓛 𝓢 i es l s in
        r.0 ≡ false → (r.1 ≡ l) × IsIdle (𝓛.entries (own 𝓦 𝓘 𝓛 𝓢 l r.2))
  unfolding rob
  rob-stays i [] l s h g = λ e. (refl, g)
  rob-stays i ((k, w) ∷ es) l s h g = elim (list_cases (𝓦.items w)) [
    | inl e ↦ rw (e, rob) (rob-stays i es l s h g)
    | inr (x, xs, e) ↦
        let m = own 𝓦 𝓘 𝓛 𝓢 l s in
        let into = get_or (𝓦.new s.local_capacity) (lookup k (𝓛.entries m)) in
        let m' = 𝓛.put k into m in
        let s1 = set_own 𝓦 𝓘 𝓛 𝓢 l m' s in
        let h1 : InRange l s1 =
          subst (λ n. l.slot < n) (sym (length-set_elem l.slot m' s.local_queues)) h in
        let mine = get_or-set_elem l.slot m' 𝓛.empty s.local_queues h in
        let idle = subst IsIdle (sym (ap (λ v. 𝓛.entries v) mine ∙ 𝓛.entries-put k into m)) (
          set_entry-IsIdle k into (𝓛.entries m) (lookup-IsIdle s.local_capacity k (𝓛.entries m) g)
            g) in
        let share = λ (n : ℕ).
          min (min n (max_steal 𝓦 𝓘 𝓛 𝓢 s.local_capacity l))
            (saturating_add (length (𝓦.items w)) 1 / 2) in
        elim (Option-cases (𝓦.steal share w into)) [
          | inl f ↦ rw (e, f, rob) (rob-stays i es l s1 h1 idle)
          | inr ((w', into'), f) ↦ rw (e, f, rob) (λ z. absurd (ground (arith, z)))
        ]
  ]

  -- The loop over all local queues moves elements and loses none.
  rob_all-total :
      (n i : ℕ) (l : Local) (s : Shared S L)
      → InRange l s
      → IsIdle (𝓛.entries (own 𝓦 𝓘 𝓛 𝓢 l s))
      → let r = rob_all 𝓦 𝓘 𝓛 𝓢 n i l s in
        (total 𝓦 𝓘 𝓛 𝓢 p r.2 ≡ total 𝓦 𝓘 𝓛 𝓢 p s)
        × (length r.2.local_queues ≡ length s.local_queues)
        × (r.1.slot ≡ l.slot)
  unfolding rob_all
  rob_all-total zero i l s h g = (refl, refl, refl)
  rob_all-total (suc n) i l s h g =
      let i' = i % length s.local_queues in
      let es = 𝓛.entries (get_or 𝓛.empty (get_elem? s.local_queues i')) in
      let r = rob 𝓦 𝓘 𝓛 𝓢 i' es l s in
      let one : (total 𝓦 𝓘 𝓛 𝓢 p r.2 ≡ total 𝓦 𝓘 𝓛 𝓢 p s)
          × (length r.2.local_queues ≡ length s.local_queues)
          × (r.1.slot ≡ l.slot) =
        elim (Bool-cases (l.slot == i')) [
          | inl f ↦
              let at : IsIdle es =
                subst (λ j. IsIdle (𝓛.entries (get_or 𝓛.empty (get_elem? s.local_queues j))))
                  (ground (arith, f)) g in
              rw (rob-IsIdle i' es l s at) (refl, refl, refl)
          | inr f ↦
              let sorted = 𝓛.entries-IsSorted (get_or 𝓛.empty (get_elem? s.local_queues i')) in
              rob-total i' es l s h (mod-lt i (omega (arith, h))) f (AllAt-self es sorted)
        ] in
      elim (Bool-cases (can_steal 𝓦 𝓘 𝓛 𝓢 s.local_capacity l)) [
        | inr c ↦ rw c (refl, refl, refl)
        | inl c ↦ elim (Bool-cases r.0) [
          | inl e ↦ rw c (rw e one)
          | inr e ↦
              let (z, idle) = rob-stays i' es l s h g e in
              let rest =
                rob_all-total n (i + 1) r.1 r.2 (omega (arith, one.1, one.2, h))
                  (subst (λ l1. IsIdle (𝓛.entries (own 𝓦 𝓘 𝓛 𝓢 l1 r.2))) (sym z) idle) in
              rw c (rw e (rest.0 ∙ one.0, rest.1 ∙ one.1, rest.2 ∙ one.2))
        ]
      ]

  pub pop_local-IsIdle :
      (l : Local) (s : Shared S L)
      → (pop_local 𝓦 𝓘 𝓛 𝓢 l s).0 ≡ none
      → IsIdle (𝓛.entries (own 𝓦 𝓘 𝓛 𝓢 l s)) × (pop_local 𝓦 𝓘 𝓛 𝓢 l s ≡ (none, l, s))
  unfolding pop_local
  pop_local-IsIdle l s e =
      let es = 𝓛.entries (own 𝓦 𝓘 𝓛 𝓢 l s) in
      elim (Option-cases (first_worker 𝓦 𝓘 𝓛 𝓢 es)) [
        | inl f ↦ (first_worker-IsIdle es f, ground (arith, f))
        | inr (r, f) ↦ absurd (ground (arith, e, f))
      ]

  -- The result of a pop from `s`: what it takes is all that is missing.
  abbrev IsTaken : Shared S L → Option T × Local × Shared S L → Type 0
  IsTaken s r = total 𝓦 𝓘 𝓛 𝓢 p s ≡ of_taken 𝓦 𝓘 𝓛 𝓢 p r.0 + total 𝓦 𝓘 𝓛 𝓢 p r.2

  if-IsTaken :
      (s : Shared S L) (b : Bool) (r q : Option T × Local × Shared S L)
      → (b ≡ true → IsTaken s r)
      → (b ≡ false → IsTaken s q)
      → IsTaken s (if b then r else q)
  if-IsTaken s true r q h g = h refl
  if-IsTaken s false r q h g = g refl

  or_else-IsTaken :
      (s : Shared S L) (r : Option T × Local × Shared S L)
      (next : Local → Shared S L → Option T × Local × Shared S L)
      → IsTaken s r
      → (r.0 ≡ none → IsTaken r.2 (next r.1 r.2))
      → IsTaken s (or_else 𝓦 𝓘 𝓛 𝓢 r next)
  or_else-IsTaken s (none, l, s1) next h g = omega (arith, h, g refl)
  or_else-IsTaken s (some x, l, s1) next h g = h

  pop_elsewhere-IsTaken :
      (start : ℕ) (l : Local) (s : Shared S L)
      → InRange l s
      → IsIdle (𝓛.entries (own 𝓦 𝓘 𝓛 𝓢 l s))
      → IsTaken s (pop_elsewhere 𝓦 𝓘 𝓛 𝓢 start l s)
  unfolding pop_elsewhere
  pop_elsewhere-IsTaken start l s h g =
      let r = rob_all 𝓦 𝓘 𝓛 𝓢 (length s.local_queues) start l s in
      let (t, n, z) = rob_all-total (length s.local_queues) start l s h g in
      let h' : InRange r.1 r.2 = omega (arith, n, z, h) in
      if-IsTaken s l.stealing _ _ (λ c. shared_pop-total 𝓦 𝓘 𝓛 𝓢 p s)
        (λ c.
          if-IsTaken s r.0 _ _ (λ e. sym t ∙ pop_local-total 𝓦 𝓘 𝓛 𝓢 p r.1 r.2 h')
            (λ e. sym t ∙ shared_pop-total 𝓦 𝓘 𝓛 𝓢 p r.2))

  pub shared_pop-local_queues :
      (s : Shared S L) → (shared_pop 𝓦 𝓘 𝓛 𝓢 s).1.local_queues ≡ s.local_queues
  unfolding shared_pop
  shared_pop-local_queues s =
      elim (Option-cases (first_injector 𝓦 𝓘 𝓛 𝓢 (𝓢.entries s.shared_queue))) [
        | inl e ↦ ground (arith, e)
        | inr (r, e) ↦ ground (arith, e)
      ]

  then_local-IsTaken :
      (start : ℕ) (l : Local) (s : Shared S L)
      → InRange l s
      → IsTaken s (or_else 𝓦 𝓘 𝓛 𝓢 (pop_local 𝓦 𝓘 𝓛 𝓢 l s) (pop_elsewhere 𝓦 𝓘 𝓛 𝓢 start))
  then_local-IsTaken start l s h =
      or_else-IsTaken s (pop_local 𝓦 𝓘 𝓛 𝓢 l s) (pop_elsewhere 𝓦 𝓘 𝓛 𝓢 start)
        (pop_local-total 𝓦 𝓘 𝓛 𝓢 p l s h)
        (λ e.
          let (g, f) = pop_local-IsIdle l s e in
          subst (λ r. IsTaken r.2 (pop_elsewhere 𝓦 𝓘 𝓛 𝓢 start r.1 r.2)) (sym f)
            (pop_elsewhere-IsTaken start l s h g))

  -- A pop takes just the element that it returns, whatever is stolen on the way.
  pub local_pop-total :
      (start : ℕ) (l : Local) (s : Shared S L)
      → InRange l s
      → let r = local_pop 𝓦 𝓘 𝓛 𝓢 start l s in
        total 𝓦 𝓘 𝓛 𝓢 p s ≡ of_taken 𝓦 𝓘 𝓛 𝓢 p r.0 + total 𝓦 𝓘 𝓛 𝓢 p r.2
  unfolding local_pop
  local_pop-total start l s h =
      let l' = record l { tick = next_tick 𝓦 𝓘 𝓛 𝓢 l.tick } in
      let q = shared_pop 𝓦 𝓘 𝓛 𝓢 s in
      let h' : InRange l' q.1 =
        subst (λ qs. l.slot < length qs) (sym (shared_pop-local_queues s)) h in
      elim (Bool-cases (next_tick 𝓦 𝓘 𝓛 𝓢 l.tick % 61 == 0)) [
        | inl e ↦ rw e (
            or_else-IsTaken s (from_shared 𝓦 𝓘 𝓛 𝓢 l' q) _ (shared_pop-total 𝓦 𝓘 𝓛 𝓢 p s)
              (λ g. then_local-IsTaken start l' q.1 h'))
        | inr e ↦ rw e (then_local-IsTaken start l' s h)
      ]

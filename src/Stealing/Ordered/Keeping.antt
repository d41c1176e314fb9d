-- ===== src/Stealing/Ordered/Keeping.antt =====
-- core/src/common/ordered_work_steal.rs: what every push and pop of a local queue keeps of its own
-- queue, a theft included.
use mathlib.Core.Path.{subst}
use open_coroutine.Prelude.{
  ℕ, zero, suc, ◌+◌, ◌/◌, ◌%◌, ◌<◌, ◌≤◌, ◌≡◌, refl, sym, ◌∙◌, ap, arith, min, Bool, true, false,
  Option, none, some, List, [], ◌∷◌, inl, inr, Bool-cases, Option-cases, ◌==◌, if◌then◌else◌,
  length, get_elem?, ltb, leb,
}
use open_coroutine.Time.{u64_max, saturating_add}
use open_coroutine.Scheduler.Queues.{tally}
use open_coroutine.Stealing.Parts.{Workers, Injectors, SkipMap, lookup}
use open_coroutine.Stealing.Parts.Contents.{list_cases}
use open_coroutine.Stealing.Ordered.{
  Shared, Local, InRange, get_or, set_elem, own, set_own, shared_push, shared_pop, pass, passes,
  push_to_global, local_push, pop_local, max_steal, can_steal, rob, rob_all, next_tick, from_shared,
  pop_elsewhere, or_else, local_pop, first_worker, first_injector, reverse_onto,
}
use open_coroutine.Stealing.Ordered.Weights.{
  get_or-set_elem_ne, weight, of_old-weight, weight-set_entry, length-set_elem,
}
use open_coroutine.Stealing.Ordered.Theft.{
  IsIdle, rob-IsIdle, rob-stays, lookup-IsIdle, set_entry-IsIdle, pop_local-IsIdle,
}
use open_coroutine.Stealing.Ordered.Overflow.{passes-keeps}
use open_coroutine.Stealing.Ordered.Lengths.{
  held, size, IsExact, own-set_own, local_push-returns, pop_local-IsExact,
}

module _ {T W I L S : Type 0} (𝓦 : Workers W T) (𝓘 : Injectors I T) (𝓛 : SkipMap L W)
    (𝓢 : SkipMap S I) where
  -- The index of the local queue is one of the list, its count that of its elements, and the capacity
  -- is a usize.
  abbrev pub IsGood : Local → Shared S L → Type 0
  IsGood l s = InRange l s × IsExact 𝓦 𝓘 𝓛 𝓢 l s × (s.local_capacity ≤ u64_max)

  weight-IsIdle : (es : List (ℕ × W)) → IsIdle 𝓦 𝓘 𝓛 𝓢 (λ x. true) es → weight (held 𝓦 𝓘 𝓛 𝓢) es ≡ 0
  weight-IsIdle [] h = refl
  weight-IsIdle ((k, w) ∷ es) h = omega (arith, ap (tally (λ x. true)) h.0, weight-IsIdle es h.1)

  tally-true : (xs : List T) → tally (λ x. true) xs ≡ length xs
  tally-true [] = refl
  tally-true (x ∷ xs) = omega (arith, tally-true xs)

  -- The booty is all that the queue of a thief holds.
  seized-IsExact :
      (i k : ℕ) (l : Local) (s : Shared S L) (w w' into' : W) (v : L)
      → InRange l s
      → (l.slot == i) ≡ false
      → IsIdle 𝓦 𝓘 𝓛 𝓢 (λ x. true) (𝓛.entries (own 𝓦 𝓘 𝓛 𝓢 l s))
      → size 𝓦 𝓘 𝓛 𝓢 (
          own 𝓦 𝓘 𝓛 𝓢 l (
            let robbed = record s { local_queues = set_elem i v s.local_queues } in
            set_own 𝓦 𝓘 𝓛 𝓢 l (𝓛.put k into' (own 𝓦 𝓘 𝓛 𝓢 l robbed)) robbed))
        ≡ length (𝓦.items into')
  seized-IsExact i k l s w w' into' v h d g =
      let robbed = record s { local_queues = set_elem i v s.local_queues } in
      let h' : InRange l robbed =
        subst (λ n. l.slot < n) (sym (length-set_elem i v s.local_queues)) h in
      let m = own 𝓦 𝓘 𝓛 𝓢 l s in
      let same = get_or-set_elem_ne l.slot i v 𝓛.empty s.local_queues d in
      let there = ap (size 𝓦 𝓘 𝓛 𝓢) (
        own-set_own 𝓦 𝓘 𝓛 𝓢 l (𝓛.put k into' (own 𝓦 𝓘 𝓛 𝓢 l robbed)) robbed h'
        ∙ ap (𝓛.put k into') same) in
      let f = held 𝓦 𝓘 𝓛 𝓢 in
      let set = weight-set_entry f k into' (𝓛.entries m) in
      let put = ap (weight f) (𝓛.entries-put k into' m) in
      omega (
        arith,
        there,
        set,
        put,
        weight-IsIdle (𝓛.entries m) g,
        tally-true (𝓦.items into'),
        of_old-weight f k (𝓛.entries m),
      )

  steal-length :
      (f : ℕ → ℕ) (n : ℕ) (w into w' into' : W)
      → 𝓦.items into ≡ []
      → ((k : ℕ) → f k ≤ n)
      → 𝓦.steal f w into ≡ some (w', into')
      → length (𝓦.items into') ≤ n
  steal-length f n w into w' into' e b t =
      let (taken, x, c, z, y, u, v) = 𝓦.steal-moves f w into w' into' t in
      let all = ap length c in ground (arith, e, all, y, b (length (𝓦.items w)))

  rob-IsGood :
      (i : ℕ) (es : List (ℕ × W)) (l : Local) (s : Shared S L)
      → IsGood l s
      → (l.slot == i) ≡ false
      → IsIdle 𝓦 𝓘 𝓛 𝓢 (λ x. true) (𝓛.entries (own 𝓦 𝓘 𝓛 𝓢 l s))
      → let r = rob 𝓦 𝓘 𝓛 𝓢 i es l s in IsGood r.1 r.2
  unfolding rob
  rob-IsGood i [] l s h d g = h
  rob-IsGood i ((k, w) ∷ es) l s h d g = elim (list_cases (𝓦.items w)) [
    | inl e ↦ rw (e, rob) (rob-IsGood i es l s h d g)
    | inr (x, xs, e) ↦
        let m = own 𝓦 𝓘 𝓛 𝓢 l s in
        let into = get_or (𝓦.new s.local_capacity) (lookup k (𝓛.entries m)) in
        let m' = 𝓛.put k into m in
        let s1 = set_own 𝓦 𝓘 𝓛 𝓢 l m' s in
        let h1 : InRange l s1 =
          subst (λ n. l.slot < n) (sym (length-set_elem l.slot m' s.local_queues)) h.0 in
        let mine = own-set_own 𝓦 𝓘 𝓛 𝓢 l m' s h.0 in
        let fresh = lookup-IsIdle 𝓦 𝓘 𝓛 𝓢 (λ x. true) s.local_capacity k (𝓛.entries m) g in
        let idle =
          subst (IsIdle 𝓦 𝓘 𝓛 𝓢 (λ x. true))
            (sym (ap (λ v. 𝓛.entries v) mine ∙ 𝓛.entries-put k into m))
            (set_entry-IsIdle 𝓦 𝓘 𝓛 𝓢 (λ x. true) k into (𝓛.entries m) fresh g) in
        let was = weight-IsIdle (𝓛.entries m) g in
        let now = weight-IsIdle (𝓛.entries (own 𝓦 𝓘 𝓛 𝓢 l s1)) idle in
        let share = λ (n : ℕ).
          min (min n (max_steal 𝓦 𝓘 𝓛 𝓢 s.local_capacity l))
            (saturating_add (length (𝓦.items w)) 1 / 2) in
        elim (Option-cases (𝓦.steal share w into)) [
          | inl f ↦
              let zero_len : l.len ≡ 0 = h.1 ∙ was in
              rw (e, f, rob) (rob-IsGood i es l s1 (h1, zero_len ∙ sym now, h.2) d idle)
          | inr ((w', into'), f) ↦
              let v = 𝓛.put k w' (get_or 𝓛.empty (get_elem? s1.local_queues i)) in
              let n2 =
                length-set_elem l.slot
                  (𝓛.put k into'
                    (own 𝓦 𝓘 𝓛 𝓢 l (record s1 { local_queues = set_elem i v s1.local_queues })))
                  (set_elem i v s1.local_queues)
                ∙ length-set_elem i v s1.local_queues in
              let exact = seized-IsExact i k l s1 w w' into' v h1 d idle in
              let few =
                steal-length share (max_steal 𝓦 𝓘 𝓛 𝓢 s.local_capacity l) w into w' into' fresh
                  (λ n. omega arith) f in
              let sum : saturating_add l.len (length (𝓦.items into')) ≡ length (𝓦.items into') =
                ground (arith, h.1, h.2, was, few) in
              rw (e, f, rob) (omega (arith, n2, h1), sum ∙ sym exact, h.2)
        ]
  ]

  rob_all-IsGood :
      (n i : ℕ) (l : Local) (s : Shared S L)
      → IsGood l s
      → IsIdle 𝓦 𝓘 𝓛 𝓢 (λ x. true) (𝓛.entries (own 𝓦 𝓘 𝓛 𝓢 l s))
      → let r = rob_all 𝓦 𝓘 𝓛 𝓢 n i l s in IsGood r.1 r.2
  unfolding rob_all
  rob_all-IsGood zero i l s h g = h
  rob_all-IsGood (suc n) i l s h g =
      let i' = i % length s.local_queues in
      let es = 𝓛.entries (get_or 𝓛.empty (get_elem? s.local_queues i')) in
      let r = rob 𝓦 𝓘 𝓛 𝓢 i' es l s in
      let one : IsGood r.1 r.2 = elim (Bool-cases (l.slot == i')) [
        | inl f ↦
            let at : IsIdle 𝓦 𝓘 𝓛 𝓢 (λ x. true) es =
              subst
                (λ j.
                  IsIdle 𝓦 𝓘 𝓛 𝓢 (λ x. true)
                    (𝓛.entries (get_or 𝓛.empty (get_elem? s.local_queues j))))
                (ground (arith, f)) g in
            rw (rob-IsIdle 𝓦 𝓘 𝓛 𝓢 (λ x. true) i' es l s at) h
        | inr f ↦ rob-IsGood i' es l s h f g
      ] in
      elim (Bool-cases (can_steal 𝓦 𝓘 𝓛 𝓢 s.local_capacity l)) [
        | inr c ↦ rw c h
        | inl c ↦ elim (Bool-cases r.0) [
          | inl e ↦ rw c (rw e one)
          | inr e ↦
              let (z, idle) = rob-stays 𝓦 𝓘 𝓛 𝓢 (λ x. true) i' es l s h.0 g e in
              rw c (
                rw e (
                  rob_all-IsGood n (i + 1) r.1 r.2 one (
                    subst (λ l1. IsIdle 𝓦 𝓘 𝓛 𝓢 (λ x. true) (𝓛.entries (own 𝓦 𝓘 𝓛 𝓢 l1 r.2)))
                      (sym z) idle)))
        ]
      ]

  shared_pop-IsGood : (l : Local) (s : Shared S L) → IsGood l s → IsGood l (shared_pop 𝓦 𝓘 𝓛 𝓢 s).1
  unfolding shared_pop
  shared_pop-IsGood l s h =
      elim (Option-cases (first_injector 𝓦 𝓘 𝓛 𝓢 (𝓢.entries s.shared_queue))) [
        | inl e ↦ ground (arith, e, h)
        | inr (r, e) ↦ ground (arith, e, h)
      ]

  pop_local-IsGood :
      (l : Local) (s : Shared S L) → IsGood l s → let r = pop_local 𝓦 𝓘 𝓛 𝓢 l s in IsGood r.1 r.2
  unfolding pop_local
  pop_local-IsGood l s h =
      let m = own 𝓦 𝓘 𝓛 𝓢 l s in
      let e = pop_local-IsExact 𝓦 𝓘 𝓛 𝓢 l s h.0 h.1 in
      elim (Option-cases (first_worker 𝓦 𝓘 𝓛 𝓢 (𝓛.entries m))) [
        | inl f ↦ (ground (arith, f, h.0), e, ground (arith, f, h.2))
        | inr ((x, k, w'), f) ↦
            let n = length-set_elem l.slot (𝓛.put k w' m) s.local_queues in
            (ground (arith, f, h.0, n), e, ground (arith, f, h.2))
      ]

  if-IsGood :
      (b : Bool) (r q : Option T × Local × Shared S L)
      → (b ≡ true → IsGood r.1 r.2)
      → (b ≡ false → IsGood q.1 q.2)
      → let t = if b then r else q in IsGood t.1 t.2
  if-IsGood true r q h g = h refl
  if-IsGood false r q h g = g refl

  or_else-IsGood :
      (r : Option T × Local × Shared S L)
      (next : Local → Shared S L → Option T × Local × Shared S L)
      → IsGood r.1 r.2
      → (r.0 ≡ none → let q = next r.1 r.2 in IsGood q.1 q.2)
      → let q = or_else 𝓦 𝓘 𝓛 𝓢 r next in IsGood q.1 q.2
  or_else-IsGood (none, l, s1) next h g = g refl
  or_else-IsGood (some x, l, s1) next h g = h

  pop_elsewhere-IsGood :
      (start : ℕ) (l : Local) (s : Shared S L)
      → IsGood l s
      → IsIdle 𝓦 𝓘 𝓛 𝓢 (λ x. true) (𝓛.entries (own 𝓦 𝓘 𝓛 𝓢 l s))
      → let q = pop_elsewhere 𝓦 𝓘 𝓛 𝓢 start l s in IsGood q.1 q.2
  unfolding pop_elsewhere
  pop_elsewhere-IsGood start l s h g =
      let r = rob_all 𝓦 𝓘 𝓛 𝓢 (length s.local_queues) start l s in
      let h' = rob_all-IsGood (length s.local_queues) start l s h g in
      if-IsGood l.stealing _ _ (λ c. shared_pop-IsGood l s h)
        (λ c.
          if-IsGood r.0 _ _ (λ e. pop_local-IsGood r.1 r.2 h') (λ e. shared_pop-IsGood r.1 r.2 h'))

  then_local-IsGood :
      (start : ℕ) (l : Local) (s : Shared S L)
      → IsGood l s
      → let q = or_else 𝓦 𝓘 𝓛 𝓢 (pop_local 𝓦 𝓘 𝓛 𝓢 l s) (pop_elsewhere 𝓦 𝓘 𝓛 𝓢 start) in
        IsGood q.1 q.2
  then_local-IsGood start l s h =
      or_else-IsGood (pop_local 𝓦 𝓘 𝓛 𝓢 l s) (pop_elsewhere 𝓦 𝓘 𝓛 𝓢 start) (pop_local-IsGood l s h)
        (λ e.
          let (g, f) = pop_local-IsIdle 𝓦 𝓘 𝓛 𝓢 (λ x. true) l s e in
          subst (λ r. let q = pop_elsewhere 𝓦 𝓘 𝓛 𝓢 start r.1 r.2 in IsGood q.1 q.2) (sym f)
            (pop_elsewhere-IsGood start l s h g))

  -- A pop keeps that the index of the local queue is one of the list, that its count is that of its
  -- elements, and that the capacity is a usize, the booty of a theft counted.
  pub local_pop-IsGood :
      (start : ℕ) (l : Local) (s : Shared S L)
      → IsGood l s
      → let r = local_pop 𝓦 𝓘 𝓛 𝓢 start l s in IsGood r.1 r.2
  unfolding local_pop
  local_pop-IsGood start l s h =
      let l' = record l { tick = next_tick 𝓦 𝓘 𝓛 𝓢 l.tick } in
      let q = shared_pop 𝓦 𝓘 𝓛 𝓢 s in
      elim (Bool-cases (next_tick 𝓦 𝓘 𝓛 𝓢 l.tick % 61 == 0)) [
        | inl e ↦ rw e (
            or_else-IsGood (from_shared 𝓦 𝓘 𝓛 𝓢 l' q) _ (shared_pop-IsGood l' s h)
              (λ g. then_local-IsGood start l' q.1 (shared_pop-IsGood l' s h)))
        | inr e ↦ rw e (then_local-IsGood start l' s h)
      ]

  pass-capacity :
      (es : List (ℕ × W)) (count done : ℕ) (m : L) (s : Shared S L)
      → (pass 𝓦 𝓘 𝓛 𝓢 es count done m s).2.local_capacity ≡ s.local_capacity
  unfolding pass shared_push
  pass-capacity [] count done m s = refl
  pass-capacity ((k, w) ∷ es) count done m s = elim (Bool-cases (leb count done)) [
    | inl e ↦ rw e refl
    | inr e ↦ elim (Option-cases (𝓦.pop w)) [
      | inl f ↦ rw e (rw f (pass-capacity es count done m s))
      | inr ((x, w'), f) ↦
          rw e (rw f (pass-capacity es count (done + 1) (𝓛.put k w' m) (shared_push 𝓦 𝓘 𝓛 𝓢 k x s)))
    ]
  ]

  passes-capacity :
      (fuel count done : ℕ) (m : L) (s : Shared S L) (m' : L) (s' : Shared S L)
      → passes 𝓦 𝓘 𝓛 𝓢 fuel count done m s ≡ some (m', s')
      → s'.local_capacity ≡ s.local_capacity
  unfolding passes
  passes-capacity zero count done m s m' s' e = absurd (ground arith)
  passes-capacity (suc fuel) count done m s m' s' e =
      let es = reverse_onto (𝓛.entries m) [] in
      let r = pass 𝓦 𝓘 𝓛 𝓢 es count done m s in
      elim (Bool-cases (ltb done count)) [
        | inl f ↦
            passes-capacity fuel count r.0 r.1 r.2 m' s' (ground (arith, e, f))
            ∙ pass-capacity es count done m s
        | inr f ↦ ground (arith, e, f)
      ]

  -- What a push leaves as it is.
  abbrev Frame : Local → Shared S L → Local → Shared S L → Type 0
  Frame l s l' s' =
      (l'.slot ≡ l.slot)
      × (length s'.local_queues ≡ length s.local_queues)
      × (s'.local_capacity ≡ s.local_capacity)

  push_to_global-Frame :
      (fuel k : ℕ) (x : T) (l : Local) (s : Shared S L) (l' : Local) (s' : Shared S L)
      → push_to_global 𝓦 𝓘 𝓛 𝓢 fuel k x l s ≡ some (l', s')
      → Frame l s l' s'
  unfolding push_to_global shared_push
  push_to_global-Frame fuel k x l s l' s' e =
      elim (Option-cases (passes 𝓦 𝓘 𝓛 𝓢 fuel (l.len / 2) 0 (own 𝓦 𝓘 𝓛 𝓢 l s) s)) [
        | inl f ↦ absurd (ground (arith, e, f))
        | inr ((m, s1), f) ↦
            let o = own 𝓦 𝓘 𝓛 𝓢 l s in
            let (t, q) = passes-keeps 𝓦 𝓘 𝓛 𝓢 (λ y. true) fuel (l.len / 2) 0 o s m s1 f in
            let c = passes-capacity fuel (l.len / 2) 0 o s m s1 f in
            let n = length-set_elem l.slot m s1.local_queues ∙ ap length q in
            (ground (arith, e, f), ground (arith, e, f, n), ground (arith, e, f, c))
      ]

  local_push-Frame :
      (fuel k : ℕ) (x : T) (l : Local) (s : Shared S L) (l' : Local) (s' : Shared S L)
      → local_push 𝓦 𝓘 𝓛 𝓢 fuel k x l s ≡ some (l', s')
      → Frame l s l' s'
  unfolding local_push
  local_push-Frame fuel k x l s l' s' e =
      let m = own 𝓦 𝓘 𝓛 𝓢 l s in
      let w = get_or (𝓦.new s.local_capacity) (lookup k (𝓛.entries m)) in
      let global = push_to_global-Frame fuel k x l s l' s' in
      elim (Bool-cases (leb s.local_capacity l.len)) [
        | inl full ↦ global (ground (arith, e, full))
        | inr room ↦ elim (Option-cases (𝓦.push x w)) [
          | inl f ↦ global (ground (arith, e, room, f))
          | inr (w', f) ↦
              let n = length-set_elem l.slot (𝓛.put k w' m) s.local_queues in
              (
                ground (arith, e, room, f),
                ground (arith, e, room, f, n),
                ground (arith, e, room, f),
              )
        ]
      ]

  -- A push with fuel above half the count returns, and keeps the same.
  pub local_push-IsGood :
      (fuel k : ℕ) (x : T) (l : Local) (s : Shared S L)
      → IsGood l s
      → l.len / 2 < fuel
      → (r : Local × Shared S L) × (local_push 𝓦 𝓘 𝓛 𝓢 fuel k x l s ≡ some r) × IsGood r.0 r.1
  local_push-IsGood fuel k x l s h b =
      let (r, e, g) = local_push-returns 𝓦 𝓘 𝓛 𝓢 fuel k x l s h.0 h.1 h.2 b in
      let (z, n, c) = local_push-Frame fuel k x l s r.0 r.1 e in
      (r, e, (omega (arith, z, n, h.0), g, omega (arith, c, h.2)))

-- ===== src/Stealing/Ordered/Order.antt =====
-- core/src/common/ordered_work_steal.rs: the order of priorities. The least number is the highest
-- precedence.
use open_coroutine.Prelude.{ℕ, ◌<◌, ◌≡◌, arith, some, List, [], ◌∷◌, inl, inr, Option-cases}
use open_coroutine.Stealing.Parts.{Workers, Injectors, SkipMap, lookup, IsAfterAll, IsSorted}
use open_coroutine.Stealing.Parts.Contents.{list_cases}
use open_coroutine.Stealing.Ordered.{
  Shared, Local, own, shared_pop, first_injector, first_worker, pop_local,
}
use open_coroutine.Stealing.Ordered.Weights.{lookup-IsAfterAll}

-- The queue under the key `k` has `x` in front, and those under lesser keys are empty.
abbrev pub IsLeast : {E T : Type 0} → (E → List T) → List (ℕ × E) → T → Type 0
IsLeast {E} {T} items es x =
    (k : ℕ) × (v : E) × (xs : List T) × (lookup k es ≡ some v)
    × (items v ≡ x ∷ xs)
    × ((j : ℕ) (u : E) → j < k → lookup j es ≡ some u → items u ≡ [])

module _ {T W I L S : Type 0} (𝓦 : Workers W T) (𝓘 : Injectors I T) (𝓛 : SkipMap L W)
    (𝓢 : SkipMap S I) where
  IsLeast-cons :
      {E : Type 0}
      → (items : E → List T) (j : ℕ) (u : E) (es : List (ℕ × E)) (x : T) → IsAfterAll j es
      → items u ≡ []
      → IsLeast items es x
      → IsLeast items ((j, u) ∷ es) x
  IsLeast-cons items j u es x h e (k, v, xs, l, g, below) =
      let later = lookup-IsAfterAll j k v es h l in
      (k, v, xs, ground (arith, later, l), g, λ i t b f. ground (arith, e, f, b, below i t b))

  IsLeast-head :
      {E : Type 0}
      → (items : E → List T) (k : ℕ) (v : E) (es : List (ℕ × E)) (x : T) (xs : List T)
      → items v ≡ x ∷ xs
      → IsLeast items ((k, v) ∷ es) x
  IsLeast-head items k v es x xs e =
      (k, v, xs, ground arith, e, λ i t b f. absurd (ground (arith, b, f)))

  first_worker-IsLeast :
      (es : List (ℕ × W)) (x : T) (k : ℕ) (w' : W)
      → IsSorted es
      → first_worker 𝓦 𝓘 𝓛 𝓢 es ≡ some (x, k, w')
      → IsLeast 𝓦.items es x
  first_worker-IsLeast [] x k w' h e = absurd (ground arith)
  first_worker-IsLeast ((j, w) ∷ es) x k w' h e = elim (list_cases (𝓦.items w)) [
    | inl f ↦
        IsLeast-cons 𝓦.items j w es x h.0 f
          (first_worker-IsLeast es x k w' h.1 (ground (arith, e, 𝓦.pop-nil w f)))
    | inr (y, ys, f) ↦
        let (w1, g, c, d) = 𝓦.pop-cons w y ys f in
        let same : y ≡ x = ground (arith, e, g) in
        IsLeast-head 𝓦.items j w es x ys (ground (arith, f, same))
  ]

  first_injector-IsLeast :
      (es : List (ℕ × I)) (x : T) (k : ℕ) (i' : I)
      → IsSorted es
      → first_injector 𝓦 𝓘 𝓛 𝓢 es ≡ some (x, k, i')
      → IsLeast 𝓘.items es x
  first_injector-IsLeast [] x k i' h e = absurd (ground arith)
  first_injector-IsLeast ((j, i) ∷ es) x k i' h e = elim (list_cases (𝓘.items i)) [
    | inl f ↦
        IsLeast-cons 𝓘.items j i es x h.0 f
          (first_injector-IsLeast es x k i' h.1 (ground (arith, e, 𝓘.steal-nil i f)))
    | inr (y, ys, f) ↦
        let (i1, g, c) = 𝓘.steal-cons i y ys f in
        let same : y ≡ x = ground (arith, e, g) in
        IsLeast-head 𝓘.items j i es x ys (ground (arith, f, same))
  ]

  -- The element that a pop from the own queue returns stands first under its key, and the queues under
  -- all lesser keys are empty: it is one of the highest precedence.
  pub pop_local-IsLeast :
      (l : Local) (s : Shared S L) (x : T)
      → (pop_local 𝓦 𝓘 𝓛 𝓢 l s).0 ≡ some x
      → IsLeast 𝓦.items (𝓛.entries (own 𝓦 𝓘 𝓛 𝓢 l s)) x
  unfolding pop_local
  pop_local-IsLeast l s x e =
      let m = own 𝓦 𝓘 𝓛 𝓢 l s in
      elim (Option-cases (first_worker 𝓦 𝓘 𝓛 𝓢 (𝓛.entries m))) [
        | inl f ↦ absurd (ground (arith, e, f))
        | inr ((y, k, w'), f) ↦
            first_worker-IsLeast (𝓛.entries m) x k w' (𝓛.entries-IsSorted m) (ground (arith, e, f))
      ]

  -- The element that a pop from the shared queue returns stands first under its key, and the queues
  -- under all lesser keys are empty: it is one of the highest precedence.
  pub shared_pop-IsLeast :
      (s : Shared S L) (x : T)
      → (shared_pop 𝓦 𝓘 𝓛 𝓢 s).0 ≡ some x
      → IsLeast 𝓘.items (𝓢.entries s.shared_queue) x
  unfolding shared_pop
  shared_pop-IsLeast s x e =
      elim (Option-cases (first_injector 𝓦 𝓘 𝓛 𝓢 (𝓢.entries s.shared_queue))) [
        | inl f ↦ absurd (ground (arith, e, f))
        | inr ((y, k, i'), f) ↦
            first_injector-IsLeast (𝓢.entries s.shared_queue) x k i'
              (𝓢.entries-IsSorted s.shared_queue) (ground (arith, e, f))
      ]

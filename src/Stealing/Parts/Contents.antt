-- ===== src/Stealing/Parts/Contents.antt =====
-- The crates st3 and crossbeam-deque: what a call that succeeds says of the elements.
use open_coroutine.Prelude.{
  ◌+◌, ◌≡◌, refl, ap, arith, Bool, some, List, [], ◌∷◌, ◌⊎◌, length, inl, inr, Bool-cases, ltb,
}
use open_coroutine.Scheduler.Queues.{one_if, tally, tally-append}
use open_coroutine.Stealing.Parts.{Workers, Injectors}

pub list_cases : {A : Type 0} (xs : List A) → (xs ≡ []) ⊎ ((y : A) × (ys : List A) × (xs ≡ y ∷ ys))
list_cases [] = inl refl
list_cases (y ∷ ys) = inr (y, ys, refl)

pub steal-items :
    {T I : Type 0} (𝓘 : Injectors I T) (i i' : I) (x : T)
    → 𝓘.steal i ≡ some (x, i')
    → 𝓘.items i ≡ x ∷ 𝓘.items i'
steal-items 𝓘 i i' x e = elim (list_cases (𝓘.items i)) [
  | inl h ↦ absurd (ground (arith, 𝓘.steal-nil i h))
  | inr (y, ys, h) ↦ let (i1, f, g) = 𝓘.steal-cons i y ys h in ground (arith, h, f, g, e)
]

module _ {T W : Type 0} (𝓦 : Workers W T) where
  pub pop-items : (w w' : W) (x : T) → 𝓦.pop w ≡ some (x, w') → 𝓦.items w ≡ x ∷ 𝓦.items w'
  pop-items w w' x e = elim (list_cases (𝓦.items w)) [
    | inl h ↦ absurd (ground (arith, 𝓦.pop-nil w h))
    | inr (y, ys, h) ↦ let (w1, f, g, c) = 𝓦.pop-cons w y ys h in ground (arith, h, f, g, e)
  ]

  pub push-items :
      (p : T → Bool) (w w' : W) (x : T)
      → 𝓦.push x w ≡ some w'
      → tally p (𝓦.items w') ≡ tally p (𝓦.items w) + one_if (p x)
  push-items p w w' x e = elim (Bool-cases (ltb (length (𝓦.items w)) (𝓦.capacity w))) [
    | inl h ↦
        let (w1, f, g, c) = 𝓦.push-room x w (ground arith) in
        let same : w1 ≡ w' = ground (arith, e, f) in
        omega (
          arith,
          ap (λ v. tally p (𝓦.items v)) same,
          ap (tally p) g,
          tally-append p (𝓦.items w) (x ∷ []),
        )
    | inr h ↦ absurd (ground (arith, e, 𝓦.push-full x w (ground arith)))
  ]

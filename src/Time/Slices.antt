-- ===== src/Time/Slices.antt =====
-- The pieces of `get_slices` (core/src/common/mod.rs).
use mathlib.Core.List.{append_assoc}
use open_coroutine.Prelude.{
  ℕ, zero, suc, ◌-◌, ◌≤◌, ◌<◌, ◌≡◌, refl, inl, inr, List, [], ◌∷◌, ◌++◌, none, some, All, sum,
  arith, ltb, Bool-cases,
}
use open_coroutine.Time.{slices_loop, get_slices}

-- What the loop adds to `result`.
record Cut (left slice : ℕ) (pieces : List ℕ) : Type 0 where
  total : sum pieces ≡ left
  bounded : All (λ p. (0 < p) × (p ≤ slice)) pieces

slices_loop-Cut :
    (fuel left slice : ℕ) (result : List ℕ)
    → 0 < slice
    → 0 < left
    → left < fuel
    → (pieces : List ℕ) × (slices_loop fuel left slice result ≡ some (result ++ pieces))
      × Cut left slice pieces
unfolding slices_loop
slices_loop-Cut zero left slice result s l f = absurd (omega arith)
slices_loop-Cut (suc fuel) left slice result s l f = elim (Bool-cases (ltb slice left)) [
  | inl more ↦
      let h : slice < left = ground arith in
      let (pieces, e, c) =
        slices_loop-Cut fuel (left - slice) slice (result ++ slice ∷ []) s (omega arith)
          (omega arith) in
      (
        slice ∷ pieces,
        rw more (rw e (rw (append_assoc result (slice ∷ []) pieces))),
        record { total = omega (arith, c.total); bounded = ((s, omega arith), c.bounded) },
      )
  | inr last ↦
      (left ∷ [], rw last, record { total = omega arith; bounded = ((l, ground arith), tt) })
]

-- For a positive slice and fuel above the total, `get_slices` returns: its pieces are positive, none
-- is longer than the slice, and they add up to the total.
pub get_slices-total :
    (fuel total slice : ℕ)
    → 0 < slice
    → total < fuel
    → (pieces : List ℕ) × (get_slices fuel total slice ≡ some pieces)
      × (sum pieces ≡ total)
      × All (λ p. (0 < p) × (p ≤ slice)) pieces
unfolding get_slices
get_slices-total fuel zero slice s f = ([], refl, refl, tt)
get_slices-total fuel (suc n) slice s f =
    let (pieces, e, c) = slices_loop-Cut fuel (suc n) slice [] s (omega arith) f in
    (pieces, ground (arith, e), c.total, c.bounded)

slices_loop-zero :
    (fuel left : ℕ) (result : List ℕ) → 0 < left → slices_loop fuel left 0 result ≡ none
unfolding slices_loop
slices_loop-zero zero left result h = refl
slices_loop-zero (suc fuel) left result h =
    ground (arith, slices_loop-zero fuel (left - 0) (result ++ 0 ∷ []))

-- On a positive total and a zero slice `get_slices` returns with no amount of fuel.
pub get_slices-zero_slice : (fuel total : ℕ) → 0 < total → get_slices fuel total 0 ≡ none
unfolding get_slices
get_slices-zero_slice fuel total h = ground (arith, slices_loop-zero fuel total [])

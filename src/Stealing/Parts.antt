-- ===== src/Stealing/Parts.antt =====
-- What core/src/common/ordered_work_steal.rs and work_steal.rs rely on of other crates: the bounded
-- `Worker` of st3, the `Injector` of crossbeam-deque and the `SkipMap` of crossbeam-skiplist, each used
-- by one thread at a time; a `Steal::Retry` is tried again until it is none. Instances by lists show
-- that the laws can hold.
pub mod Contents
pub mod Instances
use open_coroutine.Prelude.{
  ℕ, ◌+◌, ◌≤◌, ◌<◌, ◌≡◌, Bool, Option, none, some, List, [], ◌∷◌, ◌++◌, length, ltb, ◌==◌,
  if◌then◌else◌,
}

-- `push`: `none` is `Err`. `steal f victim thief` moves items from the front of the one to the back of
-- the other, `f` of what there is at most, and 1 at least; `none` is `Err`.
pub record Workers (W T : Type 0) : Type 0 where
  pub new : ℕ → W
  pub items : W → List T
  pub capacity : W → ℕ
  pub push : T → W → Option W
  pub pop : W → Option (T × W)
  pub steal : (ℕ → ℕ) → W → W → Option (W × W)
  pub items-new : (n : ℕ) → items (new n) ≡ []
  pub push-room :
      (x : T) (w : W)
      → length (items w) < capacity w
      → (w' : W) × (push x w ≡ some w')
        × (items w' ≡ items w ++ x ∷ [])
        × (capacity w' ≡ capacity w)
  pub push-full : (x : T) (w : W) → capacity w ≤ length (items w) → push x w ≡ none
  pub pop-nil : (w : W) → items w ≡ [] → pop w ≡ none
  pub pop-cons :
      (w : W) (x : T) (xs : List T)
      → items w ≡ x ∷ xs
      → (w' : W) × (pop w ≡ some (x, w')) × (items w' ≡ xs) × (capacity w' ≡ capacity w)
  pub steal-moves :
      (f : ℕ → ℕ) (v t v' t' : W)
      → steal f v t ≡ some (v', t')
      → (taken : List T) × (items v ≡ taken ++ items v')
        × (items t' ≡ items t ++ taken)
        × (0 < length taken)
        × (length taken ≤ f (length (items v)))
        × (capacity v' ≡ capacity v)
        × (capacity t' ≡ capacity t)

pub record Injectors (I T : Type 0) : Type 0 where
  pub new : I
  pub items : I → List T
  pub push : T → I → I
  pub steal : I → Option (T × I)
  pub items-new : items new ≡ []
  pub items-push : (x : T) (i : I) → items (push x i) ≡ items i ++ x ∷ []
  pub steal-nil : (i : I) → items i ≡ [] → steal i ≡ none
  pub steal-cons :
      (i : I) (x : T) (xs : List T)
      → items i ≡ x ∷ xs
      → (i' : I) × (steal i ≡ some (x, i')) × (items i' ≡ xs)

module _ {V : Type 0} where
  -- The value under a key, in entries in the order of their keys.
  abbrev pub lookup : ℕ → List (ℕ × V) → Option V
  lookup k [] = none
  lookup k ((j, v) ∷ es) = if ltb k j then none else (if k == j then some v else lookup k es)

  abbrev pub set_entry : ℕ → V → List (ℕ × V) → List (ℕ × V)
  set_entry k v [] = (k, v) ∷ []
  set_entry k v ((j, u) ∷ es) =
      if ltb k j
      then (k, v) ∷ (j, u) ∷ es
      else (if k == j then (k, v) ∷ es else (j, u) ∷ set_entry k v es)

  abbrev pub IsAfterAll : ℕ → List (ℕ × V) → Type 0
  IsAfterAll k [] = Unit
  IsAfterAll k ((j, v) ∷ es) = (k < j) × IsAfterAll k es

  abbrev pub IsSorted : List (ℕ × V) → Type 0
  IsSorted [] = Unit
  IsSorted ((j, v) ∷ es) = IsAfterAll j es × IsSorted es

-- A map that is read in the order of its keys. `put` sets the value under a key, present or not, as a
-- value's change in its place does.
pub record SkipMap (M V : Type 0) : Type 0 where
  pub empty : M
  pub entries : M → List (ℕ × V)
  pub put : ℕ → V → M → M
  pub entries-empty : entries empty ≡ []
  pub entries-put : (k : ℕ) (v : V) (m : M) → entries (put k v m) ≡ set_entry k v (entries m)
  pub entries-IsSorted : (m : M) → IsSorted (entries m)

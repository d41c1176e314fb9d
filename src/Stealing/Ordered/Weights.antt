-- ===== src/Stealing/Ordered/Weights.antt =====
-- Sums over the entries of a map and over a list, with one place replaced.
use open_coroutine.Prelude.{
  ◌==◌, false, ℕ, zero, suc, ◌+◌, ◌<◌, ◌≤◌, ◌≡◌, refl, arith, Option, none, some, List, [], ◌∷◌,
  length, get_elem?,
}
use open_coroutine.Stealing.Parts.{lookup, set_entry, IsAfterAll}
use open_coroutine.Stealing.Ordered.{set_elem, get_or, reverse_onto}

module _ {V : Type 0} where
  abbrev pub weight : (V → ℕ) → List (ℕ × V) → ℕ
  weight f [] = 0
  weight f ((k, v) ∷ es) = f v + weight f es

  abbrev pub of_old : (V → ℕ) → Option V → ℕ
  of_old f none = 0
  of_old f (some v) = f v

  pub weight-set_entry :
      (f : V → ℕ) (k : ℕ) (v : V) (es : List (ℕ × V))
      → weight f (set_entry k v es) + of_old f (lookup k es) ≡ f v + weight f es
  weight-set_entry f k v [] = omega arith
  weight-set_entry f k v ((j, u) ∷ es) = ground (arith, weight-set_entry f k v es)

  pub of_old-weight : (f : V → ℕ) (k : ℕ) (es : List (ℕ × V)) → of_old f (lookup k es) ≤ weight f es
  of_old-weight f k [] = omega arith
  of_old-weight f k ((j, u) ∷ es) = ground (arith, of_old-weight f k es)

  pub lookup-IsAfterAll :
      (j k : ℕ) (v : V) (es : List (ℕ × V)) → IsAfterAll j es → lookup k es ≡ some v → j < k
  lookup-IsAfterAll j k v [] h e = ground arith
  lookup-IsAfterAll j k v ((i, u) ∷ es) h e = ground (arith, lookup-IsAfterAll j k v es h.1)

  pub weight-reverse_onto :
      (f : V → ℕ) (es fs : List (ℕ × V)) → weight f (reverse_onto es fs) ≡ weight f es + weight f fs
  weight-reverse_onto f [] fs = omega arith
  weight-reverse_onto f ((k, v) ∷ es) fs = omega (arith, weight-reverse_onto f es ((k, v) ∷ fs))

module _ {A : Type 0} where
  abbrev pub sum_of : (A → ℕ) → List A → ℕ
  sum_of f [] = 0
  sum_of f (x ∷ xs) = f x + sum_of f xs

  pub sum_of-set_elem :
      (f : A → ℕ) (i : ℕ) (a d : A) (xs : List A)
      → i < length xs
      → sum_of f (set_elem i a xs) + f (get_or d (get_elem? xs i)) ≡ f a + sum_of f xs
  sum_of-set_elem f i a d [] h = absurd (omega arith)
  sum_of-set_elem f zero a d (x ∷ xs) h = omega arith
  sum_of-set_elem f (suc i) a d (x ∷ xs) h = omega (arith, sum_of-set_elem f i a d xs (omega arith))

  pub length-set_elem : (i : ℕ) (a : A) (xs : List A) → length (set_elem i a xs) ≡ length xs
  length-set_elem i a [] = refl
  length-set_elem zero a (x ∷ xs) = refl
  length-set_elem (suc i) a (x ∷ xs) = omega (arith, length-set_elem i a xs)

  pub get_or-set_elem :
      (i : ℕ) (a d : A) (xs : List A) → i < length xs → get_or d (get_elem? (set_elem i a xs) i) ≡ a
  get_or-set_elem i a d [] h = absurd (omega arith)
  get_or-set_elem zero a d (x ∷ xs) h = refl
  get_or-set_elem (suc i) a d (x ∷ xs) h = get_or-set_elem i a d xs (omega arith)

  pub get_or-set_elem_ne :
      (i j : ℕ) (m d : A) (ms : List A)
      → (i == j) ≡ false
      → get_or d (get_elem? (set_elem j m ms) i) ≡ get_or d (get_elem? ms i)
  get_or-set_elem_ne i j m d [] h = refl
  get_or-set_elem_ne zero zero m d (n ∷ ms) h = absurd (ground arith)
  get_or-set_elem_ne zero (suc j) m d (n ∷ ms) h = refl
  get_or-set_elem_ne (suc i) zero m d (n ∷ ms) h = refl
  get_or-set_elem_ne (suc i) (suc j) m d (n ∷ ms) h = get_or-set_elem_ne i j m d ms (ground arith)

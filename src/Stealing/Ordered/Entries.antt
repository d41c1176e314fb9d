-- ===== src/Stealing/Ordered/Entries.antt =====
-- Entries of a map that are walked through while the map changes.
use open_coroutine.Prelude.{ℕ, ◌<◌, ◌≡◌, ◌∙◌, arith, some, List, [], ◌∷◌}
use open_coroutine.Stealing.Parts.{lookup, set_entry, IsAfterAll, IsSorted}
use open_coroutine.Stealing.Ordered.{reverse_onto}

module _ {V : Type 0} where
  -- The map `es` has each of the entries.
  abbrev pub AllAt : List (ℕ × V) → List (ℕ × V) → Type 0
  AllAt es [] = Unit
  AllAt es ((k, v) ∷ fs) = (lookup k es ≡ some v) × AllAt es fs

  abbrev pub IsBelow : ℕ → List (ℕ × V) → Type 0
  IsBelow k [] = Unit
  IsBelow k ((j, v) ∷ fs) = (j < k) × IsBelow k fs

  -- The keys go down.
  abbrev pub IsFalling : List (ℕ × V) → Type 0
  IsFalling [] = Unit
  IsFalling ((k, v) ∷ fs) = IsBelow k fs × IsFalling fs

  pub lookup-set_entry : (k : ℕ) (v : V) (es : List (ℕ × V)) → lookup k (set_entry k v es) ≡ some v
  lookup-set_entry k v [] = ground arith
  lookup-set_entry k v ((j, u) ∷ es) = ground (arith, lookup-set_entry k v es)

  pub lookup-set_entry_below :
      (j k : ℕ) (v : V) (es : List (ℕ × V)) → j < k → lookup j (set_entry k v es) ≡ lookup j es
  lookup-set_entry_below j k v [] h = ground arith
  lookup-set_entry_below j k v ((i, u) ∷ es) h = ground (arith, lookup-set_entry_below j k v es h)

  pub AllAt-below :
      (k : ℕ) (v : V) (es fs : List (ℕ × V))
      → IsBelow k fs
      → AllAt es fs
      → AllAt (set_entry k v es) fs
  AllAt-below k v es [] h g = tt
  AllAt-below k v es ((j, w) ∷ fs) h g =
      (lookup-set_entry_below j k v es h.0 ∙ g.0, AllAt-below k v es fs h.1 g.1)

  AllAt-cons :
      (j : ℕ) (u : V) (es fs : List (ℕ × V))
      → IsAfterAll j fs
      → AllAt es fs
      → AllAt ((j, u) ∷ es) fs
  AllAt-cons j u es [] h g = tt
  AllAt-cons j u es ((k, w) ∷ fs) h g = (ground (arith, h.0, g.0), AllAt-cons j u es fs h.1 g.1)

  pub AllAt-self : (es : List (ℕ × V)) → IsSorted es → AllAt es es
  AllAt-self [] h = tt
  AllAt-self ((j, u) ∷ es) h = (ground arith, AllAt-cons j u es es h.0 (AllAt-self es h.1))

  pub AllAt-reverse_onto :
      (m es fs : List (ℕ × V)) → AllAt m es → AllAt m fs → AllAt m (reverse_onto es fs)
  AllAt-reverse_onto m [] fs h g = g
  AllAt-reverse_onto m ((k, v) ∷ es) fs h g = AllAt-reverse_onto m es ((k, v) ∷ fs) h.1 (h.0, g)

  -- Each key of `es` is above all of `fs`.
  abbrev AllAbove : List (ℕ × V) → List (ℕ × V) → Type 0
  AllAbove [] fs = Unit
  AllAbove ((k, v) ∷ es) fs = IsBelow k fs × AllAbove es fs

  AllAbove-cons :
      (k : ℕ) (v : V) (es fs : List (ℕ × V))
      → IsAfterAll k es
      → AllAbove es fs
      → AllAbove es ((k, v) ∷ fs)
  AllAbove-cons k v [] fs h g = tt
  AllAbove-cons k v ((j, u) ∷ es) fs h g = ((h.0, g.0), AllAbove-cons k v es fs h.1 g.1)

  reverse_onto-IsFalling :
      (es fs : List (ℕ × V))
      → IsSorted es
      → IsFalling fs
      → AllAbove es fs
      → IsFalling (reverse_onto es fs)
  reverse_onto-IsFalling [] fs h g a = g
  reverse_onto-IsFalling ((k, v) ∷ es) fs h g a =
      reverse_onto-IsFalling es ((k, v) ∷ fs) h.1 (a.0, g) (AllAbove-cons k v es fs h.0 a.1)

  AllAbove-nil : (es : List (ℕ × V)) → AllAbove es []
  AllAbove-nil [] = tt
  AllAbove-nil ((k, v) ∷ es) = (tt, AllAbove-nil es)

  pub reversed-IsFalling : (es : List (ℕ × V)) → IsSorted es → IsFalling (reverse_onto es [])
  reversed-IsFalling es h = reverse_onto-IsFalling es [] h tt (AllAbove-nil es)

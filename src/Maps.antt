-- ===== src/Maps.antt =====
-- What the selector, the scheduler and the pool rely on of `DashMap` and `DashSet`, used by one thread:
-- a set is a map to the unit, as in that crate. And an instance by functions, which shows that the laws
-- can hold.
use open_coroutine.Prelude.{ℕ, ◌≡◌, refl, Option, none, some, ◌==◌, if◌then◌else◌}

pub record MapLaws (M V : Type 0) : Type 0 where
  pub get : ℕ → M → Option V
  pub insert : ℕ → V → M → M
  pub remove : ℕ → M → M
  pub get-insert :
      (k j : ℕ) (v : V) (m : M) → get j (insert k v m) ≡ (if k == j then some v else get j m)
  pub get-remove : (k j : ℕ) (m : M) → get j (remove k m) ≡ (if k == j then none else get j m)

-- A type of maps for each type of values.
pub record Maps : Type 1 where
  pub Map : Type 0 → Type 0
  pub laws : (V : Type 0) → MapLaws (Map V) V

module _ {V : Type 0} where
  abbrev pub fun_insert : ℕ → V → (ℕ → Option V) → ℕ → Option V
  fun_insert k v m j = if k == j then some v else m j

  abbrev fun_remove : ℕ → (ℕ → Option V) → ℕ → Option V
  fun_remove k m j = if k == j then none else m j

-- Maps as functions.
abbrev pub fun_maps : Maps
fun_maps = record {
  Map = λ V. ℕ → Option V;
  laws = λ V. record {
    get = λ k m. m k;
    insert = fun_insert;
    remove = fun_remove;
    get-insert = λ k j v m. refl;
    get-remove = λ k j m. refl;
  };
}

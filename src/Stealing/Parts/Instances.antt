-- ===== src/Stealing/Parts/Instances.antt =====
-- The interfaces by lists.
use mathlib.Core.Path.{subst}
use open_coroutine.Prelude.{
  ℕ, zero, suc, ◌-◌, ◌≤◌, ◌<◌, ◌≡◌, refl, ap, arith, min, inl, inr, Bool-cases, Option, none, some,
  List, [], ◌∷◌, ◌++◌, length, ltb, ◌==◌, if◌then◌else◌,
}
use open_coroutine.Stealing.Parts.{Workers, Injectors, SkipMap, set_entry, IsAfterAll, IsSorted}

pub record Worker (T : Type 0) : Type 0 where
  pub held : List T
  pub room : ℕ

abbrev pub Sorted : Type 0 → Type 0
Sorted V = (es : List (ℕ × V)) × IsSorted es

module _ {T : Type 0} where
  abbrev pub front : ℕ → List T → List T
  front zero xs = []
  front (suc n) [] = []
  front (suc n) (x ∷ xs) = x ∷ front n xs

  abbrev pub back : ℕ → List T → List T
  back zero xs = xs
  back (suc n) [] = []
  back (suc n) (x ∷ xs) = back n xs

  front-back : (n : ℕ) (xs : List T) → xs ≡ front n xs ++ back n xs
  front-back zero xs = refl
  front-back (suc n) [] = refl
  front-back (suc n) (x ∷ xs) = ap (λ ys. x ∷ ys) (front-back n xs)

  length-front : (n : ℕ) (xs : List T) → n ≤ length xs → length (front n xs) ≡ n
  length-front zero xs h = refl
  length-front (suc n) [] h = absurd (omega arith)
  length-front (suc n) (x ∷ xs) h = omega (arith, length-front n xs (omega (arith, h)))

  abbrev pub worker_push : T → Worker T → Option (Worker T)
  worker_push x w =
      if ltb (length w.held) w.room then some (record w { held = w.held ++ x ∷ [] }) else none

  abbrev pub worker_pop_of : ℕ → List T → Option (T × Worker T)
  worker_pop_of n [] = none
  worker_pop_of n (x ∷ xs) = some (x, record { held = xs; room = n })

  -- What a theft may take.
  abbrev pub worker_share : (ℕ → ℕ) → Worker T → Worker T → ℕ
  worker_share f v t = min (f (length v.held)) (min (length v.held) (t.room - length t.held))

  abbrev pub worker_steal : (ℕ → ℕ) → Worker T → Worker T → Option (Worker T × Worker T)
  worker_steal f v t =
      let n = worker_share f v t in
      if n == 0
      then none
      else some (record v { held = back n v.held }, record t { held = t.held ++ front n v.held })

  pub worker_pop-cons :
      (w : Worker T) (x : T) (xs : List T)
      → w.held ≡ x ∷ xs
      → (w' : Worker T) × (worker_pop_of w.room w.held ≡ some (x, w'))
        × (w'.held ≡ xs)
        × (w'.room ≡ w.room)
  worker_pop-cons w x xs e =
      (record { held = xs; room = w.room }, ap (worker_pop_of w.room) e, refl, refl)

  pub worker_steal-moves :
      (f : ℕ → ℕ) (v t v' t' : Worker T)
      → worker_steal f v t ≡ some (v', t')
      → (taken : List T) × (v.held ≡ taken ++ v'.held)
        × (t'.held ≡ t.held ++ taken)
        × (0 < length taken)
        × (length taken ≤ f (length v.held))
        × (v'.room ≡ v.room)
        × (t'.room ≡ t.room)
  worker_steal-moves f v t v' t' e =
      let n = worker_share f v t in
      elim (Bool-cases (n == 0)) [
        | inl h ↦ absurd (ground (arith, e, h))
        | inr h ↦ (
          front n v.held,
          ground (arith, e, h, front-back n v.held),
          ground (arith, e, h),
          ground (arith, h, length-front n v.held (omega arith)),
          omega (arith, length-front n v.held (omega arith)),
          ground (arith, e, h),
          ground (arith, e, h),
        )
      ]

  pub worker_push-room :
      (x : T) (w : Worker T)
      → length w.held < w.room
      → (w' : Worker T) × (worker_push x w ≡ some w')
        × (w'.held ≡ w.held ++ x ∷ [])
        × (w'.room ≡ w.room)
  worker_push-room x w h = (record w { held = w.held ++ x ∷ [] }, ground (arith, h), refl, refl)

  abbrev pub list_workers : Workers (Worker T) T
  list_workers = record {
    new = λ n. record { held = []; room = n };
    items = λ w. w.held;
    capacity = λ w. w.room;
    push = worker_push;
    pop = λ w. worker_pop_of w.room w.held;
    steal = worker_steal;
    items-new = λ n. refl;
    push-room = worker_push-room;
    push-full = λ x w h. ground (arith, h);
    pop-nil = λ w e. ap (worker_pop_of w.room) e;
    pop-cons = worker_pop-cons;
    steal-moves = worker_steal-moves;
  }

  abbrev pub first : List T → Option (T × List T)
  first [] = none
  first (x ∷ xs) = some (x, xs)

  abbrev pub list_injectors : Injectors (List T) T
  list_injectors = record {
    new = [];
    items = λ xs. xs;
    push = λ x xs. xs ++ x ∷ [];
    steal = first;
    items-new = refl;
    items-push = λ x xs. refl;
    steal-nil = λ xs e. ap first e;
    steal-cons = λ i x xs e. (xs, ap first e, refl);
  }

module _ {V : Type 0} where
  set_entry-IsAfterAll :
      (j k : ℕ) (v : V) (es : List (ℕ × V))
      → j < k
      → IsAfterAll j es
      → IsAfterAll j (set_entry k v es)
  set_entry-IsAfterAll j k v [] h g = (h, tt)
  set_entry-IsAfterAll j k v ((i, u) ∷ es) h g = elim (Bool-cases (ltb k i)) [
    | inl e ↦ rw e (h, g)
    | inr e ↦ elim (Bool-cases (k == i)) [
      | inl f ↦ rw e (rw f (h, g.1))
      | inr f ↦ rw e (rw f (g.0, set_entry-IsAfterAll j k v es h g.1))
    ]
  ]

  IsAfterAll-later : (j k : ℕ) (es : List (ℕ × V)) → j < k → IsAfterAll k es → IsAfterAll j es
  IsAfterAll-later j k [] h g = tt
  IsAfterAll-later j k ((i, u) ∷ es) h g = (omega (arith, h, g.0), IsAfterAll-later j k es h g.1)

  pub set_entry-IsSorted :
      (k : ℕ) (v : V) (es : List (ℕ × V)) → IsSorted es → IsSorted (set_entry k v es)
  set_entry-IsSorted k v [] h = (tt, tt)
  set_entry-IsSorted k v ((j, u) ∷ es) h = elim (Bool-cases (ltb k j)) [
    | inl e ↦
        let below : k < j = ground (arith, e) in
        rw e ((below, IsAfterAll-later k j es below h.0), h)
    | inr e ↦ elim (Bool-cases (k == j)) [
      | inl f ↦
          let same : j ≡ k = ground (arith, f) in
          rw e (rw f (subst (λ i. IsAfterAll i es) same h.0, h.1))
      | inr f ↦
          let below : j < k = ground (arith, e, f) in
          rw e (rw f (set_entry-IsAfterAll j k v es below h.0, set_entry-IsSorted k v es h.1))
    ]
  ]

  abbrev pub list_skip_map : SkipMap (Sorted V) V
  list_skip_map = record {
    empty = ([], tt);
    entries = λ m. m.0;
    put = λ k v m. (set_entry k v m.0, set_entry-IsSorted k v m.0 m.1);
    entries-empty = refl;
    entries-put = λ k v m. refl;
    entries-IsSorted = λ m. m.1;
  }

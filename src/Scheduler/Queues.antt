-- ===== src/Scheduler/Queues.antt =====
-- What the scheduler relies on of its ready queue, and the heaps of the standard library. The ready
-- queue is an `OrderedLocalQueue` (core/src/common/ordered_work_steal.rs), here without other threads
-- that steal from it; its order is left open. An instance by lists shows that the laws can hold.
use open_coroutine.Prelude.{
  ℕ, ◌+◌, ◌≡◌, refl, arith, Bool, Option, none, some, List, [], ◌∷◌, ◌++◌, ltb, if◌then◌else◌,
}

abbrev pub one_if : Bool → ℕ
one_if b = if b then 1 else 0

-- `count p q` is the number of elements of `q` that pass the test `p`.
pub record ReadyQueue (Q T : Type 0) : Type 0 where
  pub push : T → Q → Q
  pub pop : Q → Option (T × Q)
  pub count : (T → Bool) → Q → ℕ
  pub count-push : (p : T → Bool) (x : T) (q : Q) → count p (push x q) ≡ one_if (p x) + count p q
  pub count-pop :
      (p : T → Bool) (q : Q) (x : T) (q' : Q)
      → pop q ≡ some (x, q')
      → count p q ≡ one_if (p x) + count p q'

module _ {T : Type 0} where
  abbrev pub tally : (T → Bool) → List T → ℕ
  tally p [] = 0
  tally p (x ∷ xs) = one_if (p x) + tally p xs

  pub tally-append : (p : T → Bool) (xs ys : List T) → tally p (xs ++ ys) ≡ tally p xs + tally p ys
  tally-append p [] ys = omega arith
  tally-append p (x ∷ xs) ys = omega (arith, tally-append p xs ys)

  abbrev pub list_pop : List T → Option (T × List T)
  list_pop [] = none
  list_pop (x ∷ xs) = some (x, xs)

  pub list_count-pop :
      (p : T → Bool) (q : List T) (x : T) (q' : List T)
      → list_pop q ≡ some (x, q')
      → tally p q ≡ one_if (p x) + tally p q'
  list_count-pop p [] x q' h = ground arith
  list_count-pop p (y ∷ ys) x q' h = ground arith

  -- First in, first out.
  abbrev pub list_queue : ReadyQueue (List T) T
  list_queue = record {
    push = λ x q. q ++ x ∷ [];
    pop = list_pop;
    count = tally;
    count-push = λ p x q. omega (arith, tally-append p q (x ∷ []));
    count-pop = list_count-pop;
  }

  -- A `BinaryHeap` whose head is the least time: a sorted list. The order of equal times, which the
  -- heap leaves open, is that of insertion.
  unfoldable pub heap_push : (T → ℕ) → T → List T → List T
  heap_push time x [] = x ∷ []
  heap_push time x (y ∷ ys) =
      let rest = heap_push time x ys in if ltb (time x) (time y) then x ∷ y ∷ ys else y ∷ rest

  pub heap_push-tally :
      (time : T → ℕ) (p : T → Bool) (x : T) (xs : List T)
      → tally p (heap_push time x xs) ≡ one_if (p x) + tally p xs
  unfolding heap_push
  heap_push-tally time p x [] = refl
  heap_push-tally time p x (y ∷ ys) = ground (arith, heap_push-tally time p x ys)

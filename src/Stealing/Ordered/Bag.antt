-- ===== src/Stealing/Ordered/Bag.antt =====
-- core/src/common/ordered_work_steal.rs: the queues as a bag, which forgets where its elements are and
-- in which order. A bag says of each test how many of its elements pass.
use open_coroutine.Prelude.{ℕ, ◌+◌, ◌≡◌, refl, ◌∙◌, arith, Bool, Option, none, some}
use open_coroutine.Scheduler.Queues.{one_if}
use open_coroutine.Stealing.Parts.{Workers, Injectors, SkipMap}
use open_coroutine.Stealing.Ordered.{Shared, Local, InRange, local_push, local_pop}
use open_coroutine.Stealing.Ordered.Totals.{total, of_taken}
use open_coroutine.Stealing.Ordered.Overflow.{local_push-total}
use open_coroutine.Stealing.Ordered.Theft.{local_pop-total}

abbrev pub Bag : Type 0 → Type 0
Bag T = (T → Bool) → ℕ

module _ {T : Type 0} where
  abbrev pub add : T → Bag T → Bag T
  add x b = λ p. one_if (p x) + b p

  abbrev pub add_back : Option T → Bag T → Bag T
  add_back none b = b
  add_back (some x) b = add x b

module _ {T W I L S : Type 0} (𝓦 : Workers W T) (𝓘 : Injectors I T) (𝓛 : SkipMap L W)
    (𝓢 : SkipMap S I) where
  abbrev pub bag : Shared S L → Bag T
  bag s = λ p. total 𝓦 𝓘 𝓛 𝓢 p s

  add_back-of_taken :
      (p : T → Bool) (o : Option T) (s : Shared S L)
      → of_taken 𝓦 𝓘 𝓛 𝓢 p o + total 𝓦 𝓘 𝓛 𝓢 p s ≡ add_back o (bag s) p
  add_back-of_taken p none s = omega arith
  add_back-of_taken p (some x) s = refl

  -- Where the index of the local queue is one of the list, a push that returns adds just the element
  -- pushed to the bag of all queues, wherever it goes and whatever moves to the shared queue.
  pub local_push-bag :
      (fuel k : ℕ) (x : T) (l : Local) (s : Shared S L) (l' : Local) (s' : Shared S L)
      → InRange l s
      → local_push 𝓦 𝓘 𝓛 𝓢 fuel k x l s ≡ some (l', s')
      → bag s' ≡ add x (bag s)
  local_push-bag fuel k x l s l' s' h e = λ i p. local_push-total 𝓦 𝓘 𝓛 𝓢 p fuel k x l s l' s' h e i

  -- Where the index of the local queue is one of the list, a pop takes just the element that it returns
  -- from the bag of all queues, whatever is stolen from other local queues on the way, and none where it
  -- returns none.
  pub local_pop-bag :
      (start : ℕ) (l : Local) (s : Shared S L)
      → InRange l s
      → let r = local_pop 𝓦 𝓘 𝓛 𝓢 start l s in bag s ≡ add_back r.0 (bag r.2)
  local_pop-bag start l s h =
      let r = local_pop 𝓦 𝓘 𝓛 𝓢 start l s in
      λ i p. (local_pop-total 𝓦 𝓘 𝓛 𝓢 p start l s h ∙ add_back-of_taken p r.0 r.2) i

-- ===== src/Stealing/Ready.antt =====
-- core/src/common/ordered_work_steal.rs as the ready queue of core/src/scheduler.rs: the interface of
-- the scheduler, filled. `priority` is that of an element, and `start` the random number of a theft.
use open_coroutine.Prelude.{ℕ, suc, ◌+◌, ◌/◌, ◌≡◌, ap, arith, Bool, Option, none, some}
use open_coroutine.Scheduler.Queues.{one_if, ReadyQueue}
use open_coroutine.Stealing.Parts.{Workers, Injectors, SkipMap}
use open_coroutine.Stealing.Ordered.{Shared, Local, local_pop}
use open_coroutine.Stealing.Ordered.Totals.{total, of_taken}
use open_coroutine.Stealing.Ordered.Overflow.{local_push-total}
use open_coroutine.Stealing.Ordered.Theft.{local_pop-total}
use open_coroutine.Stealing.Ordered.Keeping.{IsGood, local_push-IsGood, local_pop-IsGood}

module _ {T W I L S : Type 0} (𝓦 : Workers W T) (𝓘 : Injectors I T) (𝓛 : SkipMap L W)
    (𝓢 : SkipMap S I) where
  -- A local queue and what it shares, in a state that pushes and pops lead to.
  abbrev pub Ready : Type 0
  Ready = (l : Local) × (s : Shared S L) × IsGood 𝓦 𝓘 𝓛 𝓢 l s

  -- `OrderedLocalQueue::push`
  unfoldable pub push : (T → ℕ) → T → Ready → Ready
  push priority x (l, s, h) =
      let (r, e, g) =
        local_push-IsGood 𝓦 𝓘 𝓛 𝓢 (suc (l.len / 2)) (priority x) x l s h (omega arith) in
      (r.0, r.1, g)

  abbrev popped : (r : Option T × Local × Shared S L) → IsGood 𝓦 𝓘 𝓛 𝓢 r.1 r.2 → Option (T × Ready)
  popped (none, l, s) h = none
  popped (some x, l, s) h = some (x, (l, s, h))

  -- `OrderedLocalQueue::pop`
  unfoldable pub pop : (Local → Shared S L → ℕ) → Ready → Option (T × Ready)
  pop start (l, s, h) =
      popped (local_pop 𝓦 𝓘 𝓛 𝓢 (start l s) l s) (local_pop-IsGood 𝓦 𝓘 𝓛 𝓢 (start l s) l s h)

  abbrev pub count : (T → Bool) → Ready → ℕ
  count p q = total 𝓦 𝓘 𝓛 𝓢 p q.1

  abbrev of_popped : (T → Bool) → Option (T × Ready) → ℕ
  of_popped p none = 0
  of_popped p (some (x, q)) = one_if (p x) + count p q

  popped-total :
      (p : T → Bool) (r : Option T × Local × Shared S L) (h : IsGood 𝓦 𝓘 𝓛 𝓢 r.1 r.2) (x : T)
      (q : Ready)
      → popped r h ≡ some (x, q)
      → of_taken 𝓦 𝓘 𝓛 𝓢 p r.0 + total 𝓦 𝓘 𝓛 𝓢 p r.2 ≡ one_if (p x) + count p q
  popped-total p (none, l, s) h x q e = absurd (ground (arith, e))
  popped-total p (some y, l, s) h x q e = ap (of_popped p) e

  pub count-push :
      (priority : T → ℕ) (p : T → Bool) (x : T) (q : Ready)
      → count p (push priority x q) ≡ one_if (p x) + count p q
  unfolding push
  count-push priority p x (l, s, h) =
      let fuel = suc (l.len / 2) in
      let (r, e, g) = local_push-IsGood 𝓦 𝓘 𝓛 𝓢 fuel (priority x) x l s h (omega arith) in
      local_push-total 𝓦 𝓘 𝓛 𝓢 p fuel (priority x) x l s r.0 r.1 h.0 e

  pub count-pop :
      (start : Local → Shared S L → ℕ) (p : T → Bool) (q : Ready) (x : T) (q' : Ready)
      → pop start q ≡ some (x, q')
      → count p q ≡ one_if (p x) + count p q'
  unfolding pop
  count-pop start p (l, s, h) x q' e =
      let taken = local_pop-total 𝓦 𝓘 𝓛 𝓢 p (start l s) l s h.0 in
      let rest =
        popped-total p (local_pop 𝓦 𝓘 𝓛 𝓢 (start l s) l s)
          (local_pop-IsGood 𝓦 𝓘 𝓛 𝓢 (start l s) l s h) x q' e in
      omega (arith, taken, rest)

  -- The ready queue of a scheduler.
  abbrev pub ready_queue : (T → ℕ) → (Local → Shared S L → ℕ) → ReadyQueue Ready T
  ready_queue priority start = record {
    push = push priority;
    pop = pop start;
    count = count;
    count-push = count-push priority;
    count-pop = count-pop start;
  }

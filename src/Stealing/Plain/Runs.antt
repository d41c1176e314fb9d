-- ===== src/Stealing/Plain/Runs.antt =====
-- core/src/common/work_steal.rs: sequences of calls, on the shared queue and on local ones.
use open_coroutine.Prelude.{
  ℕ, ◌+◌, ◌<◌, ◌≡◌, refl, sym, arith, Bool, Option, none, some, List, [], ◌∷◌, length,
}
use mathlib.Core.Path.{subst}
use open_coroutine.Scheduler.Queues.{tally}
use open_coroutine.Stealing.Parts.{Workers, Injectors}
use open_coroutine.Stealing.Plain.{
  WorkStealQueue, LocalQueue, shared_push, shared_pop, local_push, local_pop,
}
use open_coroutine.Stealing.Plain.Counts.{
  total, of_taken, shared_push-total, shared_pop-IsTaken, local_push-total,
}
use open_coroutine.Stealing.Plain.Pops.{local_pop-IsTaken}

-- A call: on the shared queue, or on a local queue in any state that its own calls leave it in. A pop
-- from a local queue has its random number.
pub data Op (T : Type 0) : Type 0 where
  push_shared : T → Op T
  pop_shared : Op T
  push_local : LocalQueue → T → Op T
  pop_local : LocalQueue → ℕ → Op T

module _ {T : Type 0} where
  -- The elements pushed.
  abbrev pub pushed : List (Op T) → List T
  pushed [] = []
  pushed (push_shared x ∷ ops) = x ∷ pushed ops
  pushed (push_local l x ∷ ops) = x ∷ pushed ops
  pushed (pop_shared ∷ ops) = pushed ops
  pushed (pop_local l start ∷ ops) = pushed ops

  -- The local queues are of the first `n`.
  abbrev pub IsWithin : ℕ → List (Op T) → Type 0
  IsWithin n [] = Unit
  IsWithin n (push_shared x ∷ ops) = IsWithin n ops
  IsWithin n (pop_shared ∷ ops) = IsWithin n ops
  IsWithin n (push_local l x ∷ ops) = (l.slot < n) × IsWithin n ops
  IsWithin n (pop_local l start ∷ ops) = (l.slot < n) × IsWithin n ops

  abbrev cons_some : Option T → List T → List T
  cons_some none xs = xs
  cons_some (some x) xs = x ∷ xs

module _ {T W I : Type 0} (𝓦 : Workers W T) (𝓘 : Injectors I T) where
  abbrev pub step : Op T → WorkStealQueue I W → Option T × WorkStealQueue I W
  step (push_shared x) s = (none, shared_push 𝓦 𝓘 x s)
  step pop_shared s = shared_pop 𝓦 𝓘 s
  step (push_local l x) s = (none, local_push 𝓦 𝓘 x l s)
  step (pop_local l start) s = (local_pop 𝓦 𝓘 start l s).0

  -- The elements popped, in order, and the queues at the end.
  abbrev pub run : List (Op T) → WorkStealQueue I W → List T × WorkStealQueue I W
  run [] s = ([], s)
  run (op ∷ ops) s =
      let (o, s') = step op s in let (popped, s'') = run ops s' in (cons_some o popped, s'')

  module _ (p : T → Bool) where
    tally-cons_some :
        (o : Option T) (xs : List T) → tally p (cons_some o xs) ≡ of_taken 𝓦 𝓘 p o + tally p xs
    tally-cons_some none xs = omega arith
    tally-cons_some (some x) xs = refl

    -- After any sequence of calls on the queues without priorities, each on the shared queue or on
    -- a local one of the list: of the elements that pass a test, those popped and those left in all
    -- queues are as many as those pushed and those that were there.
    pub run-tally :
        (ops : List (Op T)) (s : WorkStealQueue I W)
        → IsWithin (length s.local_queues) ops
        → let r = run ops s in tally p r.0 + total 𝓦 𝓘 p r.1 ≡ tally p (pushed ops) + total 𝓦 𝓘 p s
    unfolding shared_push
    run-tally [] s h = refl
    run-tally (push_shared x ∷ ops) s h =
        let s' = shared_push 𝓦 𝓘 x s in
        omega (arith, shared_push-total 𝓦 𝓘 p x s, run-tally ops s' h)
    run-tally (pop_shared ∷ ops) s h =
        let q = shared_pop 𝓦 𝓘 s in
        let (t, n) = shared_pop-IsTaken 𝓦 𝓘 p s in
        let rest = run-tally ops q.1 (subst (λ k. IsWithin k ops) (sym n) h) in
        omega (arith, t, rest, tally-cons_some q.0 (run ops q.1).0)
    run-tally (push_local l x ∷ ops) s h =
        let (t, n) = local_push-total 𝓦 𝓘 p x l s h.0 in
        let s' = local_push 𝓦 𝓘 x l s in
        omega (arith, t, run-tally ops s' (subst (λ k. IsWithin k ops) (sym n) h.1))
    run-tally (pop_local l start ∷ ops) s h =
        let q = (local_pop 𝓦 𝓘 start l s).0 in
        let (t, n) = local_pop-IsTaken 𝓦 𝓘 p start l s h.0 in
        let rest = run-tally ops q.1 (subst (λ k. IsWithin k ops) (sym n) h.1) in
        omega (arith, t, rest, tally-cons_some q.0 (run ops q.1).0)

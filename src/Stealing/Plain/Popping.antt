-- ===== src/Stealing/Plain/Popping.antt =====
-- core/src/common/work_steal.rs: after any sequence of calls, a pop finds an element if there is one.
use mathlib.Core.Path.{subst}
use open_coroutine.Prelude.{
  ℕ, zero, suc, ◌+◌, ◌<◌, ◌≤◌, ◌≡◌, refl, sym, ◌∙◌, ap, arith, true, none, List, [], ◌∷◌, length,
}
use open_coroutine.Time.{u64_max}
use open_coroutine.Scheduler.Queues.{tally}
use open_coroutine.Stealing.Parts.{Workers, Injectors}
use open_coroutine.Stealing.Plain.{
  WorkStealQueue, LocalQueue, new, shared_push, shared_pop, own, local_push, local_pop,
}
use open_coroutine.Stealing.Plain.Counts.{shared_push-total, shared_pop-IsTaken, local_push-total}
use open_coroutine.Stealing.Plain.Pops.{local_pop-IsTaken}
use open_coroutine.Stealing.Plain.Finds.{IsCounted, local_pop-none}
use open_coroutine.Stealing.Plain.Counted.{
  size, tally-length, shared_push-IsCounted, shared_pop-IsCounted, local_push-IsCounted,
  local_pop-IsCounted,
}
use open_coroutine.Stealing.Plain.Runs.{
  Op, push_shared, pop_shared, push_local, pop_local, pushed, IsWithin, run,
}

module _ {T W I : Type 0} (𝓦 : Workers W T) (𝓘 : Injectors I T) where
  -- What a sequence of calls keeps.
  abbrev Kept : WorkStealQueue I W → WorkStealQueue I W → Type 0
  Kept s s' = IsCounted 𝓦 𝓘 s' × (length s'.local_queues ≡ length s.local_queues)

  run-IsCounted :
      (ops : List (Op T)) (s : WorkStealQueue I W)
      → IsWithin (length s.local_queues) ops
      → length (pushed ops) + size 𝓦 𝓘 s ≤ u64_max
      → IsCounted 𝓦 𝓘 s
      → Kept s (run 𝓦 𝓘 ops s).1
  unfolding shared_push
  run-IsCounted [] s h m c = (c, refl)
  run-IsCounted (push_shared x ∷ ops) s h m c =
      let s' = shared_push 𝓦 𝓘 x s in
      let (c', k) =
        shared_push-IsCounted 𝓦 𝓘 x s (omega (arith, m, tally-length (𝓘.items s.shared_queue))) c in
      run-IsCounted ops s' h (omega (arith, m, shared_push-total 𝓦 𝓘 (λ y. true) x s)) c'
  run-IsCounted (pop_shared ∷ ops) s h m c =
      let s' = (shared_pop 𝓦 𝓘 s).1 in
      let (t, n) = shared_pop-IsTaken 𝓦 𝓘 (λ y. true) s in
      let (d, k) =
        run-IsCounted ops s' (subst (λ j. IsWithin j ops) (sym n) h) (omega (arith, m, t))
          (shared_pop-IsCounted 𝓦 𝓘 s c) in
      (d, k ∙ n)
  run-IsCounted (push_local l x ∷ ops) s h m c =
      let s' = local_push 𝓦 𝓘 x l s in
      let (t, n) = local_push-total 𝓦 𝓘 (λ y. true) x l s h.0 in
      let (d, k) =
        run-IsCounted ops s' (subst (λ j. IsWithin j ops) (sym n) h.1) (omega (arith, m, t))
          (local_push-IsCounted 𝓦 𝓘 x l s h.0 (omega (arith, m)) c) in
      (d, k ∙ n)
  run-IsCounted (pop_local l start ∷ ops) s h m c =
      let s' = (local_pop 𝓦 𝓘 start l s).0.1 in
      let (t, n) = local_pop-IsTaken 𝓦 𝓘 (λ y. true) start l s h.0 in
      let (d, k) =
        run-IsCounted ops s' (subst (λ j. IsWithin j ops) (sym n) h.1) (omega (arith, m, t))
          (local_pop-IsCounted 𝓦 𝓘 start l s c) in
      (d, k ∙ n)

  length-new : (n c : ℕ) → length (new 𝓦 𝓘 n c).local_queues ≡ n
  unfolding new
  length-new zero c = refl
  length-new (suc n) c = omega (arith, length-new n c)

  size-new : (n c : ℕ) → size 𝓦 𝓘 (new 𝓦 𝓘 n c) ≡ 0
  unfolding new
  size-new zero c = omega (arith, ap (tally (λ x. true)) 𝓘.items-new)
  size-new (suc n) c = omega (arith, size-new n c, ap (tally (λ x. true)) (𝓦.items-new c))

  new-IsCounted : (n c : ℕ) → IsCounted 𝓦 𝓘 (new 𝓦 𝓘 n c)
  unfolding new
  new-IsCounted n c = sym (ap length 𝓘.items-new)

  -- From new queues, after any sequence of calls on the local queues of the list that pushes no more
  -- elements than a usize counts: where a pop from a local queue finds nothing, that queue and the
  -- shared one are empty.
  pub run-pop :
      (n c : ℕ) (ops : List (Op T)) (l : LocalQueue) (start : ℕ)
      → IsWithin n ops
      → length (pushed ops) ≤ u64_max
      → l.slot < n
      → (local_pop 𝓦 𝓘 start l (run 𝓦 𝓘 ops (new 𝓦 𝓘 n c)).1).0.0 ≡ none
      → let s = (run 𝓦 𝓘 ops (new 𝓦 𝓘 n c)).1 in
        (𝓦.items (own 𝓦 𝓘 l s) ≡ []) × (𝓘.items s.shared_queue ≡ [])
  run-pop n c ops l start h m a e =
      let s = new 𝓦 𝓘 n c in
      let (d, k) =
        run-IsCounted ops s (subst (λ j. IsWithin j ops) (sym (length-new n c)) h)
          (omega (arith, m, size-new n c)) (new-IsCounted n c) in
      local_pop-none 𝓦 𝓘 start l (run 𝓦 𝓘 ops s).1 (omega (arith, a, k, length-new n c)) d e

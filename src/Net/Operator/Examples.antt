-- ===== src/Net/Operator/Examples.antt =====
-- core/src/net/operator/linux/mod.rs: the theorems at a queue of two places, by lists.
use open_coroutine.Prelude.{
  ℕ, zero, suc, ◌≡◌, refl, ap, arith, Bool, true, false, Option, none, some, List, [], ◌∷◌, ◌++◌,
  length, leb, ltb, if◌then◌else◌,
}
use open_coroutine.Scheduler.Queues.{tally}
use open_coroutine.Net.Operator.{Rings, took, failed, Operator, Script, select}
use open_coroutine.Net.Operator.Order.{all}
use open_coroutine.Net.Operator.Runs.{Op, pushes, selects, run, tally-run}
use open_coroutine.Net.Operator.Clearing.{select-clears}

abbrev is_full : List ℕ → Bool
is_full q = leb 2 (length q)

abbrev push : ℕ → List ℕ → Option (List ℕ)
push e q = if is_full q then none else some (q ++ e ∷ [])

push-items : (e : ℕ) (q q' : List ℕ) → push e q ≡ some q' → q' ≡ q ++ e ∷ []
push-items e q q' h = ground (arith, h)

push-room : (e : ℕ) (q : List ℕ) → is_full q ≡ false → (q' : List ℕ) × (push e q ≡ some q')
push-room e q h = (q ++ e ∷ [], ground (arith, h))

-- This kernel takes all or nothing.
abbrev take : ℕ → List ℕ → List ℕ × List ℕ
take zero q = ([], q)
take (suc n) q = (q, [])

append-nil : (q : List ℕ) → q ≡ q ++ []
append-nil [] = refl
append-nil (e ∷ q) = ap (λ us. e ∷ us) (append-nil q)

take-items : (n : ℕ) (q : List ℕ) → q ≡ (take n q).0 ++ (take n q).1
take-items zero q = refl
take-items (suc n) q = append-nil q

abbrev ring : Rings (List ℕ) ℕ
ring = record {
  items = λ q. q;
  is_full = is_full;
  push = push;
  take = take;
  push-items = push-items;
  push-room = push-room;
  take-items = take-items;
}

abbrev fresh : Operator (List ℕ) ℕ
fresh = record { inner = []; sent = []; entering = false; backlog = [] }

-- Whatever is there is taken at each reading.
abbrev willing : Script
willing = record {
  on_timeout = took 0;
  on_wait = took 1;
  count = 1;
  kernel = λ i. record { answer = took 0; synced = 9 };
}

-- The third and the fourth entry go to the backlog.
abbrev four : List (Op ℕ)
four = pushes 1 (took 0) ∷ pushes 2 (failed 4) ∷ pushes 3 (failed 16) ∷ pushes 4 (took 0) ∷ []

abbrev crowded : Operator (List ℕ) ℕ
crowded = record { inner = 1 ∷ 2 ∷ []; sent = []; entering = false; backlog = 3 ∷ 4 ∷ 5 ∷ [] }

tally-run_example :
    tally (λ e. ltb 2 e) (all ring (run ring (four ++ selects true (some 7) willing ∷ []) fresh))
    ≡ 3
unfolding select
tally-run_example =
    tally-run ring (λ e. ltb 2 e) (four ++ selects true (some 7) willing ∷ []) fresh refl

select-clears_example :
    let (o', r) = select ring true none willing crowded in
    (r ≡ some 1)
    × (o'.backlog ≡ [])
    × (all ring o' ≡ 1 ∷ 2 ∷ 3 ∷ 4 ∷ 5 ∷ [])
    × (o'.entering ≡ false)
select-clears_example =
    select-clears ring true willing 1 crowded refl refl (λ i. ((0, refl), λ q. refl))

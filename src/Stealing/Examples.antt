-- ===== src/Stealing/Examples.antt =====
-- The theorems on the work stealing queues at concrete queues of numbers, with the parts by lists.
use open_coroutine.Prelude.{ℕ, ◌≡◌, refl, arith, none, some, List}
use open_coroutine.Stealing.Parts.Instances.{
  Worker, Sorted, list_workers, list_injectors, list_skip_map,
}
use open_coroutine.Stealing.Ordered.{
  Shared, Local, get_or, new, local_queue, local_push, pop_local, local_pop, own,
}
use open_coroutine.Stealing.Ordered.Bag.{bag, add, local_push-bag, local_pop-bag}
use open_coroutine.Stealing.Ordered.Lengths.{local_push-returns, local_push-stuck, IsExact}
use open_coroutine.Stealing.Ordered.Order.{IsLeast, pop_local-IsLeast}

abbrev Maps : Type 0
Maps = Sorted (Worker ℕ)

abbrev Injected : Type 0
Injected = Sorted (List ℕ)

abbrev Queues : Type 0
Queues = Shared Injected Maps

abbrev two_queues : Queues
two_queues = new list_workers list_injectors list_skip_map list_skip_map 2 2

abbrev after_push : ℕ → Local × Queues → Local × Queues
after_push x r =
    get_or r (local_push list_workers list_injectors list_skip_map list_skip_map 5 x x r.0 r.1)

abbrev after_pop : Local × Queues → Local × Queues
after_pop r =
    let (x, l, s) = local_pop list_workers list_injectors list_skip_map list_skip_map 0 r.0 r.1 in
    (l, s)

-- The first local queue with two elements.
abbrev full : Local × Queues
full =
    after_push 2 (
      after_push 1 (local_queue list_workers list_injectors list_skip_map list_skip_map two_queues))

-- The second one takes both.
abbrev robbed : Local × Queues
robbed = (
  full.0,
  (after_pop
      (after_pop (local_queue list_workers list_injectors list_skip_map list_skip_map full.1))).1,
)

-- The first local queue is told that it has two elements, and has none: a run to a push that hangs.
local_push-stuck_example :
    local_push list_workers list_injectors list_skip_map list_skip_map 1000 3 3 robbed.0 robbed.1
    ≡ none
unfolding local_push local_pop local_queue new
local_push-stuck_example =
    local_push-stuck list_workers list_injectors list_skip_map list_skip_map 1000 3 3 robbed.0
      robbed.1 (refl, (refl, tt)) (omega arith) (omega arith)

local_push-returns_example :
    (r : Local × Queues) × (local_push list_workers list_injectors list_skip_map list_skip_map 2 3 3
        full.0 full.1
      ≡ some r)
    × IsExact list_workers list_injectors list_skip_map list_skip_map r.0 r.1
unfolding local_push local_pop local_queue new
local_push-returns_example =
    local_push-returns list_workers list_injectors list_skip_map list_skip_map 2 3 3 full.0 full.1
      (omega arith) refl (omega arith) (omega arith)

local_push-bag_example :
    bag list_workers list_injectors list_skip_map list_skip_map (after_push 2 full).1
    ≡ add 2 (bag list_workers list_injectors list_skip_map list_skip_map full.1)
unfolding local_push local_queue new
local_push-bag_example =
    local_push-bag list_workers list_injectors list_skip_map list_skip_map 5 2 2 full.0 full.1
      (after_push 2 full).0 (after_push 2 full).1 (omega arith) refl

-- The second local queue steals the first's elements.
local_pop-bag_example :
    bag list_workers list_injectors list_skip_map list_skip_map full.1
    ≡ add 1 (
        bag list_workers list_injectors list_skip_map list_skip_map
          (after_pop
            (local_queue list_workers list_injectors list_skip_map list_skip_map full.1)).1)
unfolding local_push local_pop local_queue new
local_pop-bag_example =
    let r = local_queue list_workers list_injectors list_skip_map list_skip_map full.1 in
    local_pop-bag list_workers list_injectors list_skip_map list_skip_map 0 r.0 r.1 (omega arith)

pop_local-IsLeast_example :
    IsLeast {E = Worker ℕ}
      (λ w. w.held)
      (own list_workers list_injectors list_skip_map list_skip_map full.0 full.1).0
      1
unfolding local_push local_queue new pop_local
pop_local-IsLeast_example =
    pop_local-IsLeast list_workers list_injectors list_skip_map list_skip_map full.0 full.1 1 refl

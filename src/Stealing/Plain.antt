-- ===== src/Stealing/Plain.antt =====
-- core/src/common/work_steal.rs: queues without priorities. Methods are single steps: other threads act
-- between them. The random start of a theft is given. The test that a queue does not steal from itself
-- compares the addresses of two variables, never equal, and is left out. A worker's `spare_capacity` is
-- what its items leave of its capacity.
pub mod Counts
pub mod Pops
pub mod Finds
pub mod Runs
pub mod Counted
pub mod Popping
mod Examples
use open_coroutine.Prelude.{
  ℕ, zero, suc, ◌+◌, ◌-◌, ◌/◌, ◌%◌, ◌<◌, min, Bool, false, Option, none, some, List, [], ◌∷◌, leb,
  ◌==◌, if◌then◌else◌, length, get_elem?,
}
use open_coroutine.Time.{u64_max, saturating_add}
use open_coroutine.Stealing.Parts.{Workers, Injectors}
use open_coroutine.Stealing.Ordered.{set_elem, get_or}

pub record WorkStealQueue (I W : Type 0) : Type 0 where
  pub shared_queue : I
  pub len : ℕ
  pub local_queues : List W
  pub index : ℕ

-- Its `queue` is the worker at the index `slot` of `local_queues`.
pub record LocalQueue : Type 0 where
  pub tick : ℕ
  pub stealing : Bool
  pub slot : ℕ

module _ {T W I : Type 0} (𝓦 : Workers W T) (𝓘 : Injectors I T) where
  unfoldable pub new : ℕ → ℕ → WorkStealQueue I W
  new local_queues_size local_capacity = record {
    shared_queue = 𝓘.new;
    len = 0;
    local_queues = workers local_queues_size;
    index = 0;
  }
    where
      workers : ℕ → List W
      workers zero = []
      workers (suc n) = 𝓦.new local_capacity ∷ workers n

  -- `fetch_add` wraps, and the index is taken modulo the number of queues.
  unfoldable pub local_queue : WorkStealQueue I W → LocalQueue × WorkStealQueue I W
  local_queue s = (
    record { tick = 0; stealing = false; slot = s.index % length s.local_queues },
    record s { index = (if s.index == u64_max then 0 else s.index + 1) },
  )

  -- `WorkStealQueue::push` and `WorkStealQueue::pop`
  unfoldable pub shared_push : T → WorkStealQueue I W → WorkStealQueue I W
  shared_push item s = record s {
    shared_queue = 𝓘.push item s.shared_queue;
    len = saturating_add s.len 1;
  }

  unfoldable pub shared_pop : WorkStealQueue I W → Option T × WorkStealQueue I W
  shared_pop s =
      let found = elim (𝓘.steal s.shared_queue) as (λ _. Option T × WorkStealQueue I W) [
        | none ↦ (none, s)
        | some (item, i) ↦ (some item, record s { shared_queue = i; len = s.len - 1 })
      ] in
      if s.len == 0 then (none, s) else found

  abbrev pub own : LocalQueue → WorkStealQueue I W → W
  own l s = get_or (𝓦.new 0) (get_elem? s.local_queues l.slot)

  abbrev pub set_own : LocalQueue → W → WorkStealQueue I W → WorkStealQueue I W
  set_own l w s = record s { local_queues = set_elem l.slot w s.local_queues }

  abbrev pub spare_capacity : W → ℕ
  spare_capacity w = 𝓦.capacity w - length (𝓦.items w)

  abbrev pub local_len : W → ℕ
  local_len w = 𝓦.capacity w - spare_capacity w

  abbrev pub max_steal : W → ℕ
  max_steal w = saturating_add (𝓦.capacity w) 1 / 2 - local_len w

  abbrev pub can_steal : W → Bool
  can_steal w = leb (saturating_add (𝓦.capacity w) 1 / 2) (spare_capacity w)

  -- The loop of `LocalQueue::push`, that moves elements of the own queue `w` to the shared one.
  unfoldable pub push_half : ℕ → W → WorkStealQueue I W → W × WorkStealQueue I W
  unfolding shared_push
  push_half zero w s = (w, s)
  push_half (suc n) w s = elim (𝓦.pop w) [
    | none ↦ push_half n w s
    | some (item, w') ↦ push_half n w' (shared_push item s)
  ]

  unfoldable pub local_push : T → LocalQueue → WorkStealQueue I W → WorkStealQueue I W
  unfolding push_half shared_push
  local_push item l s =
      let w = own l s in
      elim (𝓦.push item w) [
        | some w' ↦ set_own l w' s
        | none ↦
            let (w', s') = push_half (local_len w / 2) w s in shared_push item (set_own l w' s')
      ]

  -- What is asked for of the `n` elements of `another`.
  abbrev pub share : W → W → ℕ → ℕ
  share w another n = min (min n (max_steal w)) (saturating_add (local_len another) 1 / 2)

  -- The loop over the local queues, from the one at `i` on; `none`: nothing was stolen.
  unfoldable pub rob_all : ℕ → ℕ → LocalQueue → WorkStealQueue I W → Option (WorkStealQueue I W)
  rob_all zero i l s = none
  rob_all (suc n) i l s =
      let j = i % length s.local_queues in
      let another = get_or (𝓦.new 0) (get_elem? s.local_queues j) in
      let rest = rob_all n (i + 1) l s in
      let stolen =
        elim (𝓦.steal (share (own l s) another) another (own l s))
          as (λ _. Option (WorkStealQueue I W)) [
            | none ↦ rest
            | some (v, w) ↦
                some (set_own l w (record s { local_queues = set_elem j v s.local_queues }))
          ] in
      if can_steal (own l s) then elim (𝓦.items another) [ [] ↦ rest | x ∷ xs ↦ stolen ] else none

  -- `tick` adds one and wraps.
  abbrev next_tick : ℕ → ℕ
  next_tick t = (t + 1) % 4294967296

  unfoldable pub pop_own : LocalQueue → WorkStealQueue I W → Option T × WorkStealQueue I W
  pop_own l s = elim (𝓦.pop (own l s)) as (λ _. Option T × WorkStealQueue I W) [
    | none ↦ (none, s)
    | some (item, w) ↦ (some item, set_own l w s)
  ]

  -- What follows where the own queue is empty: the theft, if `stealing` is not set, and the shared
  -- queue.
  unfoldable pub pop_elsewhere : ℕ → LocalQueue → WorkStealQueue I W → Option T × WorkStealQueue I W
  unfolding rob_all shared_pop pop_own
  pop_elsewhere start l s =
      let robbed =
        elim (rob_all (length s.local_queues) start l s) as (λ _. Option T × WorkStealQueue I W) [
          | none ↦ shared_pop s
          | some s' ↦ pop_own l s'
        ] in
      if l.stealing then shared_pop s else robbed

  abbrev or_else :
      Option T × WorkStealQueue I W
      → (WorkStealQueue I W → Option T × WorkStealQueue I W)
      → Option T × WorkStealQueue I W
  or_else (none, s) next = next s
  or_else (some x, s) next = (some x, s)

  -- `LocalQueue::pop`; `start` is the random number. Of the local queue, only the tick changes.
  unfoldable pub local_pop :
      ℕ → LocalQueue → WorkStealQueue I W → (Option T × WorkStealQueue I W) × LocalQueue
  unfolding shared_pop pop_own pop_elsewhere
  local_pop start l s =
      let l' = record l { tick = next_tick l.tick } in
      let first = if l'.tick % 61 == 0 then shared_pop s else (none, s) in
      (or_else first (λ s1. or_else (pop_own l' s1) (pop_elsewhere start l')), l')

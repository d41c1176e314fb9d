-- ===== src/Stealing/Ordered.antt =====
-- core/src/common/ordered_work_steal.rs. A priority, an i64, is moved up by 2^63 here, so that its order
-- is that of the natural numbers. Methods are single steps: other threads act between them. The random
-- start of a theft is given. The test that a queue does not steal from itself compares the addresses of
-- two variables, never equal, and is left out.
pub mod Bag
pub mod Keeping
pub mod Weights
pub mod Order
pub mod Lengths
pub mod Entries
pub mod Overflow
pub mod Theft
pub mod Totals
use open_coroutine.Prelude.{
  ℕ, zero, suc, ◌+◌, ◌-◌, ◌/◌, ◌%◌, ◌<◌, min, Bool, true, false, Option, none, some, List, [], ◌∷◌,
  ltb, leb, ◌==◌, if◌then◌else◌, length, get_elem?,
}
use open_coroutine.Time.{u64_max, saturating_add}
use open_coroutine.Stealing.Parts.{Workers, Injectors, SkipMap, lookup}

-- The element at an index, replaced.
abbrev pub set_elem {ℓ} : {A : Type ℓ} → ℕ → A → List A → List A
set_elem i a [] = []
set_elem zero a (x ∷ xs) = a ∷ xs
set_elem (suc i) a (x ∷ xs) = x ∷ set_elem i a xs

abbrev pub get_or {ℓ} : {A : Type ℓ} → A → Option A → A
get_or d none = d
get_or d (some a) = a

abbrev pub reverse_onto {ℓ} : {A : Type ℓ} → List A → List A → List A
reverse_onto [] ys = ys
reverse_onto (x ∷ xs) ys = reverse_onto xs (x ∷ ys)

-- `OrderedWorkStealQueue`: `S` is the map of injectors and `L` that of workers.
pub record Shared (S L : Type 0) : Type 0 where
  pub shared_queue : S
  pub len : ℕ
  pub local_capacity : ℕ
  pub local_queues : List L
  pub index : ℕ

-- `OrderedLocalQueue`; its `queue` is the one at the index `slot` of `local_queues`.
pub record Local : Type 0 where
  pub tick : ℕ
  pub stealing : Bool
  pub slot : ℕ
  pub len : ℕ

-- The index of a local queue is one of the list.
abbrev pub InRange : {S L : Type 0} → Local → Shared S L → Type 0
InRange l s = l.slot < length s.local_queues

module _ {T W I L S : Type 0} (𝓦 : Workers W T) (𝓘 : Injectors I T) (𝓛 : SkipMap L W)
    (𝓢 : SkipMap S I) where
  unfoldable pub new : ℕ → ℕ → Shared S L
  new local_queues_size local_capacity = record {
    shared_queue = 𝓢.empty;
    len = 0;
    local_capacity = local_capacity;
    local_queues = empties local_queues_size;
    index = 0;
  }
    where
      empties : ℕ → List L
      empties zero = []
      empties (suc n) = 𝓛.empty ∷ empties n

  -- `local_queue`: `fetch_add` wraps, and the index is taken modulo the number of queues.
  unfoldable pub local_queue : Shared S L → Local × Shared S L
  local_queue s = (
    record { tick = 0; stealing = false; slot = s.index % length s.local_queues; len = 0 },
    record s { index = (if s.index == u64_max then 0 else s.index + 1) },
  )

  -- `OrderedWorkStealQueue::push_with_priority`
  unfoldable pub shared_push : ℕ → T → Shared S L → Shared S L
  shared_push priority item s =
      let injector = get_or 𝓘.new (lookup priority (𝓢.entries s.shared_queue)) in
      record s {
        shared_queue = 𝓢.put priority (𝓘.push item injector) s.shared_queue;
        len = saturating_add s.len 1;
      }

  -- The loop over the entries.
  abbrev pub first_injector : List (ℕ × I) → Option (T × ℕ × I)
  first_injector [] = none
  first_injector ((k, i) ∷ es) = elim (𝓘.steal i) [
    | none ↦ first_injector es
    | some (x, i') ↦ some (x, k, i')
  ]

  -- `OrderedWorkStealQueue::pop`
  unfoldable pub shared_pop : Shared S L → Option T × Shared S L
  shared_pop s =
      let found = elim (first_injector (𝓢.entries s.shared_queue)) as (λ _. Option T × Shared S L) [
        | none ↦ (none, s)
        | some (x, k, i) ↦
            (some x, record s { shared_queue = 𝓢.put k i s.shared_queue; len = s.len - 1 })
      ] in
      if s.len == 0 then (none, s) else found

  -- The workers of a local queue.
  abbrev pub own : Local → Shared S L → L
  own l s = get_or 𝓛.empty (get_elem? s.local_queues l.slot)

  abbrev pub set_own : Local → L → Shared S L → Shared S L
  set_own l m s = record s { local_queues = set_elem l.slot m s.local_queues }

  -- One pass of the `for` loop of `push_to_global` over the entries from the last to the first. `done`
  -- counts the elements moved.
  pub pass : List (ℕ × W) → ℕ → ℕ → L → Shared S L → ℕ × L × Shared S L
  unfolding shared_push
  pass [] count done m s = (done, m, s)
  pass ((k, w) ∷ es) count done m s =
      let next = elim (𝓦.pop w) as (λ _. ℕ × L × Shared S L) [
        | none ↦ pass es count done m s
        | some (x, w') ↦ pass es count (done + 1) (𝓛.put k w' m) (shared_push k x s)
      ] in
      if leb count done then (done, m, s) else next

  -- The `while` loop around it. `none`: the fuel ran out.
  pub passes : ℕ → ℕ → ℕ → L → Shared S L → Option (L × Shared S L)
  unfolding pass
  passes zero count done m s = none
  passes (suc fuel) count done m s =
      let (done', m', s') = pass (reverse_onto (𝓛.entries m) []) count done m s in
      let again = passes fuel count done' m' s' in if ltb done count then again else some (m, s)

  unfoldable pub push_to_global : ℕ → ℕ → T → Local → Shared S L → Option (Local × Shared S L)
  unfolding passes shared_push
  push_to_global fuel priority item l s =
      let count = l.len / 2 in
      elim (passes fuel count 0 (own l s) s) [
        | none ↦ none
        | some (m, s') ↦
            some (record l { len = l.len - count }, shared_push priority item (set_own l m s'))
      ]

  -- `OrderedLocalQueue::push_with_priority`
  unfoldable pub local_push : ℕ → ℕ → T → Local → Shared S L → Option (Local × Shared S L)
  unfolding push_to_global
  local_push fuel priority item l s =
      let worker = get_or (𝓦.new s.local_capacity) (lookup priority (𝓛.entries (own l s))) in
      let global = push_to_global fuel priority item l s in
      let local = elim (𝓦.push item worker) as (λ _. Option (Local × Shared S L)) [
        | none ↦ global
        | some w ↦
            some
              (record l { len = saturating_add l.len 1 }, set_own l (𝓛.put priority w (own l s)) s)
      ] in
      if leb s.local_capacity l.len then global else local

  abbrev pub first_worker : List (ℕ × W) → Option (T × ℕ × W)
  first_worker [] = none
  first_worker ((k, w) ∷ es) = elim (𝓦.pop w) [
    | none ↦ first_worker es
    | some (x, w') ↦ some (x, k, w')
  ]

  -- Taking the first element of the workers `m` of `l`.
  abbrev pub take_first : Local → L → Shared S L → Option T × Local × Shared S L
  take_first l m s = elim (first_worker (𝓛.entries m)) [
    | none ↦ (none, l, s)
    | some (x, k, w) ↦ (some x, record l { len = l.len - 1 }, set_own l (𝓛.put k w m) s)
  ]

  unfoldable pub pop_local : Local → Shared S L → Option T × Local × Shared S L
  pop_local l s = take_first l (own l s) s

  abbrev pub max_steal : ℕ → Local → ℕ
  max_steal capacity l = saturating_add capacity 1 / 2 - l.len

  abbrev pub can_steal : ℕ → Local → Bool
  can_steal capacity l = ltb l.len (saturating_add capacity 1 / 2)

  -- The loop over the entries of another local queue, the one at the index `i`. The Boolean: something
  -- was stolen. A worker that is made for the booty stays where the theft fails.
  pub rob : ℕ → List (ℕ × W) → Local → Shared S L → Bool × Local × Shared S L
  rob i [] l s = (false, l, s)
  rob i ((k, w) ∷ es) l s =
      let into = get_or (𝓦.new s.local_capacity) (lookup k (𝓛.entries (own l s))) in
      let opened = set_own l (𝓛.put k into (own l s)) s in
      let share = λ (n : ℕ).
        min (min n (max_steal s.local_capacity l)) (saturating_add (length (𝓦.items w)) 1 / 2) in
      let stolen = elim (𝓦.steal share w into) as (λ _. Bool × Local × Shared S L) [
        | none ↦ rob i es l opened
        | some (w', into') ↦
            let other = get_or 𝓛.empty (get_elem? opened.local_queues i) in
            let robbed = record opened {
              local_queues = set_elem i (𝓛.put k w' other) opened.local_queues;
            } in
            (
              true,
              record l { len = saturating_add l.len (length (𝓦.items into')) },
              set_own l (𝓛.put k into' (own l robbed)) robbed,
            )
      ] in
      elim (𝓦.items w) [ [] ↦ rob i es l s | x ∷ xs ↦ stolen ]

  -- The loop over the local queues, from the one at `i` on.
  pub rob_all : ℕ → ℕ → Local → Shared S L → Bool × Local × Shared S L
  unfolding rob
  rob_all zero i l s = (false, l, s)
  rob_all (suc n) i l s =
      let i' = i % length s.local_queues in
      let (stolen, l', s') =
        rob i' (𝓛.entries (get_or 𝓛.empty (get_elem? s.local_queues i'))) l s in
      let rest = rob_all n (i + 1) l' s' in
      if can_steal s.local_capacity l
      then (if stolen then (true, l', s') else rest)
      else (false, l, s)

  -- `tick` adds one and wraps.
  abbrev next_tick : ℕ → ℕ
  next_tick t = (t + 1) % 4294967296

  abbrev from_shared : Local → Option T × Shared S L → Option T × Local × Shared S L
  from_shared l (x, s) = (x, l, s)

  -- What follows where the local queue is empty: the theft, if `stealing` is not set, and the shared
  -- queue.
  unfoldable pub pop_elsewhere : ℕ → Local → Shared S L → Option T × Local × Shared S L
  unfolding rob_all shared_pop pop_local
  pop_elsewhere start l s =
      let (stolen, l', s') = rob_all (length s.local_queues) start l s in
      if l.stealing
      then from_shared l (shared_pop s)
      else (if stolen then pop_local l' s' else from_shared l' (shared_pop s'))

  abbrev or_else :
      Option T × Local × Shared S L
      → (Local → Shared S L → Option T × Local × Shared S L)
      → Option T × Local × Shared S L
  or_else (none, l, s) next = next l s
  or_else (some x, l, s) next = (some x, l, s)

  -- `OrderedLocalQueue::pop`; `start` is the random number.
  unfoldable pub local_pop : ℕ → Local → Shared S L → Option T × Local × Shared S L
  unfolding shared_pop pop_local pop_elsewhere
  local_pop start l s =
      let l' = record l { tick = next_tick l.tick } in
      let first = if l'.tick % 61 == 0 then from_shared l' (shared_pop s) else (none, l', s) in
      or_else first (λ l1 s1. or_else (pop_local l1 s1) (pop_elsewhere start))

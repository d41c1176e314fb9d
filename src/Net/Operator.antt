-- ===== src/Net/Operator.antt =====
-- core/src/net/operator/linux/mod.rs: the submission queue of io_uring with its backlog. The crate
-- io_uring is a parameter; the kernel takes entries from the front of its queue, at a submission and,
-- since a kernel thread polls the queue, at any reading of it. How many it takes is given. `sent` is not
-- in the source: it is what the kernel has taken, oldest first. An entry is left open.
pub mod Order
pub mod Runs
pub mod Clearing
mod Examples
use open_coroutine.Prelude.{
  ℕ, suc, ◌+◌, ◌-◌, ◌≡◌, Bool, true, false, Option, none, some, List, [], ◌∷◌, ◌++◌, ◌||◌, ◌==◌,
  if◌then◌else◌,
}

-- `push`: `none` is `Err`. `take n`: the kernel takes `n` entries, or all.
pub record Rings (Q E : Type 0) : Type 0 where
  pub items : Q → List E
  pub is_full : Q → Bool
  pub push : E → Q → Option Q
  pub take : ℕ → Q → List E × Q
  pub push-items : (e : E) (q q' : Q) → push e q ≡ some q' → items q' ≡ items q ++ e ∷ []
  pub push-room : (e : E) (q : Q) → is_full q ≡ false → (q' : Q) × (push e q ≡ some q')
  pub take-items : (n : ℕ) (q : Q) → items q ≡ (take n q).0 ++ items (take n q).1

-- What the kernel answers to a submission: an errno, or success, with how many entries it took.
pub data Answer : Type 0 where
  took failed : ℕ → Answer

pub record Operator (Q E : Type 0) : Type 0 where
  pub inner : Q
  pub sent : List E
  pub entering : Bool
  pub backlog : List E

-- The answer to the submission, if there is one, of a round of the loop of `do_select`, and what the
-- kernel has taken when the queue is read again.
pub record Round : Type 0 where
  pub answer : Answer
  pub synced : ℕ

-- What `do_select` meets: the answers to the submission of the timeout and to `submit_and_wait`, which
-- returns `count` where it succeeds, and the rounds of the loop.
pub record Script : Type 0 where
  pub on_timeout : Answer
  pub on_wait : Answer
  pub count : ℕ
  pub kernel : ℕ → Round

-- EBUSY or EINTR.
abbrev is_passing : ℕ → Bool
is_passing errno = errno == 16 || errno == 4

module _ {Q E : Type 0} (𝓡 : Rings Q E) where
  abbrev pub kernel_takes : ℕ → Operator Q E → Operator Q E
  kernel_takes n o =
      let (taken, q) = 𝓡.take n o.inner in record o { inner = q; sent = o.sent ++ taken }

  abbrev enqueue : E → Operator Q E → Operator Q E
  enqueue entry o = elim (𝓡.push entry o.inner) [
    | none ↦ record o { backlog = o.backlog ++ entry ∷ [] }
    | some q ↦ record o { inner = q }
  ]

  -- The operator after the call, and whether it is `Ok`.
  unfoldable pub push_sq : E → Answer → Operator Q E → Operator Q E × Bool
  push_sq entry (took n) o = (kernel_takes n (enqueue entry o), true)
  push_sq entry (failed errno) o = (enqueue entry o, errno == 4)

  -- The branch for a full queue: whether the loop goes on, is left, or the call fails.
  pub data Next : Type 0 where
    goes leaves errs : Operator Q E → Next

  abbrev make_room : Round → Operator Q E → Next
  make_room x o =
      let submitted = elim x.answer as (λ _. Next) [
        | took n ↦ goes (kernel_takes x.synced (kernel_takes n o))
        | failed errno ↦ if is_passing errno then leaves o else errs o
      ] in
      if 𝓡.is_full o.inner then submitted else goes (kernel_takes x.synced o)

  -- The loop that cleans the backlog, which is the list; `kernel i` is what its round `i` meets.
  unfoldable pub clean : (ℕ → Round) → ℕ → List E → Operator Q E → Operator Q E × Bool
  clean kernel i [] o = elim (make_room (kernel i) (record o { backlog = [] })) [
    | goes o' ↦ (o', true)
    | leaves o' ↦ (o', true)
    | errs o' ↦ (o', false)
  ]
  clean kernel i (sqe ∷ rest) o = elim (make_room (kernel i) (record o { backlog = sqe ∷ rest })) [
    | goes o' ↦ elim (𝓡.push sqe o'.inner) [
      | none ↦ (o', true)
      | some q ↦ clean kernel (suc i) rest (record o' { inner = q })
    ]
    | leaves o' ↦ (o', true)
    | errs o' ↦ (o', false)
  ]

  -- `timeout_add`: an entry for a timeout, where there is one. `supported` is whether the kernel knows
  -- the operation; `false` is the error Unsupported.
  unfoldable pub timeout_add : Bool → Option E → Answer → Operator Q E → Operator Q E × Bool
  unfolding push_sq
  timeout_add supported none a o = (o, true)
  timeout_add supported (some entry) a o = if supported then push_sq entry a o else (o, false)

  abbrev counted : ℕ → Operator Q E × Bool → Operator Q E × Option ℕ
  counted count (o, done) = (o, (if done then some count else none))

  -- From the answer of `submit_and_wait` on: its count, or `none`, an error.
  unfoldable pub after_wait : Script → Answer → Operator Q E → Operator Q E × Option ℕ
  unfolding clean
  after_wait x (took n) o =
      let o' = kernel_takes n o in counted x.count (clean x.kernel 0 o'.backlog o')
  after_wait x (failed errno) o =
      let cleaned = counted 0 (clean x.kernel 0 o.backlog o) in
      if is_passing errno then cleaned else (o, none)

  unfoldable pub do_select : Bool → Option E → Script → Operator Q E → Operator Q E × Option ℕ
  unfolding timeout_add after_wait
  do_select supported timeout x o =
      let (o', added) = timeout_add supported timeout x.on_timeout o in
      let waited = after_wait x x.on_wait o' in if added then waited else (o', none)

  -- `select`, where the kernel has io_uring: a second call while one is entered does nothing.
  unfoldable pub select : Bool → Option E → Script → Operator Q E → Operator Q E × Option ℕ
  unfolding do_select
  select supported timeout x o =
      let (o', r) = do_select supported timeout x (record o { entering = true }) in
      if o.entering then (o, some 0) else (record o' { entering = false }, r)

-- ===== src/Net/Operator/Runs.antt =====
-- core/src/net/operator/linux/mod.rs: sequences of calls, and a backlog that is cleaned to its end.
use open_coroutine.Prelude.{
  ℕ, ◌+◌, ◌≡◌, refl, ◌∙◌, ap, arith, Bool, true, false, Option, none, some, List, [], ◌∷◌, ◌++◌,
  inl, inr, Option-cases, if◌then◌else◌,
}
use open_coroutine.Scheduler.Queues.{one_if, tally, tally-append}
use open_coroutine.Net.Operator.{
  Rings, Answer, took, failed, Operator, kernel_takes, enqueue, push_sq, clean, is_passing,
  timeout_add, Script, counted, after_wait, do_select, select,
}
use open_coroutine.Net.Operator.Order.{all, kernel_takes-all, clean-all}

-- A call of the operator, with what the kernel answers.
pub data Op (E : Type 0) : Type 0 where
  pushes : E → Answer → Op E
  selects : Bool → Option E → Script → Op E

-- The entries of the calls: a timeout is one where the kernel knows the operation.
abbrev pub asked : {E : Type 0} → List (Op E) → List E
asked [] = []
asked (pushes e a ∷ ops) = e ∷ asked ops
asked (selects supported none x ∷ ops) = asked ops
asked (selects false (some e) x ∷ ops) = asked ops
asked (selects true (some e) x ∷ ops) = e ∷ asked ops

module _ {Q E : Type 0} (𝓡 : Rings Q E) where
  abbrev pub run : List (Op E) → Operator Q E → Operator Q E
  run [] o = o
  run (pushes e a ∷ ops) o = run ops (push_sq 𝓡 e a o).0
  run (selects supported timeout x ∷ ops) o = run ops (select 𝓡 supported timeout x o).0

  module _ (p : E → Bool) where
    amount : Operator Q E → ℕ
    amount o = tally p (all 𝓡 o)

    -- The operator holds `n` entries more than `o`, of those that pass the test.
    abbrev Adds : ℕ → Operator Q E → Operator Q E → Type 0
    Adds n o o' = (amount o' ≡ n + amount o) × (o'.entering ≡ o.entering)

    enqueue-Adds : (e : E) (o : Operator Q E) → Adds (one_if (p e)) o (enqueue 𝓡 e o)
    unfolding amount
    enqueue-Adds e o = elim (Option-cases (𝓡.push e o.inner)) [
      | inl f ↦
          let back = tally-append p o.backlog (e ∷ []) in
          let held = tally-append p (𝓡.items o.inner) in
          let whole = tally-append p o.sent in
          rw (f, enqueue)
            (
              omega (
                arith,
                back,
                held o.backlog,
                held (o.backlog ++ e ∷ []),
                whole (𝓡.items o.inner ++ o.backlog),
                whole (𝓡.items o.inner ++ (o.backlog ++ e ∷ [])),
              ),
              refl,
            )
      | inr (q, f) ↦
          let more =
            ap (tally p) (𝓡.push-items e o.inner q f) ∙ tally-append p (𝓡.items o.inner) (e ∷ []) in
          let whole = tally-append p o.sent in
          rw (f, enqueue)
            (
              omega (
                arith,
                more,
                tally-append p (𝓡.items o.inner) o.backlog,
                tally-append p (𝓡.items q) o.backlog,
                whole (𝓡.items o.inner ++ o.backlog),
                whole (𝓡.items q ++ o.backlog),
              ),
              refl,
            )
    ]

    push_sq-Adds :
        (e : E) (a : Answer) (o : Operator Q E) → Adds (one_if (p e)) o (push_sq 𝓡 e a o).0
    unfolding push_sq amount
    push_sq-Adds e (took n) o =
        let (t, s) = enqueue-Adds e o in
        (ap (tally p) (kernel_takes-all 𝓡 n (enqueue 𝓡 e o)) ∙ t, s)
    push_sq-Adds e (failed errno) o = enqueue-Adds e o

    abbrev timed : Bool → Option E → ℕ
    timed supported none = 0
    timed true (some e) = one_if (p e)
    timed false (some e) = 0

    timeout_add-Adds :
        (supported : Bool) (timeout : Option E) (a : Answer) (o : Operator Q E)
        → Adds (timed supported timeout) o (timeout_add 𝓡 supported timeout a o).0
    unfolding timeout_add
    timeout_add-Adds supported none a o = (omega arith, refl)
    timeout_add-Adds true (some e) a o = push_sq-Adds e a o
    timeout_add-Adds false (some e) a o = (omega arith, refl)

    if-Adds :
        (n : ℕ) (o : Operator Q E) (b : Bool) (r q : Operator Q E × Option ℕ)
        → Adds n o r.0
        → Adds n o q.0
        → Adds n o (if b then r else q).0
    if-Adds n o true r q h g = h
    if-Adds n o false r q h g = g

    after_wait-Adds :
        (n : ℕ) (x : Script) (a : Answer) (o o1 : Operator Q E)
        → Adds n o o1
        → Adds n o (after_wait 𝓡 x a o1).0
    unfolding after_wait amount
    after_wait-Adds n x (took k) o o1 (t, s) =
        let o' = kernel_takes 𝓡 k o1 in
        let (c, m) = clean-all 𝓡 x.kernel 0 o'.backlog o' in
        (ap (tally p) (c ∙ kernel_takes-all 𝓡 k o1) ∙ t, m ∙ s)
    after_wait-Adds n x (failed errno) o o1 (t, s) =
        let (c, m) = clean-all 𝓡 x.kernel 0 o1.backlog o1 in
        if-Adds n o (is_passing errno) (counted 𝓡 0 (clean 𝓡 x.kernel 0 o1.backlog o1)) (o1, none)
          (ap (tally p) c ∙ t, m ∙ s) (t, s)

    do_select-Adds :
        (supported : Bool) (timeout : Option E) (x : Script) (o : Operator Q E)
        → Adds (timed supported timeout) o (do_select 𝓡 supported timeout x o).0
    unfolding do_select
    do_select-Adds supported timeout x o =
        let r = timeout_add 𝓡 supported timeout x.on_timeout o in
        let added = timeout_add-Adds supported timeout x.on_timeout o in
        let n = timed supported timeout in
        if-Adds n o r.1 (after_wait 𝓡 x x.on_wait r.0) (r.0, none)
          (after_wait-Adds n x x.on_wait o r.0 added) added

    select-Adds :
        (supported : Bool) (timeout : Option E) (x : Script) (o : Operator Q E)
        → o.entering ≡ false
        → (amount (select 𝓡 supported timeout x o).0 ≡ timed supported timeout + amount o)
          × ((select 𝓡 supported timeout x o).0.entering ≡ false)
    unfolding select amount
    select-Adds supported timeout x o idle =
        let (t, s) = do_select-Adds supported timeout x (record o { entering = true }) in
        rw (idle, select) (t, refl)

    -- No entry is lost: after any sequence of calls of the operator, whatever the kernel answers
    -- and takes, of the entries that pass a test, those that the kernel has taken, those in its
    -- queue and those in the backlog are as many as there were, and those of the calls.
    pub tally-run :
        (ops : List (Op E)) (o : Operator Q E)
        → o.entering ≡ false
        → tally p (all 𝓡 (run ops o)) ≡ tally p (asked ops) + tally p (all 𝓡 o)
    unfolding amount
    tally-run [] o idle = omega arith
    tally-run (pushes e a ∷ ops) o idle =
        let (t, s) = push_sq-Adds e a o in
        omega (arith, t, tally-run ops (push_sq 𝓡 e a o).0 (s ∙ idle))
    tally-run (selects supported none x ∷ ops) o idle =
        let (t, s) = select-Adds supported none x o idle in
        omega (arith, t, tally-run ops (select 𝓡 supported none x o).0 s)
    tally-run (selects true (some e) x ∷ ops) o idle =
        let (t, s) = select-Adds true (some e) x o idle in
        omega (arith, t, tally-run ops (select 𝓡 true (some e) x o).0 s)
    tally-run (selects false (some e) x ∷ ops) o idle =
        let (t, s) = select-Adds false (some e) x o idle in
        omega (arith, t, tally-run ops (select 𝓡 false (some e) x o).0 s)

-- ===== src/Monitor/Tracking.antt =====
-- core/src/monitor.rs: the queue holds just the nodes of the coroutines that run.
use open_coroutine.Prelude.{
  ℕ, ◌+◌, ◌≤◌, ◌≡◌, ◌≢◌, ◌⊎◌, true, false, Option, none, some, List, [], ◌∷◌, arith, refl,
  Bool-cases, Option-cases, inl, inr, ap, sym,
}
use open_coroutine.Time.{get_timeout_time, u64_max}
use open_coroutine.Coroutine.State.{CoroutineState}
use open_coroutine.Monitor.{
  NotifyNode, Monitor, created, running, same, contains, insert_node, remove_node, submit,
  remove_local, on_state_changed,
}
use open_coroutine.Monitor.Nodes.{same_iff, contains-insert_node, contains-remove_node}
use open_coroutine.Monitor.Changes.{
  Change, Watch, Run, update, node_of, run_of, run_after, tell, tell_all, runs, runs_all, LegalTo,
  IsLegal, AllLegal, at_first,
}

-- The queue holds just the nodes of the coroutines that run.
pub record Tracks (s : Watch) (f : ℕ → Option Run) : Type 0 where
  pub accepts : (s.monitor.state ≡ created) ⊎ (s.monitor.state ≡ running)
  pub known : (co : ℕ) (r : Run) → f co ≡ some r → s.local co ≡ some (node_of r)
  pub kept : (co : ℕ) (r : Run) → f co ≡ some r → contains (node_of r) s.monitor.notify_queue ≡ true
  pub only :
      (n : NotifyNode)
      → contains n s.monitor.notify_queue ≡ true
      → (co : ℕ) × (r : Run) × (f co ≡ some r) × (node_of r ≡ n)
  pub apart :
      (co co' : ℕ) (r r' : Run)
      → f co ≡ some r
      → f co' ≡ some r'
      → r.pthread ≡ r'.pthread
      → co ≡ co'
  pub stale :
      (co : ℕ) (n : NotifyNode)
      → s.local co ≡ some n
      → f co ≡ none
      → contains n s.monitor.notify_queue ≡ false

module _ {s : Watch} {f : ℕ → Option Run} (t : Tracks s f) (co : ℕ) where
  abbrev queue : List NotifyNode
  queue = s.monitor.notify_queue

  began-Tracks :
      (r : Run) (m : Monitor)
      → f co ≡ none
      → ((c : ℕ) (r' : Run) → f c ≡ some r' → r'.pthread ≢ r.pthread)
      → ((c : ℕ) → s.local c ≢ some (node_of r))
      → m ≡ record { notify_queue = insert_node (node_of r) queue; state = running }
      → Tracks
          (record { monitor = m; local = update s.local co (some (node_of r)) })
          (update f co (some r))
  began-Tracks r m idle alone fresh e = record {
    accepts = inr (ground arith);
    known = λ c r' h. ground (arith, t.known c r');
    kept =
        λ c r' h. ground (arith, contains-insert_node (node_of r) (node_of r') queue, t.kept c r');
    only = λ k h. elim (Bool-cases (same (node_of r) k)) [
      | inl new ↦ (co, r, ground arith, (same_iff (node_of r) k).0 new)
      | inr old ↦
          let (c, r', u, v) = t.only k (ground (arith, contains-insert_node (node_of r) k queue)) in
          (c, r', ground arith, v)
    ];
    apart = λ c c' r1 r2 h1 h2 p. ground (arith, t.apart c c' r1 r2, alone c r1, alone c' r2);
    stale = λ c k h1 h2. ground (
      arith,
      contains-insert_node (node_of r) k queue,
      (same_iff (node_of r) k).0,
      fresh c,
      t.stale c k,
    );
  }

  still_runs :
      (q : List NotifyNode)
      → ((k : NotifyNode) → s.local co ≡ some k → contains k q ≡ false)
      → (c : ℕ) (r : Run) (k : NotifyNode) → f c ≡ some r
      → node_of r ≡ k
      → contains k q ≡ true
      → update f co none c ≡ some r
  still_runs q gone c r k u v h =
      ground (arith, t.known c r, gone (node_of r), ap (λ (j : NotifyNode). contains j q) v)

  -- A coroutine that does not run, or not any more, and whose node is not in the queue.
  ended-Tracks :
      (q : List NotifyNode)
      → ((k : NotifyNode) → contains k q ≡ true → contains k queue ≡ true)
      → ((c : ℕ) (r : Run) → f c ≡ some r → c ≢ co → contains (node_of r) q ≡ true)
      → ((k : NotifyNode) → s.local co ≡ some k → contains k q ≡ false)
      → (l : Option NotifyNode) → l ≡ s.local co
      → (m : Monitor) → m ≡ record s.monitor { notify_queue = q }
      → Tracks (record { monitor = m; local = update s.local co l }) (update f co none)
  ended-Tracks q fewer others gone l el m em = record {
    accepts = ground (arith, t.accepts);
    known = λ c r' h. ground (arith, t.known c r');
    kept = λ c r' h. ground (arith, others c r');
    only = λ k h.
        let (c, r', u, v) = t.only k (fewer k (ground arith)) in
        (c, r', still_runs q gone c r' k u v (ground arith), v);
    apart = λ c c' r1 r2 h1 h2 p. ground (arith, t.apart c c' r1 r2);
    stale = λ c k h1 h2. ground (arith, gone k, fewer k, t.stale c k);
  }

  others_kept :
      (n : NotifyNode) (c : ℕ) (r : Run)
      → s.local co ≡ some n
      → f c ≡ some r
      → c ≢ co
      → contains (node_of r) (remove_node n queue) ≡ true
  others_kept n c r e h ne = elim (Bool-cases (same n (node_of r))) [
    | inl p ↦
        let q = (same_iff n (node_of r)).0 p in
        elim (Option-cases (f co)) [
          | inl idle ↦ absurd (
              ground (
                arith,
                t.stale co n e idle,
                t.kept c r h,
                ap (λ (j : NotifyNode). contains j queue) q,
              ))
          | inr (r0, busy) ↦
              absurd (ne (t.apart c co r r0 h busy (ground (arith, t.known co r0 busy, e, q))))
        ]
    | inr p ↦ ground (arith, contains-remove_node n (node_of r) queue, t.kept c r h)
  ]

  -- Any change but to Running and to Ready.
  removed-Tracks :
      (l : Option NotifyNode)
      → l ≡ s.local co
      → Tracks
          (record {
            monitor = (remove_local l s.monitor).0;
            local = update s.local co (remove_local l s.monitor).1;
          })
          (update f co none)
  unfolding remove_local
  removed-Tracks none e =
      ended-Tracks queue (λ k h. h) (λ c r h ne. t.kept c r h) (λ k h. absurd (ground arith)) none e
        s.monitor refl
  removed-Tracks (some n) e =
      ended-Tracks (remove_node n queue) (λ k h. ground (arith, contains-remove_node n k queue))
        (λ c r h ne. others_kept n c r (sym e) h ne)
        (λ k h. ground (arith, contains-remove_node n k queue, (same_iff n k).1)) (some n) e _ refl

  still_idle : (c : ℕ) (r : Run) → f c ≡ some r → f co ≡ none → update f co none c ≡ some r
  still_idle c r u idle = ground arith

  idle-Tracks :
      (m : Monitor) (l : Option NotifyNode)
      → m ≡ s.monitor
      → l ≡ s.local co
      → f co ≡ none
      → Tracks (record { monitor = m; local = update s.local co l }) (update f co none)
  idle-Tracks m l em el idle = record {
    accepts = ground (arith, t.accepts);
    known = λ c r h. ground (arith, t.known c r);
    kept = λ c r h. ground (arith, t.kept c r);
    only = λ k h. let (c, r, u, v) = t.only k (ground arith) in (c, r, still_idle c r u idle, v);
    apart = λ c c' r1 r2 h1 h2 p. ground (arith, t.apart c c' r1 r2);
    stale = λ c k h1 h2. ground (arith, t.stale c k);
  }

submit-accepts :
    (r : Run) (m : Monitor)
    → (m.state ≡ created) ⊎ (m.state ≡ running)
    → r.since + 10_000_000 ≤ u64_max
    → submit true (get_timeout_time 10_000_000 r.since) r.pthread m ≡ (
      record { notify_queue = insert_node (node_of r) m.notify_queue; state = running },
      some (node_of r),
    )
unfolding submit get_timeout_time insert_node
submit-accepts r m h fits = ground arith

pub at_first-Tracks : Tracks at_first (λ co. none)
unfolding contains
at_first-Tracks = record {
  accepts = inl refl;
  known = λ co r h. absurd (ground arith);
  kept = λ co r h. absurd (ground arith);
  only = λ n h. absurd (ground arith);
  apart = λ co co' r r' h h' p. absurd (ground arith);
  stale = λ co n h h'. refl;
}

module _ {Y R : Type 0} where
  tell-Tracks :
      (e : Change Y R) (s : Watch) (f : ℕ → Option Run)
      → Tracks s f
      → IsLegal e s f
      → Tracks (tell e s) (runs e f)
  unfolding tell runs
  tell-Tracks e s f t legal = go e.state legal
    where
      go :
          (c : CoroutineState Y R)
          → LegalTo c e s f
          → Tracks
              (let (m, l) = on_state_changed true e.now e.pthread c s.monitor (s.local e.co) in
                record { monitor = m; local = update s.local e.co l })
              (update f e.co (run_after c (run_of e)))
      go CoroutineState.running (idle, alone, fresh, fits) =
          rw (submit-accepts (run_of e) s.monitor t.accepts fits)
            (began-Tracks t e.co (run_of e) _ idle alone fresh refl)
      go CoroutineState.ready idle = idle-Tracks t e.co _ _ refl refl idle
      go _ h = removed-Tracks t e.co (s.local e.co) refl

  pub tell_all-Tracks :
      (es : List (Change Y R)) (s : Watch) (f : ℕ → Option Run)
      → Tracks s f
      → AllLegal es s f
      → Tracks (tell_all es s) (runs_all es f)
  unfolding tell_all runs_all
  tell_all-Tracks [] s f t legal = t
  tell_all-Tracks (e ∷ es) s f t (h, legal) =
      tell_all-Tracks es (tell e s) (runs e f) (tell-Tracks e s f t h) legal

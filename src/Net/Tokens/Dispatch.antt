-- ===== src/Net/Tokens/Dispatch.antt =====
-- core/src/net/event_loop.rs: which coroutines the events of a `select` resume.
use mathlib.Core.Path.{subst}
use open_coroutine.Prelude.{
  ℕ, ltb, ◌≡◌, Bool, true, false, none, some, List, [], ◌∷◌, ◌&&◌, ◌||◌, not, ◌==◌, arith, ◌∙◌,
  refl, inl, inr, Bool-cases, if◌then◌else◌, All,
}
use open_coroutine.Maps.{Maps}
use open_coroutine.Coroutine.State.{Coroutine}
use open_coroutine.Selector.Records.{Event, Request, do_register, read, contains, fold_token}
use open_coroutine.Selector.Folding.{fold_token-below, fold_token-small}
use open_coroutine.Scheduler.Queues.{ReadyQueue}
use open_coroutine.Scheduler.Places.{Result, done, fails, panics, Scheduler, find, try_resume}
use open_coroutine.Scheduler.Places.Keeping.{Ends, Ends-done, held, InPlace, try_resume-keeps}
use open_coroutine.Net.Tokens.{Net, has_token, listen_read, resume, dispatch, deliver}

-- An event for a token.
abbrev pub speaks_of : ℕ → List Event → Bool
speaks_of t [] = false
speaks_of t (e ∷ es) = ((e.is_readable || e.is_writable) && e.token == t) || speaks_of t es

unspoken :
    (t id : ℕ) (es : List Event)
    → (t == id) ≡ false
    → All (λ e. e.token ≡ t) es
    → speaks_of id es ≡ false
unspoken t id [] d u = refl
unspoken t id (e ∷ es) d u = ground (arith, d, u.0, unspoken t id es d u.1)

module _ {Q Y R : Type 0} (𝓠 : ReadyQueue Q (Coroutine Y R)) (𝓜 : Maps) where
  find-try_resume :
      (id j : ℕ) (s s' : Scheduler Q 𝓜 Y R)
      → try_resume 𝓠 𝓜 id s ≡ done s'
      → find 𝓠 𝓜 j s'.syscall ≡ (if id == j then none else find 𝓠 𝓜 j s.syscall)
  unfolding try_resume
  find-try_resume id j s s' e =
      ground (arith, e, (𝓜.laws (Coroutine Y R)).get-remove id j s.syscall)

  -- What becomes of the coroutine `j`.
  abbrev pub Fate :
      ℕ
      → Bool
      → 𝓜.Map (Unit {0})
      → Scheduler Q 𝓜 Y R
      → 𝓜.Map (Unit {0}) × Scheduler Q 𝓜 Y R
      → Type 0
  Fate j called m s (m', s') =
      InPlace 𝓠 𝓜 s'
      × (held 𝓠 𝓜 j s' ≡ held 𝓠 𝓜 j s)
      × (s'.results ≡ s.results)
      × (find 𝓠 𝓜 j s'.syscall
          ≡ (if called && has_token 𝓠 𝓜 j m then none else find 𝓠 𝓜 j s.syscall))
      × (has_token 𝓠 𝓜 j m' ≡ (not called && has_token 𝓠 𝓜 j m))

  try_resume-done :
      (id j : ℕ) (s : Scheduler Q 𝓜 Y R)
      → InPlace 𝓠 𝓜 s
      → (s' : Scheduler Q 𝓜 Y R) × (try_resume 𝓠 𝓜 id s ≡ done s')
        × InPlace 𝓠 𝓜 s'
        × (held 𝓠 𝓜 j s' ≡ held 𝓠 𝓜 j s)
        × (s'.results ≡ s.results)
  try_resume-done id j s h =
      let Kept : Scheduler Q 𝓜 Y R → Type 0 =
        λ s'. InPlace 𝓠 𝓜 s' × (held 𝓠 𝓜 j s' ≡ held 𝓠 𝓜 j s) × (s'.results ≡ s.results) in
      let (s', e, kept) = Ends-done {P = Kept} (try_resume-keeps 𝓠 𝓜 id s j h) in
      (s', e, kept.0, kept.1, kept.2)

  resume-Fate :
      (t j : ℕ) (m : 𝓜.Map (Unit {0})) (s : Scheduler Q 𝓜 Y R)
      → InPlace 𝓠 𝓜 s
      → Ends (Fate j (t == j) m s) (resume 𝓠 𝓜 t m s)
  unfolding resume
  resume-Fate t j m s h =
      let (s', e, p, k, r) = try_resume-done t j s h in
      let gone = (𝓜.laws (Unit {0})).get-remove t j m in
      elim (Bool-cases (has_token 𝓠 𝓜 t m)) [
        | inl listed ↦
            rw (listed, Ends)
              (rw e
                (p, k, r, ground (arith, listed, find-try_resume t j s s' e), ground (arith, gone)))
        | inr lacks ↦ rw (lacks, Ends) (h, refl, refl, ground (arith, lacks), ground (arith, lacks))
      ]

  Fate-then :
      (j : ℕ) (a b : Bool) (m m' : 𝓜.Map (Unit {0})) (s s' : Scheduler Q 𝓜 Y R)
      (r : Result (𝓜.Map (Unit {0}) × Scheduler Q 𝓜 Y R))
      → Fate j a m s (m', s')
      → Ends (Fate j b m' s') r
      → Ends (Fate j (a || b) m s) r
  Fate-then j a b m m' s s' (done (m2, s2)) (p, k, q, f, t) (p2, k2, q2, f2, t2) =
      (p2, k2 ∙ k, q2 ∙ q, ground (arith, f, t, f2), ground (arith, t, t2))
  Fate-then j a b m m' s s' fails g h = h
  Fate-then j a b m m' s s' panics g h = h

  dispatch-Fate :
      (es : List Event) (j : ℕ) (m : 𝓜.Map (Unit {0})) (s : Scheduler Q 𝓜 Y R)
      → InPlace 𝓠 𝓜 s
      → Ends (Fate j (speaks_of j es) m s) (dispatch 𝓠 𝓜 es m s)
  unfolding dispatch
  dispatch-Fate [] j m s h = (h, refl, refl, refl, refl)
  dispatch-Fate (e ∷ es) j m s h = elim (Bool-cases (e.is_readable || e.is_writable)) [
    | inr none_of_both ↦ rw none_of_both (dispatch-Fate es j m s h)
    | inl speaks ↦
        let ((m', s'), q, fate) =
          Ends-done {P = Fate j (e.token == j) m s} (resume-Fate e.token j m s h) in
        rw speaks (
          rw q (
            Fate-then j (e.token == j) (speaks_of j es) m m' s s' (dispatch 𝓠 𝓜 es m' s') fate
              (dispatch-Fate es j m' s' fate.0)))
  ]

  -- What the delivery of events does to the coroutine `j`.
  abbrev pub Delivered : ℕ → List Event → Net 𝓠 𝓜 → Net 𝓠 𝓜 → Type 0
  Delivered j es n n' = Fate j (speaks_of j es) n.tokens n.scheduler (n'.tokens, n'.scheduler)

  -- Where each coroutine of the scheduler is in the state that goes with its place, the delivery of any
  -- events returns with no panic; of each id, the number of coroutines held and the results stay. A
  -- coroutine leaves the syscall table just if an event speaks of it and its token is registered; its
  -- token is registered afterwards just if it was and no event speaks of it.
  pub deliver-Fate :
      (es : List Event) (j : ℕ) (n : Net 𝓠 𝓜)
      → InPlace 𝓠 𝓜 n.scheduler
      → Ends (Delivered j es n) (deliver 𝓠 𝓜 es n)
  unfolding deliver
  deliver-Fate es j n h =
      let ((m, s), e, fate) =
        Ends-done {P = Fate j (speaks_of j es) n.tokens n.scheduler}
          (dispatch-Fate es j n.tokens n.scheduler h) in
      rw (e, Ends) fate

  -- A coroutine of the event loop `i` listens for reading on a descriptor that the selectors have in
  -- neither table, and the poller accepts it: the poller watches the descriptor under the token
  -- folded to 32 bits, which its events carry. After that, whatever the scheduler does, where each of
  -- its coroutines is in the state that goes with its place, the delivery of events, all of them
  -- under the folded token and one of them readable or writable, returns with no panic. A coroutine
  -- whose id is below 2^32 leaves the syscall table, and its token is used up; one whose id is not
  -- stays where it was, and its token stays registered.
  pub deliver-listen_read :
      (ok : Request → Bool) (i fd id : ℕ) (n : Net 𝓠 𝓜) (s : Scheduler Q 𝓜 Y R) (es : List Event)
      → contains 𝓜 n.tables.readable fd ≡ false
      → contains 𝓜 n.tables.writable fd ≡ false
      → ok (do_register fd (fold_token id) read) ≡ true
      → InPlace 𝓠 𝓜 s
      → All (λ e. e.token ≡ fold_token id) es
      → speaks_of (fold_token id) es ≡ true
      → ((listen_read 𝓠 𝓜 i ok fd id n).0.tables.watched i fd ≡ some (read, fold_token id))
        × Ends
            (λ n'.
              if ltb id 4294967296
              then (find 𝓠 𝓜 id n'.scheduler.syscall ≡ none) × (has_token 𝓠 𝓜 id n'.tokens ≡ false)
              else (find 𝓠 𝓜 id n'.scheduler.syscall ≡ find 𝓠 𝓜 id s.syscall)
                × (has_token 𝓠 𝓜 id n'.tokens ≡ true))
            (deliver 𝓠 𝓜 es (record (listen_read 𝓠 𝓜 i ok fd id n).0 { scheduler = s }))
  unfolding listen_read
  deliver-listen_read ok i fd id n s es r w a h u h' =
      let n1 = record (listen_read 𝓠 𝓜 i ok fd id n).0 { scheduler = s } in
      let kept = (𝓜.laws (Unit {0})).get-insert id id tt n.tokens in
      let (n2, e, fate) = Ends-done {P = Delivered id es n1} (deliver-Fate es id n1 h) in
      (
        ground (arith, r, w, a),
        elim (Bool-cases (ltb id 4294967296)) [
          | inl small ↦
              let called : speaks_of id es ≡ true =
                subst (λ t. speaks_of t es ≡ true) (fold_token-small id (ground (arith, small)))
                  h' in
              rw (e, Ends)
                (rw small (ground (arith, fate.3, kept, called), ground (arith, fate.4, called)))
          | inr large ↦
              let other : (fold_token id == id) ≡ false =
                ground (arith, large, fold_token-below id) in
              let silent = unspoken (fold_token id) id es other u in
              rw (e, Ends)
                (rw large (ground (arith, fate.3, silent), ground (arith, fate.4, kept, silent)))
        ],
      )

-- ===== src/Scheduler/Places/Keeping.antt =====
-- core/src/scheduler.rs: which coroutines a scheduler holds before and after `check_ready` and
-- `try_resume`.
use mathlib.Core.Path.{subst}
use open_coroutine.Prelude.{
  ℕ, suc, ◌+◌, ◌≤◌, ◌≡◌, refl, sym, ◌∙◌, ap, arith, Bool, Option, none, some, List, [], ◌∷◌, ◌==◌,
  All, inl, inr, ltb, Bool-cases, Option-cases,
}
use open_coroutine.Maps.{Maps}
use open_coroutine.Coroutine.State.{SyscallState, CoroutineState, Coroutine, ok, to_ready}
use open_coroutine.Syscall.Facade.{Wake, by_timeout, by_callback, wake}
use open_coroutine.Selector.Records.{is_some}
use open_coroutine.Scheduler.Queues.{ReadyQueue, one_if, tally}
use open_coroutine.Scheduler.Places.{
  SuspendItem, SyscallSuspendItem, Result, done, fails, panics, Scheduler, find, to_queue,
  try_resume, check_suspend, check_syscall, check_ready,
}

-- The result is a state, of which `P` holds.
abbrev pub Ends : {A : Type 0} → (A → Type 0) → Result A → Type 0
Ends P (done a) = P a
Ends P _ = ⊥

pub Ends-done :
    {A : Type 0} {P : A → Type 0} {r : Result A} → Ends P r → (a : A) × (r ≡ done a) × P a
Ends-done {r = done a} h = (a, refl, h)
Ends-done {r = fails} h = absurd h
Ends-done {r = panics} h = absurd h

pub Ends-all :
    {A : Type 0} (P : ℕ → A → Type 0) (r : Result A)
    → ((j : ℕ) → Ends (P j) r)
    → Ends (λ a. (j : ℕ) → P j a) r
Ends-all P (done a) h = h
Ends-all P fails h = h 0
Ends-all P panics h = h 0

module _ {Y R : Type 0} where
  -- Suspended until `ts`.
  abbrev pub IsUntil : ℕ → CoroutineState Y R → Type 0
  IsUntil ts (CoroutineState.suspend y t) = t ≡ ts
  IsUntil ts _ = ⊥

  -- Suspended in a syscall.
  abbrev pub IsWaiting : CoroutineState Y R → Type 0
  IsWaiting (CoroutineState.syscall val name (SyscallState.suspend t)) = Unit
  IsWaiting _ = ⊥

  abbrev pub IsParked : SuspendItem Y R → Type 0
  IsParked item = IsUntil item.timestamp item.coroutine.state

  -- What the syscall table holds at a key.
  abbrev pub IsKept : ℕ → Option (Coroutine Y R) → Type 0
  IsKept k none = Unit
  IsKept k (some co) = (co.id ≡ k) × IsWaiting co.state

  abbrev pub has_id : ℕ → Coroutine Y R → Bool
  has_id j co = co.id == j

  abbrev pub item_has_id : ℕ → SuspendItem Y R → Bool
  item_has_id j item = has_id j item.coroutine

module _ {Y R : Type 0} where
  to_ready-ok :
      (co : Coroutine Y R) (ts now : ℕ)
      → IsUntil ts co.state
      → ts ≤ now
      → ((to_ready co now).1 ≡ ok) × ((to_ready co now).0.id ≡ co.id)
  unfolding to_ready
  to_ready-ok co ts now h l = ground arith

  wake-some :
      (why : Wake) (k : ℕ) (co : Coroutine Y R)
      → IsKept k (some co)
      → (co' : Coroutine Y R) × (wake why co ≡ some co') × (co'.id ≡ k)
  unfolding wake
  wake-some why k co h = elim (Option-cases (wake why co)) [
    | inl e ↦ absurd (ground (arith, e))
    | inr (co', e) ↦ (co', e, ground (arith, e))
  ]

module _ {Q Y R : Type 0} (𝓠 : ReadyQueue Q (Coroutine Y R)) (𝓜 : Maps) where
  -- How many coroutines of an id the scheduler holds.
  abbrev pub held : ℕ → Scheduler Q 𝓜 Y R → ℕ
  held j s =
      (𝓠.count (has_id j) s.ready + tally (item_has_id j) s.suspend)
      + one_if (is_some (find 𝓠 𝓜 j s.syscall))

  -- Each coroutine is in the state that goes with its place.
  abbrev pub InPlace : Scheduler Q 𝓜 Y R → Type 0
  InPlace s = All IsParked s.suspend × ((k : ℕ) → IsKept k (find 𝓠 𝓜 k s.syscall))

  check_suspend-Ends :
      (clock : ℕ → ℕ)
      → ((i : ℕ) → clock i ≤ clock (suc i))
      → (k : ℕ) (items : List (SuspendItem Y R)) (s : Scheduler Q 𝓜 Y R) (m : 𝓜.Map (Coroutine Y R))
        (rs : List (ℕ × CoroutineState Y R)) (j n : ℕ)
      → All IsParked items
      → s.syscall ≡ m
      → s.results ≡ rs
      → held j (record s { suspend = items }) ≡ n
      → Ends
          (λ s'. (s'.syscall ≡ m) × All IsParked s'.suspend × (held j s' ≡ n) × (s'.results ≡ rs))
          (check_suspend 𝓠 𝓜 clock k items s)
  unfolding check_suspend
  check_suspend-Ends clock mono k [] s m rs j n h e q g = (e, tt, g, q)
  check_suspend-Ends clock mono k (item ∷ items) s m rs j n h e q g =
      elim (Bool-cases (ltb (clock k) item.timestamp)) [
        | inl early ↦ rw early (e, h, g, q)
        | inr due ↦
            let late : item.timestamp ≤ clock (suc k) = ground (arith, mono k) in
            let (accepted, same) =
              to_ready-ok item.coroutine item.timestamp (clock (suc k)) h.0 late in
            let co = (to_ready item.coroutine (clock (suc k))).0 in
            let s1 = record s { ready = 𝓠.push co s.ready } in
            let total : held j (record s1 { suspend = items }) ≡ n =
              omega
                (arith, g, 𝓠.count-push (has_id j) co s.ready, ap (λ i. one_if (i == j)) same) in
            rw due (
              rw accepted
                (check_suspend-Ends clock mono (suc (suc k)) items s1 m rs j n h.1 e q total))
      ]

  to_queue-held :
      (k j : ℕ) (co co' : Coroutine Y R) (s : Scheduler Q 𝓜 Y R)
      → find 𝓠 𝓜 k s.syscall ≡ some co
      → co'.id ≡ k
      → held j (to_queue 𝓠 𝓜 k co' s) ≡ held j s
  to_queue-held k j co co' s f e =
      let pushed = 𝓠.count-push (has_id j) co' s.ready in
      let left = (𝓜.laws (Coroutine Y R)).get-remove k j s.syscall in
      elim (Bool-cases (k == j)) [
        | inl same ↦ ground (arith, pushed, left, f, e)
        | inr other ↦ ground (arith, pushed, left, e)
      ]

  to_queue-InPlace :
      (k : ℕ) (co' : Coroutine Y R) (s : Scheduler Q 𝓜 Y R)
      → InPlace s
      → InPlace (to_queue 𝓠 𝓜 k co' s)
  to_queue-InPlace k co' s (h, g) =
      (h, λ j. ground (arith, (𝓜.laws (Coroutine Y R)).get-remove k j s.syscall, g j))

  check_syscall-Ends :
      (clock : ℕ → ℕ) (k : ℕ) (items : List SyscallSuspendItem) (s : Scheduler Q 𝓜 Y R)
      (rs : List (ℕ × CoroutineState Y R)) (j n : ℕ)
      → InPlace s
      → s.results ≡ rs
      → held j s ≡ n
      → Ends
          (λ s'. InPlace s' × (held j s' ≡ n) × (s'.results ≡ rs))
          (check_syscall 𝓠 𝓜 clock k items s)
  unfolding check_syscall
  check_syscall-Ends clock k [] s rs j n h q e = (h, e, q)
  check_syscall-Ends clock k (item ∷ items) s rs j n h q e =
      elim (Bool-cases (ltb (clock k) item.timestamp)) [
        | inl early ↦ rw early (h, e, q)
        | inr due ↦ elim (Option-cases (find 𝓠 𝓜 item.co_id s.syscall)) [
          | inl gone ↦ rw due (rw gone (check_syscall-Ends clock (suc k) items s rs j n h q e))
          | inr (co, found) ↦
              let kept : IsKept item.co_id (some co) =
                subst (λ o. IsKept item.co_id o) found (h.1 item.co_id) in
              let (co', woken, same) = wake-some by_timeout item.co_id co kept in
              rw due (
                rw found (
                  rw woken (
                    check_syscall-Ends clock (suc k) items (to_queue 𝓠 𝓜 item.co_id co' s) rs j n
                      (to_queue-InPlace item.co_id co' s h) q
                      (to_queue-held item.co_id j co co' s found same ∙ e))))
        ]
      ]

  -- Where each coroutine is in the state that goes with its place and the clock does not go back,
  -- `check_ready` returns with no error and no panic, and keeps, of each id, the number of coroutines
  -- that the scheduler holds, each still in its place, and the results.
  pub check_ready-keeps :
      (clock clock' : ℕ → ℕ)
      → ((i : ℕ) → clock i ≤ clock (suc i))
      → (s : Scheduler Q 𝓜 Y R) (j : ℕ) → InPlace s
      → Ends
          (λ s'. InPlace s' × (held j s' ≡ held j s) × (s'.results ≡ s.results))
          (check_ready 𝓠 𝓜 clock clock' s)
  unfolding check_ready
  check_ready-keeps clock clock' mono s j h =
      let first =
        check_suspend-Ends clock mono 0 s.suspend s s.syscall s.results j (held j s) h.0 refl refl
          refl in
      let (s1, e, (same, parked, total, q)) =
        Ends-done
          {P = λ s1.
            (s1.syscall ≡ s.syscall)
            × All IsParked s1.suspend
            × (held j s1 ≡ held j s)
            × (s1.results ≡ s.results)}
          first in
      rw (e, Ends)
        (check_syscall-Ends clock' 0 s1.syscall_suspend s1 s.results j (held j s)
          (parked, λ k. subst (λ m. IsKept k (find 𝓠 𝓜 k m)) (sym same) (h.1 k)) q total)

  -- Resuming an id, in the table or not, returns with no panic where each coroutine is in the state
  -- that goes with its place, and keeps, of each id, the number of coroutines held, each in its
  -- place, and the results.
  pub try_resume-keeps :
      (id : ℕ) (s : Scheduler Q 𝓜 Y R) (j : ℕ)
      → InPlace s
      → Ends
          (λ s'. InPlace s' × (held j s' ≡ held j s) × (s'.results ≡ s.results))
          (try_resume 𝓠 𝓜 id s)
  unfolding try_resume
  try_resume-keeps id s j h = elim (Option-cases (find 𝓠 𝓜 id s.syscall)) [
    | inl gone ↦ rw (gone, Ends) (h, refl, refl)
    | inr (co, found) ↦
        let kept : IsKept id (some co) = subst (λ o. IsKept id o) found (h.1 id) in
        let (co', woken, same) = wake-some by_callback id co kept in
        rw (found, Ends)
          (rw woken (to_queue-InPlace id co' s h, to_queue-held id j co co' s found same, refl))
  ]

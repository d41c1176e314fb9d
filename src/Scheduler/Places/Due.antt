-- ===== src/Scheduler/Places/Due.antt =====
-- core/src/scheduler.rs: which suspended coroutines `check_ready` leaves in their heap.
use mathlib.Core.Path.{subst}
use open_coroutine.Prelude.{
  ℕ, suc, ◌≤◌, ◌<◌, ◌≡◌, refl, sym, arith, List, [], ◌∷◌, All, inl, inr, ltb, Bool-cases,
}
use open_coroutine.Maps.{Maps}
use open_coroutine.Coroutine.State.{Coroutine, to_ready}
use open_coroutine.Scheduler.Queues.{ReadyQueue, heap_push}
use open_coroutine.Scheduler.Places.{
  SuspendItem, SyscallSuspendItem, Result, done, fails, panics, Scheduler, check_suspend,
  check_syscall, check_ready,
}
use open_coroutine.Scheduler.Places.Keeping.{Ends, InPlace, held, check_ready-keeps}

-- Where the result is a state, `P` holds of it.
abbrev pub Whenever : {A : Type 0} → (A → Type 0) → Result A → Type 0
Whenever P (done a) = P a
Whenever P _ = Unit

Ends-Whenever : {A : Type 0} (P F : A → Type 0) (r : Result A) → Ends F r → Whenever P r → Ends P r
Ends-Whenever P F (done a) h g = g
Ends-Whenever P F fails h g = h
Ends-Whenever P F panics h g = h

module _ {Y R : Type 0} where
  -- Later than `now`.
  abbrev pub IsAfter : ℕ → SuspendItem Y R → Type 0
  IsAfter now item = now < item.timestamp

  abbrev pub NoEarlier : SuspendItem Y R → SuspendItem Y R → Type 0
  NoEarlier x y = x.timestamp ≤ y.timestamp

  -- In the order of the heap.
  abbrev pub IsSorted : List (SuspendItem Y R) → Type 0
  IsSorted [] = Unit
  IsSorted (x ∷ xs) = All (NoEarlier x) xs × IsSorted xs

  All-IsAfter :
      (now : ℕ) (x : SuspendItem Y R) (xs : List (SuspendItem Y R))
      → now < x.timestamp
      → All (NoEarlier x) xs
      → All (IsAfter now) xs
  All-IsAfter now x [] h g = tt
  All-IsAfter now x (y ∷ ys) h g = (omega (arith, g.0), All-IsAfter now x ys h g.1)

  All-NoEarlier :
      (x y : SuspendItem Y R) (xs : List (SuspendItem Y R))
      → x.timestamp ≤ y.timestamp
      → All (NoEarlier y) xs
      → All (NoEarlier x) xs
  All-NoEarlier x y [] h g = tt
  All-NoEarlier x y (z ∷ zs) h g = (omega (arith, g.0), All-NoEarlier x y zs h g.1)

  heap_push-NoEarlier :
      (x y : SuspendItem Y R) (xs : List (SuspendItem Y R))
      → y.timestamp ≤ x.timestamp
      → All (NoEarlier y) xs
      → All (NoEarlier y) (heap_push (λ i. i.timestamp) x xs)
  unfolding heap_push
  heap_push-NoEarlier x y [] h g = (h, tt)
  heap_push-NoEarlier x y (z ∷ zs) h g = ground (arith, heap_push-NoEarlier x y zs h g.1)

  -- Pushing keeps the order of the heap.
  pub heap_push-IsSorted :
      (x : SuspendItem Y R) (xs : List (SuspendItem Y R))
      → IsSorted xs
      → IsSorted (heap_push (λ i. i.timestamp) x xs)
  unfolding heap_push
  heap_push-IsSorted x [] h = (tt, tt)
  heap_push-IsSorted x (y ∷ ys) h = elim (Bool-cases (ltb x.timestamp y.timestamp)) [
    | inl early ↦
        let first : x.timestamp ≤ y.timestamp = ground arith in
        rw early ((first, All-NoEarlier x y ys first h.0), h)
    | inr late ↦
        let second : y.timestamp ≤ x.timestamp = ground arith in
        rw late (heap_push-NoEarlier x y ys second h.0, heap_push-IsSorted x ys h.1)
  ]

module _ {Q Y R : Type 0} (𝓠 : ReadyQueue Q (Coroutine Y R)) (𝓜 : Maps) where
  check_suspend-IsAfter :
      (clock : ℕ → ℕ)
      → ((i : ℕ) → clock i ≤ clock (suc i))
      → (now k : ℕ) (items : List (SuspendItem Y R)) (s : Scheduler Q 𝓜 Y R) → now ≤ clock k
      → IsSorted items
      → Whenever (λ s'. All (IsAfter now) s'.suspend) (check_suspend 𝓠 𝓜 clock k items s)
  unfolding check_suspend
  check_suspend-IsAfter clock mono now k [] s h g = tt
  check_suspend-IsAfter clock mono now k (item ∷ items) s h g =
      let co = (to_ready item.coroutine (clock (suc k))).0 in
      let s1 = record s { ready = 𝓠.push co s.ready } in
      let later : now ≤ clock (suc (suc k)) = omega (arith, mono k, mono (suc k)) in
      let rest = check_suspend-IsAfter clock mono now (suc (suc k)) items s1 later g.1 in
      elim (Bool-cases (ltb (clock k) item.timestamp)) [
        | inl early ↦
            let first : now < item.timestamp = ground arith in
            rw (early, Whenever) (first, All-IsAfter now item items first g.0)
        | inr due ↦ ground (arith, rest)
      ]

  check_syscall-suspend :
      (clock : ℕ → ℕ) (k : ℕ) (items : List SyscallSuspendItem) (s : Scheduler Q 𝓜 Y R)
      → Whenever (λ s'. s'.suspend ≡ s.suspend) (check_syscall 𝓠 𝓜 clock k items s)
  unfolding check_syscall
  check_syscall-suspend clock k [] s = refl
  check_syscall-suspend clock k (item ∷ items) s =
      grind (arith, check_syscall-suspend clock (suc k) items)

  same_suspend :
      (P : List (SuspendItem Y R) → Type 0) (xs : List (SuspendItem Y R))
      (r : Result (Scheduler Q 𝓜 Y R))
      → P xs
      → Whenever (λ s'. s'.suspend ≡ xs) r
      → Whenever (λ s'. P s'.suspend) r
  same_suspend P xs (done s) h e = subst P (sym e) h
  same_suspend P xs fails h e = tt
  same_suspend P xs panics h e = tt

  second_loop :
      (clock' : ℕ → ℕ) (P : List (SuspendItem Y R) → Type 0) (r : Result (Scheduler Q 𝓜 Y R))
      → Whenever (λ s'. P s'.suspend) r
      → Whenever
          (λ s'. P s'.suspend)
          (elim r [
            | done s' ↦ check_syscall 𝓠 𝓜 clock' 0 s'.syscall_suspend s'
            | fails ↦ fails
            | panics ↦ panics
          ])
  second_loop clock' P (done s) h =
      same_suspend P s.suspend (check_syscall 𝓠 𝓜 clock' 0 s.syscall_suspend s) h
        (check_syscall-suspend clock' 0 s.syscall_suspend s)
  second_loop clock' P fails h = h
  second_loop clock' P panics h = h

  -- Where each coroutine is in the state that goes with its place, the heap of suspended ones is in
  -- order and the clock does not go back, `check_ready` returns, and all coroutines that it leaves in
  -- that heap are to sleep longer than the first reading of the clock.
  pub check_ready-due :
      (clock clock' : ℕ → ℕ)
      → ((i : ℕ) → clock i ≤ clock (suc i))
      → (s : Scheduler Q 𝓜 Y R) → InPlace 𝓠 𝓜 s
      → IsSorted s.suspend
      → Ends (λ s'. All (IsAfter (clock 0)) s'.suspend) (check_ready 𝓠 𝓜 clock clock' s)
  unfolding check_ready
  check_ready-due clock clock' mono s h g =
      Ends-Whenever (λ s'. All (IsAfter (clock 0)) s'.suspend)
        (λ s'. InPlace 𝓠 𝓜 s' × (held 𝓠 𝓜 0 s' ≡ held 𝓠 𝓜 0 s) × (s'.results ≡ s.results))
        (check_ready 𝓠 𝓜 clock clock' s) (check_ready-keeps 𝓠 𝓜 clock clock' mono s 0 h)
        (second_loop clock' (All (IsAfter (clock 0))) (check_suspend 𝓠 𝓜 clock 0 s.suspend s)
          (check_suspend-IsAfter clock mono (clock 0) 0 s.suspend s (omega arith) g))

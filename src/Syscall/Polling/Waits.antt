-- ===== src/Syscall/Polling/Waits.antt =====
-- How long poll and select wait while nothing is ready.
use mathlib.Core.List.{append-nil, append_assoc}
use open_coroutine.Prelude.{
  ℕ, zero, suc, ◌+◌, ◌-◌, ◌*◌, ◌≤◌, ◌<◌, ◌≡◌, refl, min, List, [], ◌∷◌, ◌++◌, some, All, sum, arith,
  inl, inr, ◌⊎◌, replicate, length, ◌∙◌,
}
use open_coroutine.Syscall.World.{Ret, bytes}
use open_coroutine.Syscall.Polling.{
  pos, c_int_max, c_uint_max, double_up, from_millis, poll_loop, nio_poll, Sets, Selected, restore,
  select_loop, nio_select,
}

-- Waits, in ns, of at most 16 ms, that add up to `t` ms.
pub record Fills (t : ℕ) (waits : List ℕ) : Type 0 where
  pub total : sum waits ≡ t * 1_000_000
  pub short : All (λ d. d ≤ 16_000_000) waits

-- The values of `x`.
abbrev IsStep : ℕ → Type 0
IsStep x = (x ≡ 1) ⊎ (x ≡ 2) ⊎ (x ≡ 4) ⊎ (x ≡ 8) ⊎ (x ≡ 16)

double_up-IsStep : (x : ℕ) → IsStep x → IsStep (double_up x)
double_up-IsStep x h = ground arith

zero_cases : (t : ℕ) → (t ≡ 0) ⊎ (0 < t)
zero_cases zero = inl refl
zero_cases (suc t) = inr (omega arith)

poll_loop-Fills :
    (n t x : ℕ) (waits : List ℕ)
    → t < n
    → t < c_int_max
    → IsStep x
    → (more : List ℕ) × (poll_loop (replicate n (bytes 0)) t x waits
        ≡ some (bytes 0, waits ++ more))
      × Fills t more
unfolding poll_loop
poll_loop-Fills zero t x waits h m q = absurd (omega arith)
poll_loop-Fills (suc n) t x waits h m q = elim (zero_cases t) [
  | inl done ↦ ([], ground (arith, append-nil waits), record { total = omega arith; short = tt })
  | inr more ↦
      let (rest, e, f) =
        poll_loop-Fills n (t - x) (double_up x) (waits ++ from_millis (min t x) ∷ []) (omega arith)
          (omega arith) (double_up-IsStep x q) in
      (
        from_millis (min t x) ∷ rest,
        ground (arith, e, append_assoc waits (from_millis (min t x) ∷ []) rest),
        record { total = omega (arith, f.total); short = (omega arith, f.short) },
      )
]

-- A poll with a finite timeout below the greatest int, while no descriptor is ready and the raw call
-- can be made often enough, returns 0, and its waits, none longer than 16 ms, add up to just the
-- timeout in ms.
pub nio_poll-Fills :
    (t n : ℕ)
    → t < c_int_max
    → t < n
    → (waits : List ℕ) × (nio_poll (pos t) (replicate n (bytes 0)) ≡ some (bytes 0, waits))
      × Fills t waits
unfolding nio_poll
nio_poll-Fills t n m h = poll_loop-Fills n t 1 [] h m (inl refl)

-- The raw answer of a round in which nothing is ready: 0, the sets being what they may.
abbrev pub idle : List Sets → List (Ret × Sets)
idle [] = []
idle (s ∷ ss) = (bytes 0, s) ∷ idle ss

select_loop-Fills :
    (ss : List Sets) (s sets : Sets) (t x : ℕ) (waits : List ℕ) (asked : List Sets)
    → t < length ss
    → t < c_uint_max
    → IsStep x
    → (end : Selected) × (more : List ℕ) × (select_loop (idle ss) s sets t x waits asked ≡ some end)
      × (end.r ≡ bytes 0)
      × (end.waits ≡ waits ++ more)
      × Fills t more
unfolding select_loop
select_loop-Fills [] s sets t x waits asked h m q = absurd (omega arith)
select_loop-Fills (l ∷ ss) s sets t x waits asked h m q = elim (zero_cases t) [
  | inl done ↦ (
    record { r = bytes 0; sets = l; waits = waits; asked = asked ++ sets ∷ [] },
    [],
    ground arith,
    refl,
    ground (arith, append-nil waits),
    record { total = omega arith; short = tt },
  )
  | inr more ↦
      let (end, rest, e, r, g, f) =
        select_loop-Fills ss s (restore s l) (t - x) (double_up x)
          (waits ++ from_millis (min t x) ∷ []) (asked ++ sets ∷ []) (omega arith) (omega arith)
          (double_up-IsStep x q) in
      (
        end,
        from_millis (min t x) ∷ rest,
        ground (arith, e),
        r,
        g ∙ append_assoc waits (from_millis (min t x) ∷ []) rest,
        record { total = omega (arith, f.total); short = (omega arith, f.short) },
      )
]

-- A duration of seconds and µs, in ns.
abbrev pub nanos_of : ℕ → ℕ → ℕ
nanos_of tv_sec tv_usec = tv_sec * 1_000_000_000 + tv_usec * 1_000

-- A select with a timeout of less than the greatest unsigned int in µs, while nothing is ready and the
-- raw call can be made often enough, returns 0 after waits that add up to a thousand times the timeout,
-- both in ns.
pub nio_select-thousandfold :
    (tv_sec tv_usec : ℕ) (s : Sets) (ss : List Sets)
    → tv_sec * 1_000_000 + tv_usec < c_uint_max
    → tv_sec * 1_000_000 + tv_usec < length ss
    → (end : Selected) × (nio_select (some (tv_sec, tv_usec)) s (idle ss) ≡ some end)
      × (end.r ≡ bytes 0)
      × (sum end.waits ≡ 1000 * nanos_of tv_sec tv_usec)
unfolding nio_select
nio_select-thousandfold tv_sec tv_usec s ss m h =
    let t = tv_sec * 1_000_000 + tv_usec in
    let (end, more, e, r, g, f) = select_loop-Fills ss s s t 1 [] [] h m (inl refl) in
    let time : min (min (tv_sec * 1_000_000) c_uint_max + tv_usec) c_uint_max ≡ t = omega arith in
    (end, rw time e, r, rw g (omega (arith, f.total)))

-- ===== src/Net/Closing/Forgets.antt =====
-- core/src/syscall/unix/close.rs and shutdown.rs: what the selectors and the pollers still know of a
-- descriptor that is closed.
use open_coroutine.Prelude.{
  ℕ, zero, suc, ◌<◌, Bool, true, false, ◌≡◌, refl, arith, Option, none, some, ◌==◌, ◌&&◌, ◌||◌,
}
use open_coroutine.Maps.{Maps}
use open_coroutine.Syscall.Polling.{pos}
use open_coroutine.Selector.Records.{
  Request, do_deregister, Tables, contains, add_read_event, del_event,
}
use open_coroutine.Net.Closing.{each, nio_close, nio_shutdown}

-- The event loop whose poller is asked first.
abbrev pub asked : Option ℕ → ℕ
asked none = 0
asked (some i) = i

module _ (𝓜 : Maps) (fd : ℕ) where
  abbrev pub is_listed : Tables 𝓜 → Bool
  is_listed s = contains 𝓜 s.readable fd || contains 𝓜 s.writable fd

  -- The descriptor is in neither table and, if it was in one, the poller `i` watches it no more. What
  -- else the pollers watch stays: other descriptors, and this one by the other pollers.
  abbrev pub Forgets : ℕ → Tables 𝓜 → Tables 𝓜 → Type 0
  Forgets i s s' =
      (contains 𝓜 s'.readable fd ≡ false)
      × (contains 𝓜 s'.writable fd ≡ false)
      × (is_listed s ≡ true → s'.watched i fd ≡ none)
      × ((k j : ℕ) → (i == k && fd == j) ≡ false → s'.watched k j ≡ s.watched k j)

  abbrev U : Type 0
  U = Unit {0}

  del_event-Forgets :
      (ok : Request → Bool) (i : ℕ) (s : Tables 𝓜)
      → ok (do_deregister fd) ≡ true
      → ((del_event 𝓜 i ok s fd).1 ≡ true) × Forgets i s (del_event 𝓜 i ok s fd).0
  unfolding del_event
  del_event-Forgets ok i s a =
      let r = (𝓜.laws U).get-remove fd fd s.readable in
      let w = (𝓜.laws U).get-remove fd fd s.writable in
      (
        ground (arith, a),
        (
          ground (arith, a, r),
          ground (arith, a, w),
          λ listed. ground (arith, a, listed),
          λ k j apart. ground (arith, a, apart),
        ),
      )

  -- A loop over event loops that finds the descriptor in neither table does nothing.
  each-unlisted :
      (ok : ℕ → Request → Bool) (i n : ℕ) (s : Tables 𝓜)
      → contains 𝓜 s.readable fd ≡ false
      → contains 𝓜 s.writable fd ≡ false
      → each 𝓜 (λ k u. del_event 𝓜 k (ok k) u fd) i n s ≡ (s, true)
  unfolding each del_event
  each-unlisted ok i zero s r w = refl
  each-unlisted ok i (suc n) s r w = rw (r, w) (each-unlisted ok (suc i) n s r w)

  -- A hooked close, or a shutdown in both directions, where the poller that is asked first, that of the
  -- thread's event loop or of the first one, accepts the deregistration: the descriptor is in neither
  -- table of the selectors; if it was in one, that poller watches it no more. No other poller is asked:
  -- all go on watching what else they watched, another event loop's poller this descriptor, too.
  pub nio_close-Forgets :
      (ok : ℕ → Request → Bool) (current : Option ℕ) (n : ℕ) (s : Tables 𝓜)
      → 0 < n
      → ok (asked current) (do_deregister fd) ≡ true
      → Forgets (asked current) s (nio_close 𝓜 ok fd current n s)
        × (nio_shutdown 𝓜 ok fd (pos 2) current n s ≡ some (nio_close 𝓜 ok fd current n s))
  unfolding nio_close nio_shutdown
  nio_close-Forgets ok (some i) n s h a = ((del_event-Forgets (ok i) i s a).1, refl)
  nio_close-Forgets ok none zero s h a = absurd (omega (arith, h))
  nio_close-Forgets ok none (suc n) s h a =
      let (done, forgets) = del_event-Forgets (ok 0) 0 s a in
      let rest = each-unlisted ok 1 n (del_event 𝓜 0 (ok 0) s fd).0 forgets.0 forgets.1 in
      (rw (done, rest, nio_close) forgets, refl)

  -- A hooked close where the poller that is asked first refuses, as it does if another event loop's
  -- poller is the one that watches the descriptor: what the pollers watch stays, and a descriptor in
  -- the table of readable ones stays there. A coroutine of any event loop that then waits to read the
  -- descriptor, which may be a new file's by now, is answered Ok, with no call of a poller.
  pub nio_close-unheard :
      (ok : ℕ → Request → Bool) (current : Option ℕ) (n : ℕ) (s : Tables 𝓜) (ok' : Request → Bool)
      (j token : ℕ)
      → 0 < n
      → ok (asked current) (do_deregister fd) ≡ false
      → contains 𝓜 s.readable fd ≡ true
      → let s' = nio_close 𝓜 ok fd current n s in
        (s'.watched ≡ s.watched)
        × (contains 𝓜 s'.readable fd ≡ true)
        × (add_read_event 𝓜 j ok' s' fd token ≡ (s', true))
  unfolding nio_close add_read_event del_event
  nio_close-unheard ok (some i) n s ok' j token h a r =
      (ground (arith, a, r), ground (arith, a, r), ground (arith, a, r))
  nio_close-unheard ok none zero s ok' j token h a r = absurd (omega (arith, h))
  nio_close-unheard ok none (suc n) s ok' j token h a r =
      (ground (arith, a, r), ground (arith, a, r), ground (arith, a, r))

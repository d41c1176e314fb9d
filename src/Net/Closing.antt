-- ===== src/Net/Closing.antt =====
-- core/src/syscall/unix/close.rs and shutdown.rs, with `del_event`, `del_read_event` and
-- `del_write_event` of core/src/net/mod.rs. The tables are those that the selectors of all event loops
-- share; `ok i` are the answers of the poller of the loop `i`. The calling thread is that of an event
-- loop, given by its index, or another one; the event loops, `n` of them, are set up.
pub mod Forgets
mod Examples
use open_coroutine.Prelude.{
  ℕ, zero, suc, Bool, true, false, Option, none, some, List, [], ◌∷◌, ◌==◌, if◌then◌else◌,
  get_elem?,
}
use open_coroutine.Maps.{Maps}
use open_coroutine.Syscall.Polling.{ℤ, pos, negsuc}
use open_coroutine.Selector.Records.{Request, Tables, del_event, del_read_event, del_write_event}
use open_coroutine.Stealing.Ordered.{set_elem}

module _ (𝓜 : Maps) where
  -- The `for` loop over `n` event loops, from the one at `i` on: `?` ends it at the first error.
  unfoldable pub each : (ℕ → Tables 𝓜 → Tables 𝓜 × Bool) → ℕ → ℕ → Tables 𝓜 → Tables 𝓜 × Bool
  each del i zero s = (s, true)
  each del i (suc n) s =
      let (s', done) = del i s in
      let rest = each del (suc i) n s' in if done then rest else (s', false)

  unfoldable pub on_loops :
      (ℕ → Tables 𝓜 → Tables 𝓜 × Bool) → Option ℕ → ℕ → Tables 𝓜 → Tables 𝓜 × Bool
  unfolding each
  on_loops del none n s = each del 0 n s
  on_loops del (some i) n s = del i s

  module _ (ok : ℕ → Request → Bool) where
    -- `EventLoops::del_event`, and so on.
    unfoldable pub loops_del_event : ℕ → Option ℕ → ℕ → Tables 𝓜 → Tables 𝓜 × Bool
    unfolding on_loops del_event
    loops_del_event fd = on_loops (λ i s. del_event 𝓜 i (ok i) s fd)

    unfoldable pub loops_del_read_event : ℕ → Option ℕ → ℕ → Tables 𝓜 → Tables 𝓜 × Bool
    unfolding on_loops del_read_event
    loops_del_read_event fd = on_loops (λ i s. del_read_event 𝓜 i (ok i) s fd)

    unfoldable pub loops_del_write_event : ℕ → Option ℕ → ℕ → Tables 𝓜 → Tables 𝓜 × Bool
    unfolding on_loops del_write_event
    loops_del_write_event fd = on_loops (λ i s. del_write_event 𝓜 i (ok i) s fd)

    -- What the hooked close does before the raw call, whatever the event loops answer.
    unfoldable pub nio_close : ℕ → Option ℕ → ℕ → Tables 𝓜 → Tables 𝓜
    unfolding loops_del_event
    nio_close fd current n s = (loops_del_event fd current n s).0

    -- The hooked shutdown: the tables before the raw call, or `none`, that is EINVAL with no raw call.
    -- SHUT_RD is 0, SHUT_WR 1, SHUT_RDWR 2.
    unfoldable pub nio_shutdown : ℕ → ℤ → Option ℕ → ℕ → Tables 𝓜 → Option (Tables 𝓜)
    unfolding loops_del_event loops_del_read_event loops_del_write_event
    nio_shutdown fd (pos how) current n s =
        if how == 0
        then some (loops_del_read_event fd current n s).0
        else (if how == 1
            then some (loops_del_write_event fd current n s).0
            else (if how == 2 then some (loops_del_event fd current n s).0 else none))
    nio_shutdown fd (negsuc how) current n s = none

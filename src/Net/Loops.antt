-- ===== src/Net/Loops.antt =====
-- core/src/net/mod.rs: the event loops, and the choice of one for a new task. An event loop is left
-- open.
pub mod Turns
use open_coroutine.Prelude.{
  ℕ, zero, suc, ◌+◌, ◌%◌, Option, none, some, List, [], ◌∷◌, length, get_elem?,
}

pub record EventLoops (L : Type 0) : Type 0 where
  pub index : ℕ
  pub loops : List L

module _ {L : Type 0} where
  -- `index` is a usize, and wraps. `none` is the panic, for want of a loop.
  unfoldable pub round_robin : EventLoops L → Option L × EventLoops L
  round_robin e = (
    get_elem? e.loops (e.index % length e.loops),
    record e { index = (e.index + 1) % 18446744073709551616 },
  )

  -- `EventLoops::event_loop`, by a thread whose own event loop is `current`.
  unfoldable pub event_loop : Option L → EventLoops L → Option L × EventLoops L
  unfolding round_robin
  event_loop (some current) e = (some current, e)
  event_loop none e = round_robin e

  -- The loops that `n` calls in a row choose.
  unfoldable pub turns : ℕ → EventLoops L → List (Option L)
  unfolding round_robin
  turns zero e = []
  turns (suc n) e = (round_robin e).0 ∷ turns n (round_robin e).1

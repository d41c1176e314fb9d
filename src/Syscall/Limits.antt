-- ===== src/Syscall/Limits.antt =====
-- The time limits of descriptors: `send_time_limit` and `recv_time_limit` of
-- core/src/syscall/unix/mod.rs with their tables, and core/src/syscall/unix/setsockopt.rs. `none` is a
-- panic.
pub mod Fixed
mod Examples
use open_coroutine.Prelude.{ℕ, Bool, true, false, Option, none, some, ◌&&◌, if◌then◌else◌}
use open_coroutine.Time.{u64_max, get_time_limit}
use open_coroutine.Maps.{Maps}
use open_coroutine.Selector.Records.{is_some}

-- What getsockopt answers for a time-out: seconds and microseconds, ENOTSOCK, or another error.
pub data Timeval : Type 0 where
  timeval : ℕ → ℕ → Timeval
  not_socket other_error : Timeval

-- The options of setsockopt that the code tells apart.
pub data SockOpt : Type 0 where
  so_sndtimeo so_rcvtimeo other_option : SockOpt

-- SEND_TIME_LIMIT and RECV_TIME_LIMIT.
pub record Limits (𝓜 : Maps) : Type 0 where
  pub send : 𝓜.Map ℕ
  pub recv : 𝓜.Map ℕ

module _ (𝓜 : Maps) where
  abbrev pub limit_of : ℕ → 𝓜.Map ℕ → Option ℕ
  limit_of = (𝓜.laws ℕ).get

  -- `assert!(table.insert(fd, limit).is_none())`
  unfoldable pub insert_new : ℕ → ℕ → 𝓜.Map ℕ → Option (𝓜.Map ℕ)
  insert_new fd limit m =
      if is_some (limit_of fd m) then none else some ((𝓜.laws ℕ).insert fd limit m)

  -- The common body of the two functions: the limit and the table.
  unfoldable pub time_limit : Timeval → ℕ → 𝓜.Map ℕ → Option (ℕ × 𝓜.Map ℕ)
  unfolding insert_new
  time_limit answer fd m = elim (limit_of fd m) [
    | some limit ↦ some (limit, m)
    | none ↦ elim answer [
      | timeval sec usec ↦
          let limit = get_time_limit sec usec in
          elim (insert_new fd limit m) [ some m' ↦ some (limit, m') | none ↦ none ]
      | not_socket ↦ some (u64_max, m)
      | other_error ↦ none
    ]
  ]

  unfoldable pub send_time_limit : Timeval → ℕ → Limits 𝓜 → Option (ℕ × Limits 𝓜)
  unfolding time_limit
  send_time_limit answer fd s = elim (time_limit answer fd s.send) [
    | some (limit, m) ↦ some (limit, record s { send = m })
    | none ↦ none
  ]

  unfoldable pub recv_time_limit : Timeval → ℕ → Limits 𝓜 → Option (ℕ × Limits 𝓜)
  unfolding time_limit
  recv_time_limit answer fd s = elim (time_limit answer fd s.recv) [
    | some (limit, m) ↦ some (limit, record s { recv = m })
    | none ↦ none
  ]

  -- The hooked setsockopt, where the raw call answers 0 or not, and the level is SOL_SOCKET or not.
  unfoldable pub nio_setsockopt :
      Bool → Bool → ℕ → SockOpt → ℕ → ℕ → Limits 𝓜 → Option (Bool × Limits 𝓜)
  unfolding insert_new
  nio_setsockopt raw_ok sol_socket fd name sec usec s =
      let limit = get_time_limit sec usec in
      if raw_ok && sol_socket
      then elim name [
        | so_sndtimeo ↦ elim (insert_new fd limit s.send) [
          | some m ↦ some (raw_ok, record s { send = m })
          | none ↦ none
        ]
        | so_rcvtimeo ↦ elim (insert_new fd limit s.recv) [
          | some m ↦ some (raw_ok, record s { recv = m })
          | none ↦ none
        ]
        | other_option ↦ some (raw_ok, s)
      ]
      else some (raw_ok, s)

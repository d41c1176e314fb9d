-- ===== src/Coroutine/State.antt =====
-- core/src/common/constants.rs (the states), core/src/coroutine/state.rs (the changes of state) and
-- core/src/coroutine/listener.rs (the callbacks). A callback's own effects are the user's code; the
-- `catch!` around each call discards its outcome, so the log keeps which calls are made, in order.
use open_coroutine.Prelude.{
  ℕ, Bool, true, false, String, List, [], ◌∷◌, ◌++◌, leb, ◌==◌, if◌then◌else◌,
}

-- `SyscallName` on Linux, in the order of the declaration.
pub data SyscallName : Type 0 where
  sleep usleep nanosleep poll select accept4 epoll_ctl epoll_wait io_uring_enter setsockopt recv
        recvfrom read pread readv preadv recvmsg connect listen accept shutdown close socket send
        sendto write pwrite writev pwritev sendmsg fsync renameat renameat2 mkdir mkdirat rmdir
        lseek openat link unlink pthread_cond_timedwait pthread_mutex_trylock pthread_mutex_lock
        pthread_mutex_unlock panicking :
      SyscallName

-- The derived `==` compares the discriminants.
unfoldable pub discriminant : SyscallName → ℕ
discriminant sleep = 0
discriminant usleep = 1
discriminant nanosleep = 2
discriminant poll = 3
discriminant select = 4
discriminant accept4 = 5
discriminant epoll_ctl = 6
discriminant epoll_wait = 7
discriminant io_uring_enter = 8
discriminant setsockopt = 9
discriminant recv = 10
discriminant recvfrom = 11
discriminant read = 12
discriminant pread = 13
discriminant readv = 14
discriminant preadv = 15
discriminant recvmsg = 16
discriminant connect = 17
discriminant listen = 18
discriminant accept = 19
discriminant shutdown = 20
discriminant close = 21
discriminant socket = 22
discriminant send = 23
discriminant sendto = 24
discriminant write = 25
discriminant pwrite = 26
discriminant writev = 27
discriminant pwritev = 28
discriminant sendmsg = 29
discriminant fsync = 30
discriminant renameat = 31
discriminant renameat2 = 32
discriminant mkdir = 33
discriminant mkdirat = 34
discriminant rmdir = 35
discriminant lseek = 36
discriminant openat = 37
discriminant link = 38
discriminant unlink = 39
discriminant pthread_cond_timedwait = 40
discriminant pthread_mutex_trylock = 41
discriminant pthread_mutex_lock = 42
discriminant pthread_mutex_unlock = 43
discriminant panicking = 44

pub data SyscallState : Type 0 where
  executing : SyscallState
  suspend : ℕ → SyscallState
  timeout callback : SyscallState

pub data CoroutineState (Y R : Type 0) : Type 0 where
  ready running : CoroutineState Y R
  suspend : Y → ℕ → CoroutineState Y R
  syscall : Y → SyscallName → SyscallState → CoroutineState Y R
  cancelled : CoroutineState Y R
  complete : R → CoroutineState Y R
  error : String → CoroutineState Y R

-- The methods of the trait `Listener`.
pub data Callback (Y R : Type 0) : Type 0 where
  on_state_changed : CoroutineState Y R → CoroutineState Y R → Callback Y R
  on_ready on_running on_suspend on_syscall on_cancel : CoroutineState Y R → Callback Y R
  on_complete : CoroutineState Y R → R → Callback Y R
  on_error : CoroutineState Y R → String → Callback Y R

-- The fields that a change of state reads or writes. A listener is named by a number; `log` holds
-- the calls of listeners, oldest first.
pub record Coroutine (Y R : Type 0) : Type 0 where
  pub id : ℕ
  pub state : CoroutineState Y R
  pub listeners : List ℕ
  pub log : List (ℕ × Callback Y R)

-- `unexpected current new`: the error "unexpected {current}->{new}".
pub data Outcome (Y R : Type 0) : Type 0 where
  ok : Outcome Y R
  unexpected : CoroutineState Y R → CoroutineState Y R → Outcome Y R

module _ {Y R : Type 0} where
  -- The loop of the macro `broadcast!`.
  abbrev pub calls : List ℕ → Callback Y R → List (ℕ × Callback Y R)
  calls [] c = []
  calls (l ∷ ls) c = (l, c) ∷ calls ls c

  abbrev pub broadcast : Coroutine Y R → Callback Y R → Coroutine Y R
  broadcast co c = record co { log = co.log ++ calls co.listeners c }

  -- The new state is in place before the listeners hear of it. The old state is returned.
  unfoldable pub change_state :
      Coroutine Y R → CoroutineState Y R → Coroutine Y R × CoroutineState Y R
  change_state co new_state =
      let old_state = co.state in
      (
        broadcast (record co { state = new_state }) (on_state_changed old_state new_state),
        old_state,
      )

  -- `let old_state = self.change_state(new_state); self.on_…(self, old_state); return Ok(())`
  abbrev pub enter :
      Coroutine Y R
      → CoroutineState Y R
      → (CoroutineState Y R → Callback Y R)
      → Coroutine Y R × Outcome Y R
  enter co new_state on =
      let (co', old_state) = change_state co new_state in (broadcast co' (on old_state), ok)

  abbrev pub refuse : Coroutine Y R → CoroutineState Y R → Coroutine Y R × Outcome Y R
  refuse co new_state = (co, unexpected co.state new_state)

  -- `match current { … }` of each method, on the state and then the coroutine.
  to_ready_match : CoroutineState Y R → ℕ → Coroutine Y R → Coroutine Y R × Outcome Y R
  to_ready_match ready now co = (co, ok)
  to_ready_match (suspend y timestamp) now co =
      if leb timestamp now then enter co ready on_ready else refuse co ready
  to_ready_match _ now co = refuse co ready

  unfoldable pub to_ready : Coroutine Y R → ℕ → Coroutine Y R × Outcome Y R
  unfolding to_ready_match change_state
  to_ready co now = to_ready_match co.state now co

  to_running_match : CoroutineState Y R → ℕ → Coroutine Y R → Coroutine Y R × Outcome Y R
  to_running_match running now co = (co, ok)
  to_running_match ready now co = enter co running on_running
  to_running_match (syscall y name executing) now co = enter co running on_running
  to_running_match (suspend y timestamp) now co =
      if leb timestamp now then enter co running on_running else refuse co running
  to_running_match (syscall y name callback) now co = (co, ok)
  to_running_match (syscall y name timeout) now co = (co, ok)
  to_running_match _ now co = refuse co running

  unfoldable pub to_running : Coroutine Y R → ℕ → Coroutine Y R × Outcome Y R
  unfolding to_running_match change_state
  to_running co now = to_running_match co.state now co

  -- `CoroutineState::Running == current`
  abbrev pub is_running : CoroutineState Y R → Bool
  is_running running = true
  is_running _ = false

  unfoldable pub to_suspend : Coroutine Y R → Y → ℕ → Coroutine Y R × Outcome Y R
  unfolding change_state
  to_suspend co val timestamp =
      if is_running co.state
      then enter co (suspend val timestamp) on_suspend
      else refuse co (suspend val timestamp)

  to_syscall_match :
      CoroutineState Y R
      → Y
      → SyscallName
      → SyscallState
      → Coroutine Y R
      → Coroutine Y R × Outcome Y R
  to_syscall_match running val name s co = enter co (syscall val name s) on_syscall
  to_syscall_match (syscall y original_syscall t) val name s co =
      if discriminant original_syscall == discriminant name
      then enter co (syscall val name s) on_syscall
      else refuse co (syscall val name s)
  to_syscall_match _ val name s co = refuse co (syscall val name s)

  unfoldable pub to_syscall :
      Coroutine Y R → Y → SyscallName → SyscallState → Coroutine Y R × Outcome Y R
  unfolding to_syscall_match change_state
  to_syscall co val name s = to_syscall_match co.state val name s co

  unfoldable pub to_cancel : Coroutine Y R → Coroutine Y R × Outcome Y R
  unfolding change_state
  to_cancel co = if is_running co.state then enter co cancelled on_cancel else refuse co cancelled

  unfoldable pub to_complete : Coroutine Y R → R → Coroutine Y R × Outcome Y R
  unfolding change_state
  to_complete co val =
      if is_running co.state
      then enter co (complete val) (λ old. on_complete old val)
      else refuse co (complete val)

  unfoldable pub to_error : Coroutine Y R → String → Coroutine Y R × Outcome Y R
  unfolding change_state
  to_error co msg =
      if is_running co.state
      then enter co (error msg) (λ old. on_error old msg)
      else refuse co (error msg)

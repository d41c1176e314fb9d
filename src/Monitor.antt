-- ===== src/Monitor.antt =====
-- core/src/monitor.rs, on Unix: the thread that sends SIGURG to threads whose coroutine runs for too
-- long. The set `notify_queue` is a list, in the order in which the loop comes by its nodes.
-- `installed` is whether the signal handler and the thread can be set up; `pthread` is the calling
-- thread.
mod Nodes
pub mod Changes
mod Tracking
pub mod Watching
mod Examples
use open_coroutine.Prelude.{
  ℕ, suc, Bool, true, false, Option, none, some, List, [], ◌∷◌, ◌&&◌, not, ltb, ◌==◌, if◌then◌else◌,
}
use open_coroutine.Time.{get_timeout_time}
use open_coroutine.Coroutine.State.{CoroutineState}

pub record NotifyNode : Type 0 where
  pub timestamp : ℕ
  pub pthread : ℕ

pub data MonitorState : Type 0 where
  created running stopping stopped : MonitorState

pub record Monitor : Type 0 where
  pub notify_queue : List NotifyNode
  pub state : MonitorState

-- The derived `==` of nodes, and `HashSet`'s methods.
abbrev pub same : NotifyNode → NotifyNode → Bool
same n m = n.timestamp == m.timestamp && n.pthread == m.pthread

unfoldable pub contains : NotifyNode → List NotifyNode → Bool
contains n [] = false
contains n (m ∷ q) = if same m n then true else contains n q

unfoldable pub insert_node : NotifyNode → List NotifyNode → List NotifyNode
unfolding contains
insert_node n q = if contains n q then q else n ∷ q

unfoldable pub remove_node : NotifyNode → List NotifyNode → List NotifyNode
remove_node n [] = []
remove_node n (m ∷ q) = let rest = remove_node n q in if same m n then rest else m ∷ rest

-- The monitor after the call, and whether it is `Ok`. The state changes before what can fail.
unfoldable pub start : Bool → Monitor → Monitor × Bool
start installed m = elim m.state [
  | created ↦ (record m { state = running }, installed)
  | running ↦ (m, true)
  | stopping ↦ (m, false)
  | stopped ↦ (m, false)
]

unfoldable pub stop : Monitor → Monitor
stop m = record m { state = stopping }

unfoldable pub submit : Bool → ℕ → ℕ → Monitor → Monitor × Option NotifyNode
unfolding start insert_node
submit installed timestamp pthread m =
    let (m', ok) = start installed m in
    let node : NotifyNode = record { timestamp = timestamp; pthread = pthread } in
    if ok
    then (record m' { notify_queue = insert_node node m'.notify_queue }, some node)
    else (m', none)

unfoldable pub remove : NotifyNode → Monitor → Monitor
unfolding remove_node
remove node m = record m { notify_queue = remove_node node m.notify_queue }

-- What `local.put` and `local.get` keep under NOTIFY_NODE.
abbrev put_if : Option NotifyNode → Option NotifyNode → Option NotifyNode
put_if none local = local
put_if (some node) local = some node

unfoldable pub remove_local : Option NotifyNode → Monitor → Monitor × Option NotifyNode
unfolding remove
remove_local none m = (m, none)
remove_local (some node) m = (remove node m, some node)

-- `MonitorListener`, on a thread that is not the monitor's, told at `now` of a coroutine's new state;
-- `local` is the coroutine's entry.
unfoldable pub on_state_changed :
    {Y R : Type 0}
    → Bool
    → ℕ
    → ℕ
    → CoroutineState Y R
    → Monitor
    → Option NotifyNode
    → Monitor × Option NotifyNode
unfolding submit remove_local
on_state_changed installed now pthread CoroutineState.ready m local = (m, local)
on_state_changed installed now pthread CoroutineState.running m local =
    let (m', node) = submit installed (get_timeout_time 10_000_000 now) pthread m in
    (m', put_if node local)
on_state_changed installed now pthread _ m local = remove_local local m

-- The `for` loop: the threads that are sent SIGURG, in order. `clock i` is the reading at the node `i`.
unfoldable pub sweep : (ℕ → ℕ) → ℕ → List NotifyNode → List ℕ
sweep clock i [] = []
sweep clock i (n ∷ q) =
    let rest = sweep clock (suc i) q in if ltb (clock i) n.timestamp then rest else n.pthread ∷ rest

abbrev is_running : MonitorState → Bool
is_running running = true
is_running _ = false

abbrev pub is_empty : List NotifyNode → Bool
is_empty [] = true
is_empty (n ∷ q) = false

-- A test of the `while` loop of `monitor_thread_main`, and what follows: a round with the threads that
-- it sends SIGURG, or the end, with the assertion on the state.
pub data Turn : Type 0 where
  round : List ℕ → Turn
  ends : Monitor → Turn
  panics : Turn

unfoldable pub monitor_turn : (ℕ → ℕ) → Monitor → Turn
unfolding sweep
monitor_turn clock m =
    if is_running m.state
    then round (sweep clock 0 m.notify_queue)
    else (if not (is_empty m.notify_queue)
        then round (sweep clock 0 m.notify_queue)
        else elim m.state [ stopping ↦ ends (record m { state = stopped }) | _ ↦ panics ])

-- Whether `sigurg_handler` suspends the coroutine of the thread; `co` is its state, if there is one.
abbrev is_preemptible : {Y R : Type 0} → Option (CoroutineState Y R) → Bool
is_preemptible none = true
is_preemptible (some CoroutineState.running) = true
is_preemptible (some _) = false

unfoldable pub sigurg_handler : {Y R : Type 0} → Option (CoroutineState Y R) → Bool → Bool
sigurg_handler co has_suspender = is_preemptible co && has_suspender

-- ===== src/System.antt =====
-- The server as a whole: the socket with its three threads, taskController as its listener, the pool
-- and its workers, in any interleaving of their steps.
pub mod Process
pub mod Desk
pub mod Refinement
pub mod Changes
pub mod Moves
pub mod Batches
pub mod Simulation
pub mod Ordered
pub mod Reception
pub mod Serving
pub mod Service
pub mod Runs
pub mod Answered
pub mod Startup
pub mod Leads
pub mod Finishing
pub mod Finished
pub mod Refined
pub mod Clients
pub mod InOrder
pub mod Stale
use epoll_model.Prelude.{
  ℕ, suc, ◌+◌, ◌≡◌, Bool, true, Option, none, some, List, [], ◌∷◌, ◌++◌, length, get_elem?, ltb,
  if◌then◌else◌, Outcome, ok, stuck, ◌>>=◌,
}
use epoll_model.Protocol.{Statics}
use epoll_model.Socket.{Socket, Call, Event, AcceptAnswers, send_event, listen_event}
use epoll_model.Socket.Receiving.{Received, recv_event}
use epoll_model.TaskController.{TaskData, Controller}
use epoll_model.TaskController.Interleaving.{listener}
use epoll_model.TaskController.Processing.{on_task_processor}
use epoll_model.ThreadPool
use epoll_model.ThreadPool.{ThreadPool, ThreadTask, adds, turn, pops, processes}

-- What the parts of the program share. A `threadTask` has this controller for its worker, and its
-- `m_param` points to the `taskData` of that place in `controller.added`; the first `handed` of these
-- have been given to threadPool::addTask.
pub record System : Type 0 where
  pub socket : Socket
  pub controller : Controller
  pub pool : ThreadPool
  pub statics : Statics
  pub handed : ℕ

-- The steps: of the receiving thread for an event, and its call of addTask for a task that it has
-- made; of a worker; of the sending and of the listening thread for an event.
pub data Move : Type 0 where
  receives : Event → Received → Move
  hands_over : (prompt : Bool) → Move
  works : (i : ℕ) → Move
  sends_for : Event → Move
  listens_for : Event → AcceptAnswers → Move

-- class threadTaskWorker: what a worker thread calls with `m_param` of its task, on the socket and the
-- static members of class protocol.
pub record ThreadTaskWorker : Type 0 where
  pub on_task_processor :
      Option Socket → Statics → Option TaskData → Outcome (Option Socket × Statics)

-- class taskController as such a worker.
abbrev pub task_worker : ThreadTaskWorker
task_worker = record { on_task_processor = on_task_processor }

-- The tasks that the pool's events process, each by its worker, which is the controller.
unfoldable pub process_all :
    List TaskData → Socket → Statics → List ThreadPool.Event → Outcome (Socket × Statics)
process_all added s p [] = ok (s, p)
process_all added s p (pops task ∷ es) = process_all added s p es
process_all added s p (processes task ∷ es) = do
  (o, p') ← task_worker.on_task_processor (some s) p (get_elem? added task.param)
  elim o [ none ↦ stuck | some s' ↦ process_all added s' p' es ]

abbrev pub task_at : ℕ → Option ThreadTask
task_at i = some (record { has_worker = true; param = i })

-- The call of addTask for the next of the tasks that were made. It follows the making of the task at
-- once; here other threads may come between. No other thread reads what makeNewTask changes, so that a
-- step of the receiving thread can make all its tasks first.
unfoldable pub give_task : System → Bool → System
give_task y prompt = record y {
  pool = (ThreadPool.act y.pool (adds (task_at y.handed) prompt)).0;
  handed = y.handed + 1;
}

-- A state and what happened on the way to it: the calls of the kernel, and the pool's events.
abbrev pub After : Type 0
After = System × List Call × List ThreadPool.Event

unfoldable pub move : System → Move → Outcome After
unfolding process_all give_task
move y (receives e r) = do
  c ← recv_event listener y.socket y.controller e r
  ok (record y { controller = c }, [], [])
move y (hands_over prompt) =
    if ltb y.handed (length y.controller.added)
    then ok (give_task y prompt, [], [])
    else ok (y, [], [])
move y (works i) = do
  let (pool, events) = ThreadPool.act y.pool (turn i)
  (s, p) ← process_all y.controller.added y.socket y.statics events
  ok (record y { socket = s; statics = p; pool = pool }, [], events)
move y (sends_for e) =
    let (s, calls) = send_event y.socket e in ok (record y { socket = s }, calls, [])
move y (listens_for e a) =
    let (s, calls) = listen_event a y.socket e in ok (record y { socket = s }, calls, [])

unfoldable pub run : System → List Move → Outcome After
unfolding move
run y [] = ok (y, [], [])
run y (m ∷ ms) = do
  (y', calls, events) ← move y m
  (y'', calls', events') ← run y' ms
  ok (y'', calls ++ calls', events ++ events')

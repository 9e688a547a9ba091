-- ===== src/ThreadPool.antt =====
-- server/threadPool/threadpool.h and server/threadPool/threadpool.cpp. A section of code between
-- `mtx.lock` and `mtx.unlock` is one step, since every other use of what it touches is in such a
-- section too, but for the threads' states, which the steps of a worker write one at a time.
pub mod Totals
pub mod Queue
pub mod Bounds
pub mod Races
pub mod Instance
pub mod Progress
pub mod Custody
pub mod Given
pub mod Slow
pub mod Draining
pub mod Numbers
use epoll_model.Prelude.{
  ℕ, zero, suc, ◌+◌, ◌-◌, ◌/◌, ◌%◌, ◌^◌, ◌≡◌, refl, Bool, true, false, ◌&&◌, Option, none, some,
  List, [], ◌∷◌, ◌++◌, length, get_elem?, ltb, leb, ◌==◌, if◌then◌else◌, ℤ, pos, minus_one, Outcome,
  ok, stuck,
}

abbrev pub u16 : ℕ → ℕ
u16 n = n % 2 ^ 16

abbrev pub thread_check_interval : ℕ
thread_check_interval = 10

abbrev pub thread_idle_time : ℕ
thread_idle_time = 30

abbrev pub max_check_times : ℕ
max_check_times = thread_idle_time / thread_check_interval + 1

-- class threadTask: whether `m_worker` is set, and the pointer `m_param`.
pub record ThreadTask : Type 0 where
  pub has_worker : Bool
  pub param : ℕ

-- Where a thread stands in threadfun.
pub data Pc : Type 0 where
  starting : Pc  -- before `*state = 1`
  counting : Pc  -- before `m_validThreadNums++`
  testing : Pc  -- the condition of the loop
  fetching : Pc  -- before the queue is looked at
  fetched : Option ThreadTask → Pc  -- the local `task` is set
  working : ThreadTask → Pc  -- `*state = 2` is done
  finishing : Pc  -- before `*state = 1`
  deciding : Pc  -- before `continue`, `break` or the wait
  waiting : Pc  -- in `wait_for`
  leaving : Pc  -- before `*state = 3`
  uncounting : Pc  -- before `m_validThreadNums--`
  gone : Pc

-- class wgThread: the state 0 to 3 of its comment, with the locals of its threadfun.
pub record WgThread : Type 0 where
  pub state : ℕ
  pub pc : Pc
  pub free_time : ℕ

-- class threadPool. A task of the queue can be a null pointer.
pub record ThreadPool : Type 0 where
  pub tp_state : Bool
  pub valid_thread_nums : ℕ
  pub tasks : List (Option ThreadTask)
  pub max_num : ℕ
  pub min_num : ℕ
  pub threads : List WgThread

-- What a step of a worker does that others can see.
pub data Event : Type 0 where
  pops : Option ThreadTask → Event
  processes : ThreadTask → Event

-- A thread just made. `prompt` says whether it has set its state when createNewThread goes on,
-- which waits for that, but for no longer than a second.
abbrev pub new_thread : Bool → WgThread
new_thread prompt =
    if prompt
    then record { state = 1; pc = counting; free_time = 0 }
    else record { state = 0; pc = starting; free_time = 0 }

pub replace : ℕ → WgThread → List WgThread → List WgThread
replace i t [] = []
replace zero t (x ∷ xs) = t ∷ xs
replace (suc i) t (x ∷ xs) = x ∷ replace i t xs

-- createNewThread: of a new object (`none`, NULL), or of the object `i`, whose old thread has been
-- joined or detached.
unfoldable pub create_new_thread : ThreadPool → Option ℕ → Bool → ThreadPool × ℤ
unfolding replace
create_new_thread p none prompt =
    (record p { threads = p.threads ++ new_thread prompt ∷ [] }, pos 0)
create_new_thread p (some i) prompt =
    (record p { threads = replace i (new_thread prompt) p.threads }, pos 0)

create_threads : ℕ → ThreadPool → Bool → ThreadPool
unfolding create_new_thread
create_threads zero p prompt = p
create_threads (suc n) p prompt = create_threads n (create_new_thread p none prompt).0 prompt

-- `unsigned short tsize = minNum - m_threads.size()`, for a minNum that is not negative.
abbrev pub lacking : ℕ → ℕ → ℕ
lacking min_num size = u16 (min_num + 2 ^ 16 - size % 2 ^ 16)

unfoldable pub init_task_pool : ThreadPool → ℕ → ℕ → Bool → ThreadPool × ℤ
unfolding create_threads
init_task_pool p max_num min_num prompt =
    let p' : ThreadPool = record p {
      tp_state = true;
      valid_thread_nums = 0;
      max_num = max_num;
      min_num = min_num;
    } in
    (create_threads (lacking min_num (length p.threads)) p' prompt, pos 0)

-- The loop of addTask: some thread has the state 1.
unfoldable pub has_idle : List WgThread → Bool
has_idle [] = false
has_idle (t ∷ ts) = if t.state == 1 then true else has_idle ts

unfoldable pub add_task : ThreadPool → Option ThreadTask → Bool → ThreadPool × ℤ
unfolding create_new_thread has_idle
add_task p task prompt =
    let p' : ThreadPool = record p { tasks = p.tasks ++ task ∷ [] } in
    if ltb p.valid_thread_nums p.max_num
    then (if has_idle p.threads then (p', pos 0) else ((create_new_thread p' none prompt).0, pos 0))
    else (p', pos 0)

unfoldable pub need_release_task_thread : ThreadPool → Bool
need_release_task_thread p = ltb p.min_num p.valid_thread_nums

-- The threads have left threadfun.
unfoldable pub all_gone : List WgThread → Bool
all_gone [] = true
all_gone (t ∷ ts) = elim t.pc [ gone ↦ all_gone ts | _ ↦ false ]

-- releaseTaskPool. `m_threads.clear()` joins the threads with `mtx` held: a thread that has not ended needs
-- `mtx` before it ends, so that the call does not return while there is one.
unfoldable pub release_task_pool : ThreadPool → Outcome (ThreadPool × ℤ)
unfolding all_gone
release_task_pool p =
    let released : ThreadPool = record p { tp_state = false; threads = [] } in
    if ltb 0 (length p.tasks)
    then ok (p, pos 1)
    else if p.tp_state
    then (if all_gone p.threads then ok (released, pos 2) else stuck)
    else ok (p, pos 0)

-- A worker's look at the queue.
fetch : ThreadPool → WgThread → List (Option ThreadTask) → ThreadPool × WgThread × List Event
fetch p t [] = (p, record t { pc = fetched none; free_time = u16 (t.free_time + 1) }, [])
fetch p t (task ∷ rest) =
    (record p { tasks = rest }, record t { pc = fetched task; free_time = 0 }, pops task ∷ [])

-- `continue`, `break`, or the wait.
decide : ThreadPool → WgThread → WgThread
unfolding need_release_task_thread
decide p t =
    if t.free_time == 0
    then record t { pc = testing }
    else if leb max_check_times t.free_time && need_release_task_thread p
    then record t { pc = leaving }
    else record t { pc = waiting }

-- The next step of a thread. A wait may end at any time.
unfoldable pub thread_step : Pc → ThreadPool → WgThread → ThreadPool × WgThread × List Event
unfolding fetch decide
thread_step starting p t = (p, record t { state = 1; pc = counting }, [])
thread_step counting p t =
    (record p { valid_thread_nums = u16 (p.valid_thread_nums + 1) }, record t { pc = testing }, [])
thread_step testing p t = (p, record t { pc = if p.tp_state then fetching else leaving }, [])
thread_step fetching p t = fetch p t p.tasks
thread_step (fetched none) p t = (p, record t { pc = finishing }, [])
thread_step (fetched (some task)) p t =
    if task.has_worker
    then (p, record t { state = 2; pc = working task }, [])
    else (p, record t { pc = finishing }, [])
thread_step (working task) p t = (p, record t { pc = finishing }, processes task ∷ [])
thread_step finishing p t = (p, record t { state = 1; pc = deciding }, [])
thread_step deciding p t = (p, decide p t, [])
thread_step waiting p t = (p, record t { pc = testing }, [])
thread_step leaving p t = (p, record t { state = 3; pc = uncounting }, [])
thread_step uncounting p t = (
  record p { valid_thread_nums = u16 (p.valid_thread_nums + 2 ^ 16 - 1) },
  record t { pc = gone },
  [],
)
thread_step gone p t = (p, record t { pc = gone }, [])

-- What the program and its threads do, in the order of the sections under `mtx`.
pub data Action : Type 0 where
  adds : Option ThreadTask → (prompt : Bool) → Action
  turn : (i : ℕ) → Action

unfoldable pub act : ThreadPool → Action → ThreadPool × List Event
unfolding add_task thread_step replace
act p (adds task prompt) = ((add_task p task prompt).0, [])
act p (turn i) = elim (get_elem? p.threads i) [
  | none ↦ (p, [])
  | some t ↦
      let p' = (thread_step t.pc p t).0 in
      let t' = (thread_step t.pc p t).1 in
      (record p' { threads = replace i t' p'.threads }, (thread_step t.pc p t).2)
]

unfoldable pub run : ThreadPool → List Action → ThreadPool × List Event
unfolding act
run p [] = (p, [])
run p (a ∷ as') = let r = run (act p a).0 as' in (r.0, (act p a).1 ++ r.1)

-- The pool before initTaskPool.
abbrev pub fresh : ThreadPool
fresh = record {
  tp_state = false;
  valid_thread_nums = 0;
  tasks = [];
  max_num = 0;
  min_num = 0;
  threads = [];
}

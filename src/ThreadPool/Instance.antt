-- ===== src/ThreadPool/Instance.antt =====
-- The one pool of the program: threadPool::getInstance and delInstance, and what the constructor and
-- the destructor of taskController do with it.
use epoll_model.Prelude.{
  ◌≡◌, refl, Bool, true, false, if◌then◌else◌, Outcome, ok, stuck, Option, none, some, [], ◌∷◌,
  length,
}
use epoll_model.ThreadPool.{
  new_thread, create_new_thread, ThreadPool, create_threads, init_task_pool, fresh, all_gone,
}

-- `m_instance` after the call, which is what is returned. `m_tpState` and the counters of a new pool
-- are unset; initTaskPool sets them before their first use.
unfoldable pub get_instance : Option ThreadPool → ThreadPool
get_instance none = fresh
get_instance (some p) = p

-- `m_instance` after the call. The destructor of the pool joins its threads, with `mtx` held: as in
-- releaseTaskPool the call does not return while one has not ended.
unfoldable pub del_instance : Option ThreadPool → Outcome (Option ThreadPool)
unfolding all_gone
del_instance none = ok none
del_instance (some p) = if all_gone p.threads then ok none else stuck

-- The constructor of taskController: `initTaskPool(8,2)` on the instance.
unfoldable pub task_controller : Option ThreadPool → (prompt : Bool) → ThreadPool
unfolding get_instance
task_controller o prompt = (init_task_pool (get_instance o) 8 2 prompt).0

-- The destructor: delInstance, and the end of the log.
unfoldable pub end_controller : Option ThreadPool → Outcome (Option ThreadPool)
unfolding del_instance
end_controller o = del_instance o

-- It does not return for the pool that the constructor has just made.
pub end_controller-stuck :
    (prompt : Bool) → end_controller (some (task_controller none prompt)) ≡ stuck
unfolding end_controller del_instance all_gone task_controller get_instance init_task_pool
    create_threads create_new_thread
end_controller-stuck true = refl
end_controller-stuck false = refl

-- The pool of the first one: two new threads and no task.
pub task_controller-fresh :
    (prompt : Bool)
    → ((task_controller none prompt).tasks ≡ [])
      × ((task_controller none prompt).threads ≡ new_thread prompt ∷ new_thread prompt ∷ [])
unfolding task_controller get_instance init_task_pool create_threads create_new_thread
task_controller-fresh prompt = (refl, refl)

-- A second taskController on the pool of the first, which has its two threads: the threads go on, but
-- m_validThreadNums, which counts them, is back to 0.
pub task_controller_again :
    (p : ThreadPool) (prompt : Bool)
    → length p.threads ≡ 2
    → let q = task_controller (some p) prompt in
      (q.threads ≡ p.threads) × (q.valid_thread_nums ≡ 0) × (q.tasks ≡ p.tasks)
unfolding task_controller get_instance init_task_pool create_threads
task_controller_again p prompt two = rw two (refl, refl, refl)

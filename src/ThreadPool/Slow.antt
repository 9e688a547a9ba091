-- ===== src/ThreadPool/Slow.antt =====
-- Threads that set their state too late.
use epoll_model.Prelude.{
  ◌+◌, ◌<◌, ◌≡◌, refl, ap, false, Bool-cases, inl, inr, Option, List, [], ◌∷◌, ◌++◌, map, length,
  lt→ltb, ◌==◌, arith,
}
use epoll_model.ThreadPool.{
  ThreadPool, ThreadTask, WgThread, adds, new_thread, create_new_thread, add_task, has_idle, act,
  run,
}
use epoll_model.ThreadPool.Totals.{total, total-snoc}
use epoll_model.ThreadPool.Bounds.{live}

has_idle-late :
    (ts : List WgThread) → has_idle ts ≡ false → has_idle (ts ++ new_thread false ∷ []) ≡ false
unfolding has_idle
has_idle-late [] h = refl
has_idle-late (t ∷ ts) h = elim (Bool-cases (t.state == 1)) [
  | inl idle ↦ ground arith
  | inr busy ↦ rw busy (has_idle-late ts (rw busy at h))
]

abbrev with_late_thread : ThreadPool → Option ThreadTask → ThreadPool
with_late_thread p task = record p {
  tasks = p.tasks ++ task ∷ [];
  threads = p.threads ++ new_thread false ∷ [];
}

add_task-late :
    (p : ThreadPool) (task : Option ThreadTask)
    → p.valid_thread_nums < p.max_num
    → has_idle p.threads ≡ false
    → (add_task p task false).0 ≡ with_late_thread p task
unfolding add_task create_new_thread
add_task-late p task room busy = rw (lt→ltb p.valid_thread_nums p.max_num room, busy) refl

-- While m_validThreadNums is below m_maxNum and no thread shows the state 1, each task that is added
-- makes a new thread if the new threads do not set their state within the second that createNewThread
-- waits for them: no number is the limit, since the threads that are not counted yet are not compared with
-- m_maxNum.
pub run_above_max :
    (tasks : List (Option ThreadTask)) (p : ThreadPool)
    → p.valid_thread_nums < p.max_num
    → has_idle p.threads ≡ false
    → total live (run p (map (λ task. adds task false) tasks)).0.threads
      ≡ total live p.threads + length tasks
unfolding run act
run_above_max [] p room busy = omega arith
run_above_max (task ∷ tasks) p room busy =
    let q = with_late_thread p task in
    let as' = map (λ task. adds task false) tasks in
    let first =
      ap (λ (r : ThreadPool). total live (run r as').0.threads) (add_task-late p task room busy) in
    omega (
      arith,
      first,
      run_above_max tasks q room (has_idle-late p.threads busy),
      total-snoc live p.threads (new_thread false),
    )

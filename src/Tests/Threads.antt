-- ===== src/Tests/Threads.antt =====
-- server/threadPool/threadpool.cpp at concrete inputs.
use epoll_model.Prelude.{
  ℕ, ◌+◌, ◌≤◌, ◌≡◌, refl, true, Option, some, List, [], ◌∷◌, ◌++◌, length, arith,
}
use epoll_model.ThreadPool.{
  ThreadTask, testing, deciding, ThreadPool, init_task_pool, add_task, need_release_task_thread,
  thread_step, Action, adds, turn, act, run, fresh,
}
use epoll_model.ThreadPool.Totals.{total}
use epoll_model.ThreadPool.Queue.{added, popped, run_fifo}
use epoll_model.ThreadPool.Bounds.{live, counted, run_bounds}
use epoll_model.Prelude.{map, false}
use epoll_model.ThreadPool.{finishing, has_idle}
use epoll_model.ThreadPool.Slow.{run_above_max}
use epoll_model.ThreadPool.Progress.{run-takes}
use epoll_model.ThreadPool.{WgThread}
use epoll_model.ThreadPool.Races.Stranded.{decisions, run-strands}
use epoll_model.ThreadPool.Races.{IsIdleLong, run_below_min}

abbrev task : ℕ → Option ThreadTask
task k = some (record { has_worker = true; param = k })

-- Two threads that have started, and no task.
abbrev two_threads : ThreadPool
two_threads = record {
  tp_state = true;
  valid_thread_nums = 2;
  tasks = [];
  max_num = 8;
  min_num = 1;
  threads =
      record { state = 1; pc = deciding; free_time = 4 }
      ∷ record { state = 1; pc = deciding; free_time = 5 }
      ∷ [];
}

-- Two tasks, of which the first thread takes one and comes to the point of processing it.
abbrev actions : List Action
actions = adds (task 7) true ∷ adds (task 8) true ∷ turn 0 ∷ turn 0 ∷ turn 0 ∷ turn 0 ∷ []

test_run :
    let p = (run two_threads actions).0 in
    (p.tasks ≡ task 7 ∷ task 8 ∷ []) × (p.valid_thread_nums ≡ 1) × (length p.threads ≡ 2)
unfolding run act add_task thread_step need_release_task_thread
test_run = (refl, refl, refl)

run_fifo_example :
    let r = run (init_task_pool fresh 8 2 true).0 actions in
    (init_task_pool fresh 8 2 true).0.tasks ++ added actions ≡ popped r.1 ++ r.0.tasks
run_fifo_example = run_fifo (init_task_pool fresh 8 2 true).0 actions

run_bounds_example :
    let p = (run (init_task_pool fresh 8 2 true).0 actions).0 in
    (total live p.threads ≤ 8) × (p.valid_thread_nums ≡ total counted p.threads)
run_bounds_example = run_bounds 8 2 actions (omega arith) (omega arith) (refl, (refl, tt))

run_below_min_example :
    (run two_threads (turn 0 ∷ turn 1 ∷ turn 0 ∷ turn 0 ∷ turn 1 ∷ turn 1 ∷ [])).0.valid_thread_nums
      + 1
    ≡ 1
run_below_min_example =
    run_below_min two_threads 0 1 (record { state = 1; pc = deciding; free_time = 4 })
      (record { state = 1; pc = deciding; free_time = 5 }) (λ e. omega arith) refl refl
      (record { at_decision = refl; long = omega arith })
      (record { at_decision = refl; long = omega arith }) refl (omega arith) (omega arith)

-- The second thread of two, while the first adds nothing and takes turns in between.
abbrev busy : ThreadPool
busy = record two_threads {
  tasks = task 7 ∷ task 8 ∷ [];
  threads =
      record { state = 1; pc = deciding; free_time = 4 }
      ∷ record { state = 1; pc = testing; free_time = 0 }
      ∷ [];
}

-- 16 turns of it, with other things between them.
abbrev turns : List Action
turns =
    turn 0
    ∷ turn 1
    ∷ turn 1
    ∷ turn 0
    ∷ adds (task 9) true
    ∷ turn 1
    ∷ turn 1
    ∷ turn 1
    ∷ turn 1
    ∷ turn 1
    ∷ turn 1
    ∷ turn 0
    ∷ turn 1
    ∷ turn 1
    ∷ turn 1
    ∷ turn 1
    ∷ turn 1
    ∷ turn 1
    ∷ turn 1
    ∷ turn 1
    ∷ []

run-takes_example :
    (later : List (Option ThreadTask)) × (popped (run busy turns).1
      ≡ (task 7 ∷ task 8 ∷ []) ++ later)
run-takes_example =
    run-takes turns 1 busy (record { state = 1; pc = testing; free_time = 0 }) refl
      (record { looping = refl; recent = omega arith }) refl (omega arith)

-- Both threads work, and only one more is allowed; three tasks make three threads.
abbrev working_threads : ThreadPool
working_threads = record two_threads {
  max_num = 3;
  threads =
      record { state = 2; pc = finishing; free_time = 0 }
      ∷ record { state = 2; pc = finishing; free_time = 0 }
      ∷ [];
}

run_above_max_example :
    total live
      (run working_threads
        (map (λ task. adds task false) (task 1 ∷ task 2 ∷ task 3 ∷ []))).0.threads
    ≡ 5
unfolding total
run_above_max_example =
    run_above_max (task 1 ∷ task 2 ∷ task 3 ∷ []) working_threads (omega arith)
      (unfold has_idle in refl)

-- The pool of the program, with three threads that have been idle for long, and a task that comes in when
-- they have decided.
abbrev idle_thread : WgThread
idle_thread = record { state = 1; pc = deciding; free_time = 4 }

abbrev idle_three : ThreadPool
idle_three = record {
  tp_state = true;
  valid_thread_nums = 3;
  tasks = [];
  max_num = 8;
  min_num = 2;
  threads = idle_thread ∷ idle_thread ∷ idle_thread ∷ [];
}

run-strands_example :
    let r =
      run idle_three
        (decisions 0 3 ++ adds (task 7) true ∷ turn 0 ∷ turn 1 ∷ turn 0 ∷ turn 2 ∷ turn 0 ∷ []) in
    (r.1 ≡ []) × (r.0.tasks ≡ task 7 ∷ [])
run-strands_example =
    let long : IsIdleLong idle_thread = record { at_decision = refl; long = omega arith } in
    run-strands idle_three (task 7) true (turn 0 ∷ turn 1 ∷ turn 0 ∷ turn 2 ∷ turn 0 ∷ [])
      (omega arith) (long, (long, (long, tt))) (refl, (refl, (refl, tt))) (omega arith) tt

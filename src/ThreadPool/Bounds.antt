-- ===== src/ThreadPool/Bounds.antt =====
-- The counter m_validThreadNums, and how many threads there can be.
use epoll_model.Prelude.{
  ℕ, zero, suc, ◌+◌, ◌^◌, ◌≤◌, ◌<◌, ◌≡◌, refl, ◌∙◌, true, false, inl, inr, Option, none, some,
  Option-cases, List, [], ◌∷◌, ◌++◌, get_elem?, arith,
}
use epoll_model.ThreadPool.{
  ThreadPool, ThreadTask, WgThread, Pc, starting, counting, fetching, fetched, deciding, uncounting,
  gone, Action, adds, turn, new_thread, create_new_thread, lacking, create_threads, init_task_pool,
  add_task, has_idle, fetch, thread_step, replace, act, run, fresh,
}
use epoll_model.ThreadPool.Totals.{
  total, le-total, total-replace, total-snoc, AllThreads, AllThreads-replace, AllThreads-get,
  AllThreads-snoc,
}
use epoll_model.ThreadPool.Queue.{step-threads}

-- Whether the thread has raised the counter and not yet lowered it, and whether it has not ended.
abbrev pub counted_at : Pc → ℕ
counted_at starting = 0
counted_at counting = 0
counted_at gone = 0
counted_at _ = 1

abbrev pub counted : WgThread → ℕ
counted t = counted_at t.pc

abbrev pub live_at : Pc → ℕ
live_at gone = 0
live_at _ = 1

abbrev pub live : WgThread → ℕ
live t = live_at t.pc

-- A thread that has not raised the counter has set its state.
abbrev pub IsShown : WgThread → Type 0
IsShown t = counted t < live t → t.state ≡ 1

-- What holds while every new thread sets its state in time.
pub record IsBounded (n : ℕ) (p : ThreadPool) : Type 0 where
  pub fixed : p.max_num ≡ n
  pub counter : p.valid_thread_nums ≡ total counted p.threads
  pub limit : total live p.threads ≤ p.max_num
  pub small : p.max_num < 2 ^ 16
  pub shown : AllThreads IsShown p.threads

counted-le-live : (ts : List WgThread) → total counted ts ≤ total live ts
unfolding total
counted-le-live [] = omega arith
counted-le-live (t ∷ ts) = omega (arith, counted-le-live ts, le t.pc)
  where
    le : (pc : Pc) → counted_at pc ≤ live_at pc
    le pc = ground arith

-- With no thread that is idle, all that live are counted.
busy_counted :
    (ts : List WgThread)
    → has_idle ts ≡ false
    → AllThreads IsShown ts
    → total live ts ≤ total counted ts
unfolding total has_idle
busy_counted [] h a = omega arith
busy_counted (t ∷ ts) h a = ground (arith, busy_counted ts)

add_task-IsBounded :
    (n : ℕ) (p : ThreadPool) (task : Option ThreadTask)
    → IsBounded n p
    → IsBounded n (add_task p task true).0
unfolding add_task
add_task-IsBounded n p task b = ground (
  arith,
  total-snoc counted p.threads (new_thread true),
  total-snoc live p.threads (new_thread true),
  busy_counted p.threads,
  AllThreads-snoc IsShown p.threads (new_thread true),
)

-- What a step of one thread does to the counter and to the two numbers of that thread.
record Moves (p : ThreadPool) (pc : Pc) (t : WgThread) : Type 0 where
  max_kept : (thread_step pc p t).0.max_num ≡ p.max_num
  live_falls : live (thread_step pc p t).1 ≤ live_at pc
  counter_moves :
      (p.valid_thread_nums + counted (thread_step pc p t).1 < 2 ^ 16 + counted_at pc)
      → counted_at pc ≤ p.valid_thread_nums
      → (thread_step pc p t).0.valid_thread_nums + counted_at pc
        ≡ p.valid_thread_nums + counted (thread_step pc p t).1
  stays_shown : (counted_at pc < live_at pc → t.state ≡ 1) → IsShown (thread_step pc p t).1

fetch-Moves :
    (p : ThreadPool) (t : WgThread) (tasks : List (Option ThreadTask))
    → ((fetch p t tasks).0.max_num ≡ p.max_num)
      × ((fetch p t tasks).0.valid_thread_nums ≡ p.valid_thread_nums)
      × (counted (fetch p t tasks).1 ≡ 1)
      × (live (fetch p t tasks).1 ≡ 1)
unfolding fetch
fetch-Moves p t [] = (refl, refl, refl, refl)
fetch-Moves p t (task ∷ rest) = (refl, refl, refl, refl)

step-Moves : (pc : Pc) (p : ThreadPool) (t : WgThread) → Moves p pc t
unfolding thread_step
step-Moves fetching p t = ground (arith, fetch-Moves p t p.tasks)
step-Moves (fetched none) p t = ground arith
step-Moves (fetched (some task)) p t = ground arith
step-Moves deciding p t = ground arith
step-Moves starting p t = ground arith
step-Moves counting p t = ground arith
step-Moves uncounting p t = ground arith
step-Moves pc p t = ground arith

-- A turn of any thread keeps the bounds.
turn-IsBounded : (n : ℕ) (p : ThreadPool) (i : ℕ) → IsBounded n p → IsBounded n (act p (turn i)).0
unfolding act
turn-IsBounded n p i b = elim (Option-cases (get_elem? p.threads i)) [
  | inl e ↦ rw (e, act) b
  | inr (t, e) ↦ rw (e, act) (turned t e)
]
  where
    turned :
        (t : WgThread)
        → get_elem? p.threads i ≡ some t
        → let r = thread_step t.pc p t in
          IsBounded n (record r.0 { threads = replace i r.1 r.0.threads })
    turned t e =
        let r = thread_step t.pc p t in
        let m = step-Moves t.pc p t in
        let same = step-threads t.pc p t in
        let fewer = total-replace live i p.threads t r.1 e in
        let moved = total-replace counted i p.threads t r.1 e in
        let below = counted-le-live (replace i r.1 p.threads) in
        let falls = m.live_falls in
        let own = le-total counted i p.threads t e in
        let counter' = m.counter_moves (omega arith) (omega arith) in
        record {
          fixed = m.max_kept ∙ b.fixed;
          counter = rw same (omega arith);
          limit = rw (same, m.max_kept) (omega arith);
          small = rw m.max_kept b.small;
          shown = rw same (
              AllThreads-replace IsShown i p.threads r.1 b.shown
                (m.stays_shown (AllThreads-get IsShown i p.threads b.shown e)));
        }

-- Every new thread sets its state before createNewThread goes on.
abbrev pub AllPrompt : List Action → Type 0
AllPrompt [] = Unit {0}
AllPrompt (adds task prompt ∷ as') = (prompt ≡ true) × AllPrompt as'
AllPrompt (turn i ∷ as') = AllPrompt as'

run-IsBounded :
    (n : ℕ) (p : ThreadPool) (as' : List Action)
    → AllPrompt as'
    → IsBounded n p
    → IsBounded n (run p as').0
unfolding run
run-IsBounded n p [] h b = b
run-IsBounded n p (turn i ∷ as') h b =
    run-IsBounded n (act p (turn i)).0 as' h (turn-IsBounded n p i b)
run-IsBounded n p (adds task true ∷ as') h b =
    run-IsBounded n (act p (adds task true)).0 as' h.1 (unfold act in add_task-IsBounded n p task b)
run-IsBounded n p (adds task false ∷ as') h b = absurd (cc (h.0))

create_threads-IsBounded :
    (k n : ℕ) (p : ThreadPool)
    → p.max_num ≡ n
    → p.valid_thread_nums ≡ 0
    → total counted p.threads ≡ 0
    → total live p.threads + k ≤ p.max_num
    → p.max_num < 2 ^ 16
    → AllThreads IsShown p.threads
    → IsBounded n (create_threads k p true)
unfolding create_threads create_new_thread
create_threads-IsBounded zero n p f z c l m a = record {
  fixed = f;
  counter = omega arith;
  limit = omega arith;
  small = m;
  shown = a;
}
create_threads-IsBounded (suc k) n p f z c l m a =
    create_threads-IsBounded k n (record p { threads = p.threads ++ new_thread true ∷ [] }) f z
      (omega (arith, total-snoc counted p.threads (new_thread true)))
      (omega (arith, total-snoc live p.threads (new_thread true))) m
      (AllThreads-snoc IsShown p.threads (new_thread true) a (λ h. refl))

init-IsBounded :
    (max_num min_num : ℕ)
    → min_num ≤ max_num
    → max_num < 2 ^ 16
    → IsBounded max_num (init_task_pool fresh max_num min_num true).0
unfolding init_task_pool total
init-IsBounded max_num min_num h m =
    let e : lacking min_num 0 ≡ min_num = omega arith in
    rw e (create_threads-IsBounded min_num max_num _ refl refl refl (omega arith) m tt)

-- Started with `min_num` threads, no more than `max_num`, which is below 2^16, and as long as every
-- new thread sets its state within the second that createNewThread waits for it, the pool never has
-- more than `max_num` threads that have not ended, and m_validThreadNums is exactly the number of
-- those that have raised it and not lowered it, whatever the order of added tasks and of the
-- threads' steps.
pub run_bounds :
    (max_num min_num : ℕ) (as' : List Action)
    → min_num ≤ max_num
    → max_num < 2 ^ 16
    → AllPrompt as'
    → let p = (run (init_task_pool fresh max_num min_num true).0 as').0 in
      (total live p.threads ≤ max_num) × (p.valid_thread_nums ≡ total counted p.threads)
run_bounds max_num min_num as' h m a =
    let b = run-IsBounded max_num _ as' a (init-IsBounded max_num min_num h m) in
    (omega (arith, b.limit, b.fixed), b.counter)

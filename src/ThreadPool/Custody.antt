-- ===== src/ThreadPool/Custody.antt =====
-- Where the tasks are: in the queue, in the hands of a worker, or processed.
use epoll_model.Prelude.{
  ℕ, ◌+◌, ◌≡◌, refl, ap, Bool, true, false, Option, none, some, List, [], ◌∷◌, ◌++◌, arith,
}
use epoll_model.ThreadPool.{
  ThreadPool, ThreadTask, WgThread, Pc, fetched, working, Event, pops, processes, Action, adds, act,
}
use epoll_model.ThreadPool.Totals.{total}
use epoll_model.ThreadPool.Queue.{
  added, popped, act-queue, hit, times_popped, times_processed, in_hands, act-counts,
}

-- No task is in the hands of a thread.
abbrev pub has_task : Pc → Bool
has_task (fetched (some task)) = true
has_task (working task) = true
has_task _ = false

abbrev pub IsFree : WgThread → Type 0
IsFree t = has_task t.pc ≡ false

-- How often tasks with the parameter `k` stand in the queue, or in the pool.
abbrev pub waiting_for : ℕ → List (Option ThreadTask) → ℕ
waiting_for k [] = 0
waiting_for k (none ∷ tasks) = waiting_for k tasks
waiting_for k (some task ∷ tasks) = hit k task + waiting_for k tasks

abbrev pub held : ℕ → ThreadPool → ℕ
held k p = waiting_for k p.tasks + total (in_hands k) p.threads

waiting_for-append :
    (k : ℕ) (xs ys : List (Option ThreadTask))
    → waiting_for k (xs ++ ys) ≡ waiting_for k xs + waiting_for k ys
waiting_for-append k [] ys = omega arith
waiting_for-append k (none ∷ xs) ys = waiting_for-append k xs ys
waiting_for-append k (some task ∷ xs) ys = omega (arith, waiting_for-append k xs ys)

times_popped-waiting_for : (k : ℕ) (es : List Event) → times_popped k es ≡ waiting_for k (popped es)
times_popped-waiting_for k [] = refl
times_popped-waiting_for k (pops none ∷ es) = times_popped-waiting_for k es
times_popped-waiting_for k (pops (some task) ∷ es) =
    ap (◌+◌ (hit k task)) (times_popped-waiting_for k es)
times_popped-waiting_for k (processes task ∷ es) = times_popped-waiting_for k es

-- No step loses a task or makes one.
pub act-held :
    (k : ℕ) (p : ThreadPool) (a : Action)
    → times_processed k (act p a).1 + held k (act p a).0 ≡ held k p + waiting_for k (added (a ∷ []))
act-held k p a =
    let e = ap (waiting_for k) (act-queue p a) in
    omega (
      arith,
      act-counts k p a,
      e,
      times_popped-waiting_for k (act p a).1,
      waiting_for-append k p.tasks (added (a ∷ [])),
      waiting_for-append k (popped (act p a).1) (act p a).0.tasks,
    )

pub add-held :
    (k : ℕ) (p : ThreadPool) (task : ThreadTask) (prompt : Bool)
    → held k (act p (adds (some task) prompt)).0 ≡ held k p + hit k task
unfolding act
add-held k p task prompt = omega (arith, act-held k p (adds (some task) prompt))

-- ===== src/ThreadPool/Queue.antt =====
-- The queue of tasks is first in, first out, and each task taken is processed once.
use epoll_model.Prelude.{
  ℕ, ◌+◌, ◌≡◌, refl, sym, ap, ◌∙◌, Bool, true, false, inl, inr, Option, none, some, Option-cases,
  List, [], ◌∷◌, ◌++◌, append_assoc, append-nil, get_elem?, ◌==◌, if◌then◌else◌, arith,
}
use epoll_model.ThreadPool.{
  ThreadPool, ThreadTask, WgThread, Pc, starting, testing, fetching, fetched, working, deciding,
  Event, pops, processes, Action, adds, turn, add_task, fetch, thread_step, new_thread, act, run,
}
use epoll_model.ThreadPool.Totals.{total, total-replace, total-snoc}

-- The tasks given to addTask, and those that workers took from the queue.
abbrev pub added : List Action → List (Option ThreadTask)
added [] = []
added (adds task prompt ∷ as') = task ∷ added as'
added (turn i ∷ as') = added as'

abbrev pub popped : List Event → List (Option ThreadTask)
popped [] = []
popped (pops task ∷ es) = task ∷ popped es
popped (processes task ∷ es) = popped es

pub popped-append : (es fs : List Event) → popped (es ++ fs) ≡ popped es ++ popped fs
popped-append [] fs = refl
popped-append (pops task ∷ es) fs = ap (◌∷◌ task) (popped-append es fs)
popped-append (processes task ∷ es) fs = popped-append es fs

pub add_task-tasks :
    (p : ThreadPool) (task : Option ThreadTask) (prompt : Bool)
    → (add_task p task prompt).0.tasks ≡ p.tasks ++ task ∷ []
unfolding add_task
add_task-tasks p task prompt = ground arith

fetch-queue :
    (p : ThreadPool) (t : WgThread) (tasks : List (Option ThreadTask))
    → p.tasks ≡ tasks
    → tasks ≡ popped (fetch p t tasks).2 ++ (fetch p t tasks).0.tasks
unfolding fetch
fetch-queue p t [] e = sym e
fetch-queue p t (task ∷ rest) e = refl

pub step-queue :
    (pc : Pc) (p : ThreadPool) (t : WgThread)
    → p.tasks ≡ popped (thread_step pc p t).2 ++ (thread_step pc p t).0.tasks
unfolding thread_step
step-queue fetching p t = fetch-queue p t p.tasks refl
step-queue (fetched none) p t = refl
step-queue (fetched (some task)) p t = ground arith
step-queue starting p t = refl
step-queue pc p t = refl

pub act-queue :
    (p : ThreadPool) (a : Action)
    → p.tasks ++ added (a ∷ []) ≡ popped (act p a).1 ++ (act p a).0.tasks
unfolding act
act-queue p (adds task prompt) = sym (add_task-tasks p task prompt)
act-queue p (turn i) = append-nil p.tasks ∙ turned (get_elem? p.threads i) refl
  where
    turned :
        (o : Option WgThread)
        → get_elem? p.threads i ≡ o
        → p.tasks ≡ popped (act p (turn i)).1 ++ (act p (turn i)).0.tasks
    turned none e = rw (e, act) refl
    turned (some t) e = rw (e, act) (step-queue t.pc p t)

-- In every interleaving the tasks leave the queue in the order in which they were added: what stood
-- in it and what was added is what the workers took, followed by what still stands in it.
pub run_fifo :
    (p : ThreadPool) (as' : List Action)
    → p.tasks ++ added as' ≡ popped (run p as').1 ++ (run p as').0.tasks
unfolding run
run_fifo p [] = append-nil p.tasks
run_fifo p (a ∷ as') =
    let q = (act p a).0 in
    let first = (act p a).1 in
    let rest = (run q as').1 in
    let end = (run q as').0.tasks in
    ap (◌++◌ p.tasks) (added_cons a as')
    ∙ sym (append_assoc p.tasks (added (a ∷ [])) (added as'))
    ∙ ap (λ (l : List (Option ThreadTask)). l ++ added as') (act-queue p a)
    ∙ append_assoc (popped first) q.tasks (added as')
    ∙ ap (◌++◌ (popped first)) (run_fifo q as')
    ∙ sym (append_assoc (popped first) (popped rest) end)
    ∙ ap (λ (l : List (Option ThreadTask)). l ++ end) (sym (popped-append first rest))
  where
    added_cons : (a : Action) (as' : List Action) → added (a ∷ as') ≡ added (a ∷ []) ++ added as'
    added_cons (adds task prompt) as' = refl
    added_cons (turn i) as' = refl

-- How often a task with a worker and the parameter `k` stands in a place.
abbrev pub hit : ℕ → ThreadTask → ℕ
hit k task = if task.has_worker then (if task.param == k then 1 else 0) else 0

abbrev pub times_popped : ℕ → List Event → ℕ
times_popped k [] = 0
times_popped k (pops none ∷ es) = times_popped k es
times_popped k (pops (some task) ∷ es) = hit k task + times_popped k es
times_popped k (processes task ∷ es) = times_popped k es

abbrev pub times_processed : ℕ → List Event → ℕ
times_processed k [] = 0
times_processed k (pops task ∷ es) = times_processed k es
times_processed k (processes task ∷ es) = hit k task + times_processed k es

-- The task that a thread has taken and not yet processed. A task without worker is never processed.
abbrev pub in_hand : ℕ → Pc → ℕ
in_hand k (fetched (some task)) = hit k task
in_hand k (working task) = hit k task
in_hand k _ = 0

abbrev pub in_hands : ℕ → WgThread → ℕ
in_hands k t = in_hand k t.pc

fetch-counts :
    (k : ℕ) (p : ThreadPool) (t : WgThread) (tasks : List (Option ThreadTask))
    → let r = fetch p t tasks in times_processed k r.2 + in_hand k r.1.pc ≡ times_popped k r.2 + 0
unfolding fetch
fetch-counts k p t [] = refl
fetch-counts k p t (none ∷ rest) = refl
fetch-counts k p t (some task ∷ rest) = omega arith

fetch-threads :
    (p : ThreadPool) (t : WgThread) (tasks : List (Option ThreadTask))
    → (fetch p t tasks).0.threads ≡ p.threads
unfolding fetch
fetch-threads p t [] = refl
fetch-threads p t (task ∷ rest) = refl

step-counts :
    (k : ℕ) (pc : Pc) (p : ThreadPool) (t : WgThread)
    → let r = thread_step pc p t in
      times_processed k r.2 + in_hand k r.1.pc ≡ times_popped k r.2 + in_hand k pc
unfolding thread_step
step-counts k fetching p t = fetch-counts k p t p.tasks
step-counts k (fetched none) p t = refl
step-counts k (fetched (some task)) p t = ground arith
step-counts k (working task) p t = ground arith
step-counts k deciding p t = ground arith
step-counts k testing p t = ground arith
step-counts k pc p t = refl

pub step-threads :
    (pc : Pc) (p : ThreadPool) (t : WgThread) → (thread_step pc p t).0.threads ≡ p.threads
unfolding thread_step
step-threads fetching p t = fetch-threads p t p.tasks
step-threads (fetched none) p t = refl
step-threads (fetched (some task)) p t = ground arith
step-threads pc p t = refl

add_task-in_hands :
    (k : ℕ) (p : ThreadPool) (task : Option ThreadTask) (prompt : Bool)
    → total (in_hands k) (add_task p task prompt).0.threads ≡ total (in_hands k) p.threads
unfolding add_task
add_task-in_hands k p task true =
    ground (arith, total-snoc (in_hands k) p.threads (new_thread true))
add_task-in_hands k p task false =
    ground (arith, total-snoc (in_hands k) p.threads (new_thread false))

pub act-counts :
    (k : ℕ) (p : ThreadPool) (a : Action)
    → times_processed k (act p a).1 + total (in_hands k) (act p a).0.threads
      ≡ times_popped k (act p a).1 + total (in_hands k) p.threads
unfolding act
act-counts k p (adds task prompt) = ap (◌+◌ 0) (add_task-in_hands k p task prompt)
act-counts k p (turn i) = elim (Option-cases (get_elem? p.threads i)) [
  | inl e ↦ rw (e, act) refl
  | inr (t, e) ↦
      let r = thread_step t.pc p t in
      rw (e, act)
        (rw (step-threads t.pc p t)
          (omega (arith, step-counts k t.pc p t, total-replace (in_hands k) i p.threads t r.1 e)))
]

pub times-append :
    (k : ℕ) (es fs : List Event)
    → (times_processed k (es ++ fs) ≡ times_processed k es + times_processed k fs)
      × (times_popped k (es ++ fs) ≡ times_popped k es + times_popped k fs)
times-append k [] fs = omega arith
times-append k (pops none ∷ es) fs = omega (arith, times-append k es fs)
times-append k (pops (some task) ∷ es) fs = omega (arith, times-append k es fs)
times-append k (processes task ∷ es) fs = omega (arith, times-append k es fs)

-- In every interleaving, tasks are processed neither twice nor without having been taken: as often
-- as tasks with the parameter `k` were taken, counting those in a worker's hands before, they were
-- processed or are in a worker's hands. A task without a worker object counts nowhere.
pub run_counts :
    (k : ℕ) (p : ThreadPool) (as' : List Action)
    → times_processed k (run p as').1 + total (in_hands k) (run p as').0.threads
      ≡ times_popped k (run p as').1 + total (in_hands k) p.threads
unfolding run
run_counts k p [] = refl
run_counts k p (a ∷ as') = omega (
  arith,
  act-counts k p a,
  run_counts k (act p a).0 as',
  times-append k (act p a).1 (run (act p a).0 as').1,
)

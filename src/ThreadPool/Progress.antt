-- ===== src/ThreadPool/Progress.antt =====
-- A worker that gets its turns takes the tasks that wait, whatever the others do.
use epoll_model.Prelude.{
  ℕ, zero, suc, ◌+◌, ◌-◌, ◌*◌, ◌≤◌, ◌<◌, ◌≡◌, ◌≢◌, refl, ap, ◌∙◌, Bool, true, false, Bool-cases,
  inl, inr, Option, none, some, Option-cases, List, [], ◌∷◌, ◌++◌, length, length-append, get_elem?,
  ◌==◌, if◌then◌else◌, arith,
}
use epoll_model.ThreadPool.{
  ThreadPool, ThreadTask, WgThread, Pc, starting, counting, testing, fetching, fetched, working,
  finishing, deciding, waiting, leaving, uncounting, gone, Event, Action, adds, turn, new_thread,
  add_task, fetch, decide, thread_step, replace, act, run, max_check_times,
}
use epoll_model.ThreadPool.Queue.{added, popped, popped-append, step-queue, step-threads, run_fifo}
use epoll_model.ThreadPool.Races.{get-replace_self, get-replace_ne}

-- How many turns of its own a thread needs at most until it has looked at the queue.
abbrev pub rank : Pc → ℕ
rank starting = 4
rank counting = 3
rank testing = 2
rank fetching = 1
rank (fetched none) = 6
rank (fetched (some task)) = 7
rank (working task) = 6
rank finishing = 5
rank deciding = 4
rank waiting = 3
rank leaving = 0
rank uncounting = 0
rank gone = 0

-- The thread is in its loop or on the way there, and has not been idle for long.
abbrev pub in_loop : Pc → Bool
in_loop leaving = false
in_loop uncounting = false
in_loop gone = false
in_loop _ = true

pub record IsActive (t : WgThread) : Type 0 where
  pub looping : in_loop t.pc ≡ true
  pub recent : t.free_time < max_check_times

abbrev pub turns_of : ℕ → List Action → ℕ
turns_of i [] = 0
turns_of i (adds task prompt ∷ as') = turns_of i as'
turns_of i (turn j ∷ as') = (if j == i then 1 else 0) + turns_of i as'

-- A step of an active thread, while something waits: it comes nearer to its next look, or takes one.
pub record Advances (t : WgThread) (p : ThreadPool) (r : ThreadPool × WgThread × List Event)
    : Type 0 where
  pub active : IsActive r.1
  pub open_pool : r.0.tp_state ≡ true
  pub few : length (popped r.2) ≤ 1
  pub nearer : rank r.1.pc + 1 ≤ rank t.pc + 7 * length (popped r.2)

fetch-Advances :
    (p : ThreadPool) (t : WgThread) (tasks : List (Option ThreadTask))
    → t.pc ≡ fetching
    → p.tp_state ≡ true
    → 0 < length tasks
    → Advances t p (fetch p t tasks)
unfolding fetch
fetch-Advances p t [] e o h = absurd (omega arith)
fetch-Advances p t (none ∷ rest) e o h = ground arith
fetch-Advances p t (some task ∷ rest) e o h = ground arith

pub step-Advances :
    (pc : Pc) (p : ThreadPool) (t : WgThread)
    → t.pc ≡ pc
    → IsActive t
    → p.tp_state ≡ true
    → 0 < length p.tasks
    → Advances t p (thread_step pc p t)
unfolding thread_step decide
step-Advances fetching p t e a o h = fetch-Advances p t p.tasks e o h
step-Advances (fetched none) p t e a o h = ground arith
step-Advances (fetched (some task)) p t e a o h = ground arith
step-Advances deciding p t e a o h = ground arith
step-Advances testing p t e a o h = ground arith
step-Advances pc p t e a o h = ground arith

step-tp_state :
    (pc : Pc) (p : ThreadPool) (t : WgThread) → (thread_step pc p t).0.tp_state ≡ p.tp_state
unfolding thread_step fetch
step-tp_state fetching p t = go p.tasks
  where
    go : (tasks : List (Option ThreadTask)) → (fetch p t tasks).0.tp_state ≡ p.tp_state
    go [] = refl
    go (task ∷ rest) = refl
step-tp_state (fetched none) p t = refl
step-tp_state (fetched (some task)) p t = ground arith
step-tp_state pc p t = refl

get-snoc :
    (i : ℕ) (ts : List WgThread) (t u : WgThread)
    → get_elem? ts i ≡ some t
    → get_elem? (ts ++ u ∷ []) i ≡ some t
get-snoc i [] t u e = cc
get-snoc zero (x ∷ ts) t u e = e
get-snoc (suc i) (x ∷ ts) t u e = get-snoc i ts t u e

pub add_task-keeps :
    (p : ThreadPool) (task : Option ThreadTask) (prompt : Bool) (i : ℕ) (t : WgThread)
    → get_elem? p.threads i ≡ some t
    → (get_elem? (add_task p task prompt).0.threads i ≡ some t)
      × ((add_task p task prompt).0.tp_state ≡ p.tp_state)
      × (length (add_task p task prompt).0.tasks ≡ length p.tasks + 1)
unfolding add_task
add_task-keeps p task prompt i t e =
    ground (arith, get-snoc i p.threads t (new_thread prompt) e, length-append p.tasks (task ∷ []))

-- The turn of a thread, where it is known: the state after it and its events.
pub turn_of :
    (p : ThreadPool) (i : ℕ) (t : WgThread)
    → get_elem? p.threads i ≡ some t
    → act p (turn i)
      ≡ (let r = thread_step t.pc p t in (record r.0 { threads = replace i r.1 r.0.threads }, r.2))
unfolding act
turn_of p i t e = rw (e, act) refl

count-append :
    (es fs : List Event) → length (popped (es ++ fs)) ≡ length (popped es) + length (popped fs)
count-append es fs = ap length (popped-append es fs) ∙ length-append (popped es) (popped fs)

-- Of the tasks in the queue, those that a step does not take are still there.
pub step_count :
    (pc : Pc) (p : ThreadPool) (t : WgThread)
    → length p.tasks ≡ length (popped (thread_step pc p t).2) + length (thread_step pc p t).0.tasks
step_count pc p t =
    ap length (step-queue pc p t)
    ∙ length-append (popped (thread_step pc p t).2) (thread_step pc p t).0.tasks

progress :
    (as' : List Action) (i m : ℕ) (p : ThreadPool) (t : WgThread)
    → get_elem? p.threads i ≡ some t
    → IsActive t
    → p.tp_state ≡ true
    → m ≤ length p.tasks
    → 7 * m + rank t.pc ≤ turns_of i as'
    → m ≤ length (popped (run p as').1)
unfolding run
progress as' i zero p t e a o h k = omega arith
progress [] i (suc m) p t e a o h k = absurd (omega arith)
progress (adds task prompt ∷ as') i (suc m) p t e a o h k =
    let (e', o', l) = add_task-keeps p task prompt i t e in
    progress as' i (suc m) (add_task p task prompt).0 t e' a (o' ∙ o) (omega arith) k
progress (turn j ∷ as') i (suc m) p t e a o h k = elim (Bool-cases (j == i)) [
  | inl mine ↦
      let q : i ≡ j = ground arith in
      let r = thread_step t.pc p t in
      let v = step-Advances t.pc p t refl a o (omega arith) in
      let e' : get_elem? (replace i r.1 r.0.threads) i ≡ some r.1 =
        get-replace_self i r.0.threads r.1 t (rw (step-threads t.pc p t) e) in
      let c = step_count t.pc p t in
      let k' : 7 * suc m + rank t.pc ≤ 1 + turns_of i as' = rw mine at k in
      let p' : ThreadPool = record r.0 { threads = replace i r.1 r.0.threads } in
      let ih =
        progress as' i (suc m - length (popped r.2)) p' r.1 e' v.active v.open_pool (omega arith)
          (omega (arith, v.nearer, v.few)) in
      rw (← q, turn_of p i t e) (omega (arith, count-append r.2 (run p' as').1))
  | inr other ↦
      let ne : j ≢ i = ground arith in
      let k' : 7 * suc m + rank t.pc ≤ turns_of i as' = ground arith in
      elim (Option-cases (get_elem? p.threads j)) [
        | inl gone_by ↦ rw (gone_by, act) (progress as' i (suc m) p t e a o h k')
        | inr (u, eu) ↦
            let r = thread_step u.pc p u in
            let e' : get_elem? (replace j r.1 r.0.threads) i ≡ some t =
              get-replace_ne j i r.0.threads r.1 ne ∙ rw (step-threads u.pc p u) e in
            let c = step_count u.pc p u in
            let p' : ThreadPool = record r.0 { threads = replace j r.1 r.0.threads } in
            let ih =
              progress as' i (suc m - length (popped r.2)) p' t e' a (step-tp_state u.pc p u ∙ o)
                (omega arith) (omega arith) in
            rw (turn_of p j u eu) (omega (arith, count-append r.2 (run p' as').1))
      ]
]

-- Of two ways to split one list, the shorter front is a front of the longer.
prefix_of :
    (xs ys us vs : List (Option ThreadTask))
    → xs ++ ys ≡ us ++ vs
    → length xs ≤ length us
    → (later : List (Option ThreadTask)) × (us ≡ xs ++ later)
prefix_of [] ys us vs e h = (us, refl)
prefix_of (x ∷ xs) ys [] vs e h = absurd (omega arith)
prefix_of (x ∷ xs) ys (u ∷ us) vs e h =
    let head : u ≡ x = cc in
    let rest : xs ++ ys ≡ us ++ vs = cc in
    let (later, q) = prefix_of xs ys us vs rest (omega arith) in (later, rw (head, q) refl)

-- In a pool that is not released, with a thread that is in its loop and was not idle for long, as often as
-- the queue may ask for: in every schedule that gives this thread seven turns for each task that waits, and
-- at most seven to come round, all these tasks are taken, first and in their order, whatever tasks are added
-- and whatever turns the other threads get in between.
pub run-takes :
    (as' : List Action) (i : ℕ) (p : ThreadPool) (t : WgThread)
    → get_elem? p.threads i ≡ some t
    → IsActive t
    → p.tp_state ≡ true
    → 7 * length p.tasks + rank t.pc ≤ turns_of i as'
    → (later : List (Option ThreadTask)) × (popped (run p as').1 ≡ p.tasks ++ later)
run-takes as' i p t e a o k =
    prefix_of p.tasks (added as') (popped (run p as').1) (run p as').0.tasks (run_fifo p as')
      (progress as' i (length p.tasks) p t e a o (omega arith) k)

-- ===== src/ThreadPool/Draining.antt =====
-- Turns of the workers that bring the pool to rest, while nothing is added.
use epoll_model.Prelude.{
  ℕ, zero, suc, ◌+◌, ◌*◌, ◌≤◌, ◌<◌, ◌≡◌, refl, ◌∙◌, Bool, true, Option, none, some, inl, inr, ◌⊎◌,
  false, List, [], ◌∷◌, length, get_elem?, arith,
}
use epoll_model.ThreadPool.{
  ThreadPool, ThreadTask, WgThread, Pc, fetched, working, adds, turn, thread_step, replace, act,
}
use epoll_model.ThreadPool.Totals.{total, total-replace, AllThreads}
use epoll_model.ThreadPool.Queue.{step-threads}
use epoll_model.ThreadPool.Custody.{has_task, IsFree}
use epoll_model.ThreadPool.Races.{get-replace_self}
use epoll_model.ThreadPool.Progress.{
  rank, IsActive, add_task-keeps, turn_of, step_count, step-Advances,
}

-- Thread `i` is in its loop and was not idle for long, in a pool that is not released.
pub record IsAlive (i : ℕ) (p : ThreadPool) : Type 0 where
  pub thread : WgThread
  pub there : get_elem? p.threads i ≡ some thread
  pub active : IsActive thread
  pub open_pool : p.tp_state ≡ true

-- How many of its turns it needs at most until the queue is empty.
abbrev pub turns_left : {i : ℕ} {p : ThreadPool} → IsAlive i p → ℕ
turns_left {i} {p} a = 7 * length p.tasks + rank a.thread.pc

pub add-IsAlive :
    (i : ℕ) (p : ThreadPool) (task : Option ThreadTask) (prompt : Bool)
    → IsAlive i p
    → IsAlive i (act p (adds task prompt)).0
unfolding act
add-IsAlive i p task prompt a =
    let (there, state, _) = add_task-keeps p task prompt i a.thread a.there in
    record { thread = a.thread; there = there; active = a.active; open_pool = state ∙ a.open_pool }

-- A turn of the thread while something waits.
pub turn-IsAlive :
    (i : ℕ) (p : ThreadPool) (a : IsAlive i p)
    → 0 < length p.tasks
    → (b : IsAlive i (act p (turn i)).0) × (turns_left b < turns_left a)
turn-IsAlive i p a h =
    let t = a.thread in
    let r = thread_step t.pc p t in
    let v = step-Advances t.pc p t refl a.active a.open_pool h in
    let there : get_elem? (replace i r.1 r.0.threads) i ≡ some r.1 =
      get-replace_self i r.0.threads r.1 t (rw (step-threads t.pc p t) a.there) in
    rw (turn_of p i t a.there) (
      record { thread = r.1; there = there; active = v.active; open_pool = v.open_pool },
      omega (arith, v.nearer, step_count t.pc p t),
    )

-- How many turns a thread needs until it has no task in its hands.
abbrev pub burden_of : Pc → ℕ
burden_of (fetched (some task)) = 2
burden_of (working task) = 1
burden_of _ = 0

abbrev pub burden : WgThread → ℕ
burden t = burden_of t.pc

-- A turn of a thread that has a task in its hands leaves the queue as it is.
step-burden :
    (pc : Pc) (p : ThreadPool) (t : WgThread)
    → 0 < burden_of pc
    → ((thread_step pc p t).0.tasks ≡ p.tasks) × (burden (thread_step pc p t).1 + 1 ≤ burden_of pc)
unfolding thread_step
step-burden (fetched none) p t h = absurd (omega arith)
step-burden (fetched (some task)) p t h = ground arith
step-burden (working task) p t h = (refl, omega arith)
step-burden _ p t h = absurd (omega arith)

find_burden :
    (ts : List WgThread)
    → 0 < total burden ts
    → (i : ℕ) × (t : WgThread) × (get_elem? ts i ≡ some t) × (0 < burden t)
unfolding total
find_burden [] h = absurd (omega arith)
find_burden (t ∷ ts) h = elim (zero_or_positive (burden t)) [
  | inl none_here ↦ let (i, u, e, k) = find_burden ts (omega arith) in (suc i, u, e, k)
  | inr here ↦ (0, t, refl, here)
]
  where
    zero_or_positive : (n : ℕ) → (n ≡ 0) ⊎ (0 < n)
    zero_or_positive zero = inl refl
    zero_or_positive (suc n) = inr (omega arith)

-- Some thread can put down its task.
pub turn-burden :
    (p : ThreadPool)
    → 0 < total burden p.threads
    → (i : ℕ) × ((act p (turn i)).0.tasks ≡ p.tasks)
      × (total burden (act p (turn i)).0.threads < total burden p.threads)
turn-burden p h =
    let (i, t, e, k) = find_burden p.threads h in
    let r = thread_step t.pc p t in
    let (same, less) = step-burden t.pc p t k in
    let sum = total-replace burden i p.threads t r.1 e in
    let q = step-threads t.pc p t in
    let both : ((act p (turn i)).0.tasks ≡ p.tasks)
        × (total burden (act p (turn i)).0.threads < total burden p.threads) =
      rw (turn_of p i t e, q) (same, omega (arith, sum, less)) in
    (i, both.0, both.1)

-- Where no thread has a task.
pub no_burden : (ts : List WgThread) → total burden ts ≡ 0 → AllThreads IsFree ts
unfolding total
no_burden [] h = tt
no_burden (t ∷ ts) h = (free_of t.pc (omega arith), no_burden ts (omega arith))
  where
    free_of : (pc : Pc) → burden_of pc ≡ 0 → has_task pc ≡ false
    free_of (fetched (some task)) e = absurd (omega arith)
    free_of (fetched none) e = refl
    free_of (working task) e = absurd (omega arith)
    free_of _ e = refl

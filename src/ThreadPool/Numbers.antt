-- ===== src/ThreadPool/Numbers.antt =====
-- The tasks of the pool by their numbers: where they are, and what becomes of them.
use epoll_model.Prelude.{
  ℕ, zero, suc, ◌≡◌, refl, sym, ap, ◌∙◌, Bool, true, false, inl, inr, Bool-cases, Option, none,
  some, Option-cases, List, [], ◌∷◌, ◌++◌, append_assoc, get_elem?, ltb, if◌then◌else◌, arith,
}
use mathlib.Core.Path.{subst}
use epoll_model.ThreadPool.Progress.{turn_of}
use epoll_model.Prelude.Multisets.{count, count-append}
use epoll_model.ThreadPool.{
  ThreadPool, ThreadTask, WgThread, Pc, testing, fetching, fetched, working, deciding, Event, pops,
  processes, adds, turn, new_thread, add_task, has_idle, fetch, decide, thread_step, replace, act,
}
use epoll_model.ThreadPool.Totals.{total, AllThreads-get}
use epoll_model.ThreadPool.Queue.{
  hit, in_hand, in_hands, times_processed, step-threads, add_task-tasks,
}
use epoll_model.ThreadPool.Custody.{waiting_for}
use epoll_model.ThreadPool.Races.{get-replace_self}
use epoll_model.ThreadPool.Given.{PoolGiven, HandGiven, InHand, EventsGiven}

-- The numbers of the tasks that wait in the queue, and of those that the threads have in their hands.
abbrev pub number : ThreadTask → List ℕ
number task = if task.has_worker then task.param ∷ [] else []

abbrev pub queue_numbers : List (Option ThreadTask) → List ℕ
queue_numbers [] = []
queue_numbers (none ∷ tasks) = queue_numbers tasks
queue_numbers (some task ∷ tasks) = number task ++ queue_numbers tasks

abbrev pub hand_number : Pc → List ℕ
hand_number (fetched (some task)) = number task
hand_number (working task) = number task
hand_number _ = []

abbrev pub hand_numbers : List WgThread → List ℕ
hand_numbers [] = []
hand_numbers (t ∷ ts) = hand_number t.pc ++ hand_numbers ts

-- The numbers of the tasks that were processed.
abbrev pub done : List Event → List ℕ
done [] = []
done (pops task ∷ es) = done es
done (processes task ∷ es) = task.param ∷ done es

count-number : (j : ℕ) (task : ThreadTask) → count j (number task) ≡ hit j task
count-number j task = ground arith

pub count-queue :
    (j : ℕ) (tasks : List (Option ThreadTask)) → count j (queue_numbers tasks) ≡ waiting_for j tasks
count-queue j [] = refl
count-queue j (none ∷ tasks) = count-queue j tasks
count-queue j (some task ∷ tasks) = omega (
  arith,
  count-append j (number task) (queue_numbers tasks),
  count-number j task,
  count-queue j tasks,
)

count-hand : (j : ℕ) (pc : Pc) → count j (hand_number pc) ≡ in_hand j pc
count-hand j (fetched (some task)) = count-number j task
count-hand j (fetched none) = refl
count-hand j (working task) = count-number j task
count-hand j _ = refl

pub count-hands : (j : ℕ) (ts : List WgThread) → count j (hand_numbers ts) ≡ total (in_hands j) ts
unfolding total
count-hands j [] = refl
count-hands j (t ∷ ts) = omega (
  arith,
  count-append j (hand_number t.pc) (hand_numbers ts),
  count-hand j t.pc,
  count-hands j ts,
)

pub count-done :
    (j n : ℕ) (es : List Event) → EventsGiven n es → count j (done es) ≡ times_processed j es
count-done j n [] g = refl
count-done j n (pops task ∷ es) g = count-done j n es g
count-done j n (processes task ∷ es) g = let w = g.0.worker in rw (w, count-done j n es g.1) refl

-- What thread `i` has in its hands.
abbrev pub hand_at : ℕ → ThreadPool → List ℕ
hand_at i p = elim (get_elem? p.threads i) [ none ↦ [] | some t ↦ hand_number t.pc ]

pub done-append : (es fs : List Event) → done (es ++ fs) ≡ done es ++ done fs
done-append [] fs = refl
done-append (pops task ∷ es) fs = done-append es fs
done-append (processes task ∷ es) fs = ap (◌∷◌ task.param) (done-append es fs)

pub queue_numbers-snoc :
    (tasks : List (Option ThreadTask)) (n : ℕ)
    → queue_numbers (tasks ++ some (record { has_worker = true; param = n }) ∷ [])
      ≡ queue_numbers tasks ++ n ∷ []
queue_numbers-snoc [] n = refl
queue_numbers-snoc (none ∷ tasks) n = queue_numbers-snoc tasks n
queue_numbers-snoc (some task ∷ tasks) n =
    ap (◌++◌ (number task)) (queue_numbers-snoc tasks n)
    ∙ sym (append_assoc (number task) (queue_numbers tasks) (n ∷ []))

fetch_line :
    (p : ThreadPool) (t : WgThread) (tasks : List (Option ThreadTask))
    → p.tasks ≡ tasks
    → let r = fetch p t tasks in
      done r.2 ++ (hand_number r.1.pc ++ queue_numbers r.0.tasks) ≡ queue_numbers tasks
unfolding fetch
fetch_line p t [] e = ap queue_numbers e
fetch_line p t (none ∷ rest) e = refl
fetch_line p t (some task ∷ rest) e = refl

step_line :
    (pc : Pc) (n : ℕ) (p : ThreadPool) (t : WgThread)
    → InHand n pc
    → let r = thread_step pc p t in
      done r.2 ++ (hand_number r.1.pc ++ queue_numbers r.0.tasks)
      ≡ hand_number pc ++ queue_numbers p.tasks
unfolding thread_step decide
step_line fetching n p t g = fetch_line p t p.tasks refl
step_line (fetched none) n p t g = refl
step_line (fetched (some task)) n p t g = rw g.worker refl
step_line (working task) n p t g = rw g.worker refl
step_line deciding n p t g = ground arith
step_line testing n p t g = ground arith
step_line _ n p t g = refl

pub hand_at-there :
    (i : ℕ) (p : ThreadPool) (t : WgThread)
    → get_elem? p.threads i ≡ some t
    → hand_at i p ≡ hand_number t.pc
hand_at-there i p t e = rw (hand_at, e) refl

-- A turn of thread `i`: what it processed, what it has in its hands then and what waits then are what it
-- had in its hands and what waited.
pub turn_line :
    (i n : ℕ) (p : ThreadPool)
    → PoolGiven n p
    → let r = act p (turn i) in
      done r.1 ++ (hand_at i r.0 ++ queue_numbers r.0.tasks) ≡ hand_at i p ++ queue_numbers p.tasks
unfolding act
turn_line i n p g = elim (Option-cases (get_elem? p.threads i)) [
  | inl e ↦
      let same : act p (turn i) ≡ (p, []) = rw (e, act) refl in
      subst
        (λ (r : ThreadPool × List Event).
          done r.1 ++ (hand_at i r.0 ++ queue_numbers r.0.tasks)
          ≡ hand_at i p ++ queue_numbers p.tasks)
        (sym same) refl
  | inr (t, e) ↦
      let r = thread_step t.pc p t in
      let there : get_elem? (replace i r.1 r.0.threads) i ≡ some r.1 =
        get-replace_self i r.0.threads r.1 t (rw (step-threads t.pc p t) e) in
      let known = AllThreads-get (HandGiven n) i p.threads g.hands e in
      subst
        (λ (r : ThreadPool × List Event).
          done r.1 ++ (hand_at i r.0 ++ queue_numbers r.0.tasks)
          ≡ hand_at i p ++ queue_numbers p.tasks)
        (sym (turn_of p i t e))
        (rw
          (
            hand_at-there i (record r.0 { threads = replace i r.1 r.0.threads }) r.1 there,
            hand_at-there i p t e,
          )
          (step_line t.pc n p t known))
]

get-new_thread :
    (i : ℕ) (ts : List WgThread) (prompt : Bool)
    → elim (get_elem? (ts ++ new_thread prompt ∷ []) i) as (λ x. List ℕ) [
      | none ↦ []
      | some t ↦ hand_number t.pc
    ]
      ≡ elim (get_elem? ts i) as (λ x. List ℕ) [ none ↦ [] | some t ↦ hand_number t.pc ]
get-new_thread zero [] true = refl
get-new_thread zero [] false = refl
get-new_thread (suc i) [] prompt = refl
get-new_thread zero (t ∷ ts) prompt = refl
get-new_thread (suc i) (t ∷ ts) prompt = get-new_thread i ts prompt

add-hand_at :
    (i : ℕ) (p : ThreadPool) (task : Option ThreadTask) (prompt : Bool)
    → hand_at i (add_task p task prompt).0 ≡ hand_at i p
unfolding add_task
add-hand_at i p task prompt = elim (Bool-cases (ltb p.valid_thread_nums p.max_num)) [
  | inl few ↦ rw few (elim (Bool-cases (has_idle p.threads)) [
    | inl free ↦ rw free refl
    | inr busy ↦ rw busy (get-new_thread i p.threads prompt)
  ])
  | inr many ↦ rw many refl
]

-- A task that is added waits last, and no thread gets another into its hands.
pub add_line :
    (i n : ℕ) (p : ThreadPool) (prompt : Bool)
    → let q = (act p (adds (some (record { has_worker = true; param = n })) prompt)).0 in
      (hand_at i q ≡ hand_at i p) × (queue_numbers q.tasks ≡ queue_numbers p.tasks ++ n ∷ [])
unfolding act
add_line i n p prompt =
    let task : ThreadTask = record { has_worker = true; param = n } in
    (
      add-hand_at i p (some task) prompt,
      ap queue_numbers (add_task-tasks p (some task) prompt) ∙ queue_numbers-snoc p.tasks n,
    )

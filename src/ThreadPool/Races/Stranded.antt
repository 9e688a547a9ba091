-- ===== src/ThreadPool/Races/Stranded.antt =====
-- A task that no thread is left for.
use epoll_model.Prelude.{
  ℕ, zero, suc, ◌+◌, ◌<◌, ◌≡◌, refl, ap, ◌∙◌, Bool, true, false, Bool-cases, inl, inr, Option, some,
  Option-cases, List, [], ◌∷◌, ◌++◌, append_assoc, map, length, length-append, get_elem?, ltb,
  arith,
}
use epoll_model.ThreadPool.{
  ThreadPool, ThreadTask, WgThread, Pc, leaving, uncounting, gone, Event, Action, adds, turn,
  add_task, has_idle, thread_step, replace, act, run,
}
use epoll_model.ThreadPool.Totals.{AllThreads, AllThreads-replace, AllThreads-get}
use epoll_model.ThreadPool.Races.{IsIdleLong, decided}

-- The threads decide, one after the other, from thread `first` on.
abbrev pub decisions : (first n : ℕ) → List Action
decisions first zero = []
decisions first (suc n) = turn first ∷ decisions (first + 1) n

abbrev to_leave : WgThread → WgThread
to_leave t = record t { pc = leaving }

get-middle : {A : Type 0} (xs ys : List A) (y : A) → get_elem? (xs ++ y ∷ ys) (length xs) ≡ some y
get-middle [] ys y = refl
get-middle (x ∷ xs) ys y = get-middle xs ys y

replace-middle :
    (xs ys : List WgThread) (y z : WgThread) → replace (length xs) z (xs ++ y ∷ ys) ≡ xs ++ z ∷ ys
unfolding replace
replace-middle [] ys y z = refl
replace-middle (x ∷ xs) ys y z = ap (◌∷◌ x) (replace-middle xs ys y z)

-- The decision of a thread that was idle long enough shows no event.
decides :
    (p : ThreadPool) (ts us : List WgThread) (t : WgThread)
    → IsIdleLong t
    → p.min_num < p.valid_thread_nums
    → act (record p { threads = ts ++ t ∷ us }) (turn (length ts))
      ≡ (record p { threads = ts ++ to_leave t ∷ us }, [])
unfolding act thread_step
decides p ts us t h over =
    let q : ThreadPool = record p { threads = ts ++ t ∷ us } in
    let left : act q (turn (length ts))
        ≡ (record p { threads = replace (length ts) (to_leave t) (ts ++ t ∷ us) }, []) =
      rw (get-middle ts us t, act, h.at_decision, decided q t h.long over) refl in
    left
    ∙ ap {B = ThreadPool × List Event} (λ (x : List WgThread). (record p { threads = x }, []))
        (replace-middle ts us t (to_leave t))

all_decide :
    (p : ThreadPool) (ts us : List WgThread)
    → AllThreads IsIdleLong us
    → p.min_num < p.valid_thread_nums
    → (rest : List Action)
    → run (record p { threads = ts ++ us }) (decisions (length ts) (length us) ++ rest)
      ≡ run (record p { threads = ts ++ map to_leave us }) rest
unfolding run
all_decide p ts [] h over rest = refl
all_decide p ts (t ∷ us) h over rest =
    let n = length-append ts (to_leave t ∷ []) in
    let one = append_assoc ts (to_leave t ∷ []) us in
    let all = append_assoc ts (to_leave t ∷ []) (map to_leave us) in
    let ih = all_decide p (ts ++ to_leave t ∷ []) us h.1 over rest in
    rw (decides p ts us t h.0 over) (rw (n, one, all) at ih)

-- Past its loop: it takes nothing any more.
abbrev pub is_past : Pc → Bool
is_past leaving = true
is_past uncounting = true
is_past gone = true
is_past _ = false

abbrev IsPast : WgThread → Type 0
IsPast t = is_past t.pc ≡ true

step-IsPast :
    (pc : Pc) (p : ThreadPool) (t : WgThread)
    → is_past pc ≡ true
    → (is_past (thread_step pc p t).1.pc ≡ true)
      × ((thread_step pc p t).2 ≡ [])
      × ((thread_step pc p t).0.tasks ≡ p.tasks)
      × ((thread_step pc p t).0.threads ≡ p.threads)
unfolding thread_step
step-IsPast leaving p t h = (refl, refl, refl, refl)
step-IsPast uncounting p t h = (refl, refl, refl, refl)
step-IsPast gone p t h = (refl, refl, refl, refl)
step-IsPast _ p t h = absurd (cc h)

-- The turns of threads that are past their loops.
turn-IsPast :
    (p : ThreadPool) (i : ℕ)
    → AllThreads IsPast p.threads
    → AllThreads IsPast (act p (turn i)).0.threads
      × ((act p (turn i)).1 ≡ [])
      × ((act p (turn i)).0.tasks ≡ p.tasks)
unfolding act
turn-IsPast p i a = elim (Option-cases (get_elem? p.threads i)) [
  | inl e ↦ rw (e, act) (a, refl, refl)
  | inr (t, e) ↦
      let (past, quiet, tasks, threads) =
        step-IsPast t.pc p t (AllThreads-get IsPast i p.threads a e) in
      rw (e, act)
        (
          AllThreads-replace IsPast i (thread_step t.pc p t).0.threads (thread_step t.pc p t).1
              (rw threads a) past,
          quiet,
          tasks,
        )
]

-- Turns only: nothing is added.
abbrev pub OnlyTurns : List Action → Type 0
OnlyTurns [] = Unit {0}
OnlyTurns (adds task prompt ∷ as') = ⊥
OnlyTurns (turn i ∷ as') = OnlyTurns as'

nothing_taken :
    (as' : List Action) (p : ThreadPool)
    → AllThreads IsPast p.threads
    → OnlyTurns as'
    → ((run p as').1 ≡ []) × ((run p as').0.tasks ≡ p.tasks)
unfolding run
nothing_taken [] p a o = (refl, refl)
nothing_taken (adds task prompt ∷ as') p a o = absurd o
nothing_taken (turn i ∷ as') p a o =
    let (past, quiet, tasks) = turn-IsPast p i a in
    let (later, same) = nothing_taken as' (act p (turn i)).0 past o in
    (rw (quiet, later) refl, same ∙ tasks)

map-IsPast : (ts : List WgThread) → AllThreads IsPast (map to_leave ts)
map-IsPast [] = tt
map-IsPast (t ∷ ts) = (refl, map-IsPast ts)

-- A thread of the state 1, the one that `addTask` looks for.
abbrev pub ShowsIdle : WgThread → Type 0
ShowsIdle t = t.state ≡ 1

add-no_thread :
    (p : ThreadPool) (task : Option ThreadTask) (prompt : Bool)
    → has_idle p.threads ≡ true
    → (add_task p task prompt).0 ≡ record p { tasks = p.tasks ++ task ∷ [] }
unfolding add_task
add-no_thread p task prompt h = elim (Bool-cases (ltb p.valid_thread_nums p.max_num)) [
  | inl few ↦ rw (few, h) refl
  | inr many ↦ rw many refl
]

idle_there :
    (ts : List WgThread)
    → 0 < length ts
    → AllThreads ShowsIdle ts
    → has_idle (map to_leave ts) ≡ true
unfolding has_idle
idle_there [] h a = absurd (omega arith)
idle_there (t ∷ ts) h a = rw a.0 refl

-- Each thread of the pool has been idle long enough and shows the state 1, and more threads are counted
-- than the least number: if all of them decide before one of them leaves, a task that is added then makes
-- no new thread, since those that leave still show the state 1. In every schedule of turns from there on,
-- however long, no task is taken, and the task waits.
pub run-strands :
    (p : ThreadPool) (task : Option ThreadTask) (prompt : Bool) (as' : List Action)
    → 0 < length p.threads
    → AllThreads IsIdleLong p.threads
    → AllThreads ShowsIdle p.threads
    → p.min_num < p.valid_thread_nums
    → OnlyTurns as'
    → let r = run p (decisions 0 (length p.threads) ++ adds task prompt ∷ as') in
      (r.1 ≡ []) × (r.0.tasks ≡ p.tasks ++ task ∷ [])
unfolding run act
run-strands p task prompt as' some_there long idle over only =
    let q : ThreadPool = record p { threads = map to_leave p.threads } in
    let added = add-no_thread q task prompt (idle_there p.threads some_there idle) in
    let q' : ThreadPool = record q { tasks = p.tasks ++ task ∷ [] } in
    rw (all_decide p [] p.threads long over (adds task prompt ∷ as'), added)
      (nothing_taken as' q' (map-IsPast p.threads) only)

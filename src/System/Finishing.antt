-- ===== src/System/Finishing.antt =====
-- Moves that bring the server to rest, without a byte more from any client.
use epoll_model.Prelude.{
  ok_injective, ℕ, zero, suc, ◌+◌, ◌-◌, ◌≤◌, ◌<◌, ◌≡◌, refl, sym, ap, ◌∙◌, true, [], length, lt→ltb,
  ok, arith,
}
use native.Mathlib.Decide.{dec_lt}
use epoll_model.Memory.Copies.{eq-nil}
use epoll_model.TaskController.{Controller}
use epoll_model.ThreadPool
use epoll_model.ThreadPool.{adds, turn}
use epoll_model.ThreadPool.Totals.{total}
use epoll_model.ThreadPool.Draining.{
  IsAlive, turns_left, add-IsAlive, turn-IsAlive, burden, turn-burden, no_burden,
}
use epoll_model.System.{System, After, hands_over, works, move, run, give_task, task_at}
use epoll_model.System.Process.{process_all_lem}
use epoll_model.System.Changes.{length-view, IsSound}
use epoll_model.System.Moves.{Goes, hands_over-Goes, works-Goes}
use epoll_model.System.Leads.{Leads, here_Leads, then_Leads, seq_Leads}
use epoll_model.System.Answered.{IsQuiet}

-- All tasks that were made are given to the pool.
abbrev pub AllGiven : System → Type 0
AllGiven y = y.handed ≡ length y.controller.added

-- What a worker's turn leaves of the rest.
works_after :
    (y : System) (i : ℕ) (g : Goes y (works i) y.controller)
    → IsSound y
    → (g.after.pool ≡ (ThreadPool.act y.pool (turn i)).0) × (g.after.handed ≡ y.handed)
unfolding move
works_after y i g s =
    let r = ThreadPool.act y.pool (turn i) in
    let (s', p', run, _, _) = process_all_lem y.controller.added r.1 y.socket y.statics s.whole in
    let y' : System = record y { socket = s'; statics = p'; pool = r.0 } in
    let made : move y (works i) ≡ ok (y', [], r.1) = rw run refl in
    let same = ok_injective (y', [], r.1) (g.after, g.calls, g.events) (sym made ∙ g.goes) in
    (sym (ap (λ (a : After). a.0.pool) same), sym (ap (λ (a : After). a.0.handed) same))

hands_over_after :
    (y : System) (g : Goes y (hands_over true) y.controller)
    → y.handed < length y.controller.added
    → g.after ≡ give_task y true
unfolding move
hands_over_after y g h =
    let made : move y (hands_over true) ≡ ok (give_task y true, [], []) =
      rw (lt→ltb y.handed (length y.controller.added) h) refl in
    sym (
      ap (λ (a : After). a.0)
        (ok_injective (give_task y true, [], []) (g.after, g.calls, g.events) (sym made ∙ g.goes)))

record IsReady (i : ℕ) (y : System) : Type 0 where
  alive : IsAlive i y.pool
  all_given : AllGiven y

-- The calls of addTask that are still to come.
hand_all :
    (n : ℕ) (i k : ℕ) (y : System)
    → IsSound y
    → IsAlive i y.pool
    → y.handed + n ≡ length y.controller.added
    → Leads k y (IsReady i)
unfolding give_task
hand_all zero i k y s a h = here_Leads k y s (record { alive = a; all_given = omega (arith, h) })
hand_all (suc n) i k y s a h =
    let g = hands_over-Goes y true s in
    let e = hands_over_after y g (omega (arith, h)) in
    let alive : IsAlive i g.after.pool = rw e (add-IsAlive i y.pool (task_at y.handed) true a) in
    let count : g.after.handed ≡ y.handed + 1 = rw e refl in
    then_Leads k y (hands_over true) g refl tt (
      hand_all n i k g.after g.sound alive
        (omega (arith, h, count, ap (λ (c : Controller). length c.added) g.controller)))

record IsWorkedOff (y : System) : Type 0 where
  all_given : AllGiven y
  none_waiting : y.pool.tasks ≡ []

-- One more turn of a worker.
then_works :
    {Q : System → Type 0} (k : ℕ) (y : System) (i : ℕ)
    → IsSound y
    → AllGiven y
    → ((y' : System)
        → IsSound y'
        → AllGiven y'
        → y'.pool ≡ (ThreadPool.act y.pool (turn i)).0
        → Leads k y' Q)
    → Leads k y Q
then_works k y i s a next =
    let g = works-Goes y i s in
    let (pool, handed) = works_after y i g s in
    let given = handed ∙ a ∙ ap (λ (c : Controller). length c.added) (sym g.controller) in
    then_Leads k y (works i) g refl tt (next g.after g.sound given pool)

-- What is true of a pool is true of the same pool in another state.
same_IsAlive :
    (i : ℕ) (p p' : ThreadPool.ThreadPool) (b : IsAlive i p)
    → p' ≡ p
    → (c : IsAlive i p') × (turns_left c ≡ turns_left b)
same_IsAlive i p p' b e = rw e (b, refl)

-- Thread `i` takes what waits.
work_off :
    (n : ℕ) (i k : ℕ) (y : System)
    → IsSound y
    → AllGiven y
    → (a : IsAlive i y.pool) → turns_left a ≤ n
    → Leads k y IsWorkedOff
work_off zero i k y s given a h =
    here_Leads k y s
      (record { all_given = given; none_waiting = eq-nil y.pool.tasks (omega (arith, h)) })
work_off (suc n) i k y s given a h = elim (dec_lt 0 (length y.pool.tasks)) [
  | no none_left ↦
      here_Leads k y s
        (record { all_given = given; none_waiting = eq-nil y.pool.tasks (omega arith) })
  | yes some_left ↦
      let (b, less) = turn-IsAlive i y.pool a some_left in
      then_works k y i s given (λ y' s' given' pool.
        let (c, same) = same_IsAlive i _ y'.pool b pool in
        work_off n i k y' s' given' c (omega (arith, h, less, same)))
]

-- The threads put down what they have in their hands.
put_down :
    (n : ℕ) (k : ℕ) (y : System)
    → IsSound y
    → IsWorkedOff y
    → total burden y.pool.threads ≤ n
    → Leads k y IsQuiet
put_down zero k y s w h = here_Leads k y s (record {
  all_given = w.all_given;
  none_waiting = w.none_waiting;
  free = no_burden y.pool.threads (omega (arith, h));
})
put_down (suc n) k y s w h = elim (dec_lt 0 (total burden y.pool.threads)) [
  | no light ↦ here_Leads k y s (record {
    all_given = w.all_given;
    none_waiting = w.none_waiting;
    free = no_burden y.pool.threads (omega arith);
  })
  | yes heavy ↦
      let (i, same, less) = turn-burden y.pool heavy in
      then_works k y i s w.all_given (λ y' s' given pool.
        let tasks : y'.pool.tasks ≡ [] =
          ap (λ (p : ThreadPool.ThreadPool). p.tasks) pool ∙ same ∙ w.none_waiting in
        let weight : total burden y'.pool.threads ≤ n =
          omega (arith, h, less, ap (λ (p : ThreadPool.ThreadPool). total burden p.threads) pool) in
        put_down n k y' s' (record { all_given = given; none_waiting = tasks }) weight)
]

-- From any sound state in which a thread is alive, the calls of addTask and the turns of the workers can
-- bring the pool to rest.
pub IsQuiet-Leads : (i k : ℕ) (y : System) → IsSound y → IsAlive i y.pool → Leads k y IsQuiet
IsQuiet-Leads i k y s a =
    let l =
      hand_all (length y.controller.added - y.handed) i k y s a
        (omega (arith, s.made, length-view y.controller.added)) in
    let w =
      work_off (turns_left l.reached.alive) i k l.after l.sound l.reached.all_given l.reached.alive
        (omega arith) in
    seq_Leads k y l (
      seq_Leads k l.after w
        (put_down (total burden w.after.pool.threads) k w.after w.sound w.reached (omega arith)))

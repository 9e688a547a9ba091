-- ===== src/System/Ordered.antt =====
-- One worker alone takes the tasks and processes them in their order.
use epoll_model.Prelude.{
  ℕ, zero, suc, ◌+◌, ◌≡◌, refl, sym, ap, ◌∙◌, Bool, inl, inr, Bool-cases, List, [], ◌∷◌, ◌++◌,
  append-nil, append_assoc, length, ltb, ok, first_ok, arith,
}
use epoll_model.Socket.Receiving.{recv_event}
use epoll_model.TaskController.{Controller}
use epoll_model.TaskController.Interleaving.{listener}
use epoll_model.ThreadPool
use epoll_model.ThreadPool.{
  ThreadPool, ThreadTask, WgThread, Pc, testing, fetching, fetched, working, deciding, pops,
  processes, adds, turn,
}
use epoll_model.System.{
  System, Move, receives, hands_over, works, sends_for, listens_for, move, give_task,
}
use epoll_model.System.Process.{process_all_lem}
use epoll_model.System.Changes.{IsSound}
use epoll_model.System.Moves.{Goes, led_to}
use epoll_model.ThreadPool.Numbers.{queue_numbers, hand_at, done, done-append, turn_line, add_line}
use epoll_model.System.Refinement.{from_to}

-- No other worker has a turn.
abbrev pub OneWorker : ℕ → Move → Type 0
OneWorker i (works j) = j ≡ i
OneWorker i _ = Unit {0}

abbrev pub AllOneWorker : ℕ → List Move → Type 0
AllOneWorker i [] = Unit {0}
AllOneWorker i (m ∷ ms) = OneWorker i m × AllOneWorker i ms

-- What was processed, what the worker has in its hands and what waits are the tasks in their order.
abbrev pub IsOrdered : ℕ → System → List ThreadPool.Event → Type 0
IsOrdered i y es = done es ++ (hand_at i y.pool ++ queue_numbers y.pool.tasks) ≡ from_to 0 y.handed

from_to-snoc : (first n : ℕ) → from_to first (suc n) ≡ from_to first n ++ (first + n) ∷ []
from_to-snoc first zero = let z : first + 0 ≡ first = omega arith in rw z refl
from_to-snoc first (suc n) =
    let z : first + suc n ≡ first + 1 + n = omega arith in
    rw z (ap (◌∷◌ first) (from_to-snoc (first + 1) n))

-- A turn of the one worker.
works_Ordered :
    (i : ℕ) (y : System) (es : List ThreadPool.Event)
    → IsSound y
    → let r = ThreadPool.act y.pool (turn i) in
      IsOrdered i y es
      → done (es ++ r.1) ++ (hand_at i r.0 ++ queue_numbers r.0.tasks) ≡ from_to 0 y.handed
works_Ordered i y es s o =
    let r = ThreadPool.act y.pool (turn i) in
    ap (λ (x : List ℕ). x ++ (hand_at i r.0 ++ queue_numbers r.0.tasks)) (done-append es r.1)
    ∙ append_assoc (done es) (done r.1) (hand_at i r.0 ++ queue_numbers r.0.tasks)
    ∙ ap (◌++◌ (done es)) (turn_line i y.handed y.pool s.given)
    ∙ o

gives_Ordered :
    (i : ℕ) (y : System) (prompt : Bool) (es : List ThreadPool.Event)
    → IsOrdered i y es
    → IsOrdered i (give_task y prompt) (es ++ [])
unfolding give_task
gives_Ordered i y prompt es o =
    let (hand, queue) = add_line i y.handed y.pool prompt in
    let h = hand_at i y.pool in
    let q = queue_numbers y.pool.tasks in
    let last = y.handed ∷ [] in
    let next : from_to 0 (y.handed + 1) ≡ from_to 0 y.handed ++ last =
      let z : y.handed + 1 ≡ suc y.handed = omega arith in
      let first : 0 + y.handed ≡ y.handed = omega arith in
      rw z (from_to-snoc 0 y.handed ∙ ap (λ (n : ℕ). from_to 0 y.handed ++ n ∷ []) first) in
    rw (append-nil es, hand, queue, next)
      (ap (◌++◌ (done es)) (sym (append_assoc h q last))
        ∙ sym (append_assoc (done es) (h ++ q) last)
        ∙ ap (λ (x : List ℕ). x ++ last) o)

-- Moves that no other worker makes keep the order.
pub move-IsOrdered :
    (i : ℕ) (y : System) (m : Move) {ctl : Controller} (g : Goes y m ctl)
    (es : List ThreadPool.Event)
    → IsSound y
    → OneWorker i m
    → IsOrdered i y es
    → IsOrdered i g.after (es ++ g.events)
unfolding move
move-IsOrdered i y (receives e r) g es s one o =
    let (c, run, last) =
      first_ok (recv_event listener y.socket y.controller e r)
        (λ c. ok (record y { controller = c }, [], [])) (g.after, g.calls, g.events) g.goes in
    led_to (λ a. IsOrdered i a.0 (es ++ a.2)) y (receives e r) g
      (record y { controller = c }, [], []) (rw run refl) (rw (append-nil es) o)
move-IsOrdered i y (hands_over prompt) g es s one o =
    elim (Bool-cases (ltb y.handed (length y.controller.added))) [
      | inl more ↦
          led_to (λ a. IsOrdered i a.0 (es ++ a.2)) y (hands_over prompt) g
            (give_task y prompt, [], []) (rw more refl) (gives_Ordered i y prompt es o)
      | inr none_left ↦
          led_to (λ a. IsOrdered i a.0 (es ++ a.2)) y (hands_over prompt) g (y, [], [])
            (rw none_left refl) (rw (append-nil es) o)
    ]
move-IsOrdered i y (works j) g es s one o =
    let r = ThreadPool.act y.pool (turn j) in
    let (s', p', run, _, _) = process_all_lem y.controller.added r.1 y.socket y.statics s.whole in
    led_to (λ a. IsOrdered i a.0 (es ++ a.2)) y (works j) g
      (record y { socket = s'; statics = p'; pool = r.0 }, [], r.1) (rw run refl)
      (rw one (works_Ordered i y es s o))
move-IsOrdered i y (sends_for e) g es s one o =
    led_to (λ a. IsOrdered i a.0 (es ++ a.2)) y (sends_for e) g _ refl (rw (append-nil es) o)
move-IsOrdered i y (listens_for e a) g es s one o =
    led_to (λ r. IsOrdered i r.0 (es ++ r.2)) y (listens_for e a) g _ refl (rw (append-nil es) o)

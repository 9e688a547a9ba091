-- ===== src/System/Finished.antt =====
-- The server can always finish: what it takes until a client has all its responses.
use epoll_model.Prelude.{
  ok_injective, ℕ, zero, suc, ◌≤◌, ◌<◌, ◌≡◌, ◌≢◌, refl, sym, ap, ◌∙◌, List, [], ◌++◌, append-nil,
  length, pos, ok, arith, Perm,
}
use mathlib.Core.Path.{subst}
use native.Mathlib.Decide.{dec_lt}
use epoll_model.Memory.Copies.{eq-nil}
use epoll_model.Socket.{Call, send_event}
use epoll_model.Socket.Events.{writable_by, send_event-shorter}
use epoll_model.Socket.Ops.{queued, sent}
use epoll_model.Socket.Receiving.{Fits}
use epoll_model.TaskController.Stream.{AllFrames, concat}
use epoll_model.TaskController.Delivery.{IsSafe}
use epoll_model.ThreadPool
use epoll_model.ThreadPool.Draining.{IsAlive}
use epoll_model.System.{System, Move, After, sends_for, move, run}
use epoll_model.System.Changes.{IsSound, KeepsAll}
use epoll_model.System.Moves.{Goes, sends_for-Goes}
use epoll_model.System.Serving.{incoming, from_client}
use epoll_model.System.Service.{IsFresh, fresh_Runs}
use epoll_model.System.Runs.{incoming-append, KeepsAll-append, run-append}
use epoll_model.System.Answered.{IsQuiet, replies, run-replies}
use epoll_model.System.Finishing.{IsQuiet-Leads}
use epoll_model.System.Leads.{Leads, here_Leads, then_Leads, seq_Leads}

-- The pool is at rest, and nothing waits for client `k`.
record IsServed (k : ℕ) (y : System) : Type 0 where
  quiet : IsQuiet y
  none_queued : queued k y.socket ≡ []

sends_after :
    (k : ℕ) (y : System) (g : Goes y (sends_for (writable_by k)) y.controller)
    → g.after ≡ record y { socket = (send_event y.socket (writable_by k)).0 }
unfolding move
sends_after k y g =
    let e = writable_by k in
    let r = send_event y.socket e in
    sym (
      ap (λ (a : After). a.0)
        (ok_injective (record y { socket = r.0 }, r.1, []) (g.after, g.calls, g.events) g.goes))

send_all :
    (n k : ℕ) (y : System)
    → IsSound y
    → IsQuiet y
    → y.socket.socket ≢ pos k
    → length (queued k y.socket) ≤ n
    → Leads k y (IsServed k)
send_all zero k y s q ne h =
    here_Leads k y s
      (record { quiet = q; none_queued = eq-nil (queued k y.socket) (omega (arith, h)) })
send_all (suc n) k y s q ne h = elim (dec_lt 0 (length (queued k y.socket))) [
  | no all_sent ↦
      here_Leads k y s
        (record { quiet = q; none_queued = eq-nil (queued k y.socket) (omega arith) })
  | yes some_left ↦
      let e = writable_by k in
      let g = sends_for-Goes y e s in
      let same = sends_after k y g in
      let less = send_event-shorter y.socket k ne some_left in
      let left : length (queued k g.after.socket) ≤ n =
        omega (arith, h, less, ap (λ (y : System). length (queued k y.socket)) same) in
      let quiet : IsQuiet g.after =
        rw same
          (record { all_given = q.all_given; none_waiting = q.none_waiting; free = q.free }) in
      then_Leads k y (sends_for e) g refl tt
        (send_all n k g.after g.sound quiet (λ own. ne (sym g.setup.1 ∙ own)) left)
]

-- From any sound state in which a thread of the pool is alive, what waits for a client other than the
-- socket itself can be sent, the answers to what the pool still has to do among it.
IsServed-Leads :
    (i k : ℕ) (y : System)
    → IsSound y
    → IsAlive i y.pool
    → y.socket.socket ≢ pos k
    → Leads k y (IsServed k)
IsServed-Leads i k y s a ne =
    let l = IsQuiet-Leads i k y s a in
    seq_Leads k y l (
      send_all (length (queued k l.after.socket)) k l.after l.sound l.reached
        (λ own. ne (sym l.setup.1 ∙ own)) (omega arith))

-- The whole server, from its start, after any interleaving of the steps of its threads in which all bytes
-- of the clients have come in, each client's a stream of frames, cut nowhere inside the first four bytes
-- of a frame, and no chunk longer than the buffer. Where a thread of the pool is then in its loop and was
-- not idle for long, the server can finish by its own steps: there are moves, with nothing received, after
-- which the pool is at rest, nothing waits for client `k`, and the kernel got for it, in some order, what
-- waited at the start and one response to each of its frames, by the frame's id and command, but none to a
-- frame too short for a header. The client's descriptor is positive and not that of the socket itself, and
-- it is not hung up.
pub run-finishes :
    (y y1 : System) (calls : List Call) (events : List ThreadPool.Event)
    (streams : ℕ → List (List ℕ)) (ms : List Move) (i k : ℕ)
    → IsFresh y
    → ((k : ℕ) → AllFrames (streams k))
    → Fits (incoming ms)
    → ((k : ℕ) → concat (from_client k y ms) ≡ concat (streams k))
    → ((k : ℕ) → IsSafe (streams k) 0 (from_client k y ms))
    → 0 < k
    → KeepsAll k ms
    → run y ms ≡ ok (y1, calls, events)
    → IsAlive i y1.pool
    → y1.socket.socket ≢ pos k
    → (more : List Move) × (y2 : System) × (all_calls : List Call) × (all_events : List
        ThreadPool.Event)
      × (incoming more ≡ [])
      × (run y (ms ++ more) ≡ ok (y2, all_calls, all_events))
      × IsQuiet y2
      × (queued k y2.socket ≡ [])
      × Perm (sent k all_calls) (queued k y.socket ++ replies (streams k))
run-finishes y y1 calls events streams ms i k f frames fit all cuts h keeps goes alive ne =
    let r = fresh_Runs y streams ms f frames fit all cuts in
    let same = ok_injective (r.after, r.calls, r.events) (y1, calls, events) (sym r.goes ∙ goes) in
    let sound : IsSound y1 = subst (λ (a : After). IsSound a.0) same r.sound in
    let l = IsServed-Leads i k y1 sound alive ne in
    let silent : incoming (ms ++ l.more) ≡ incoming ms =
      incoming-append ms l.more ∙ ap (◌++◌ (incoming ms)) l.silent ∙ append-nil (incoming ms) in
    let whole = run-append ms l.more y y1 l.after calls l.calls events l.events goes l.goes in
    let answered =
      run-replies y l.after (calls ++ l.calls) (events ++ l.events) streams (ms ++ l.more) k f
        frames (rw silent fit) (λ k. rw silent (all k)) (λ k. rw silent (cuts k)) h
        (KeepsAll-append k ms l.more keeps l.keeps) whole l.reached.quiet in
    (
      l.more,
      l.after,
      calls ++ l.calls,
      events ++ l.events,
      l.silent,
      whole,
      l.reached.quiet,
      l.reached.none_queued,
      rw (l.reached.none_queued, append-nil) at answered,
    )

-- ===== src/System/Service.antt =====
-- What the server promises from its start on.
use epoll_model.Prelude.{
  ℕ, ◌+◌, ◌≤◌, ◌≡◌, refl, sym, ap, ◌∙◌, true, false, inl, none, some, List, [], ◌∷◌, ◌++◌,
  append-nil, map, length, ok, lookup, arith,
}
use epoll_model.Socket.{Call}
use epoll_model.Socket.Ops.{queued, sent}
use epoll_model.Socket.Receiving.{Fits}
use epoll_model.TaskController.Stream.{AllFrames, concat, view, frame_view}
use epoll_model.TaskController.Positions.{at_start}
use epoll_model.TaskController.Delivery.{IsSafe, delivered-all}
use epoll_model.TaskController.Interleaving.{views_of}
use epoll_model.ThreadPool
use epoll_model.ThreadPool.{WgThread, ThreadTask, Pc, fetched, working}
use epoll_model.ThreadPool.Totals.{AllThreads, total}
use epoll_model.ThreadPool.Queue.{in_hands, in_hand, times_processed}
use epoll_model.ThreadPool.Custody.{held, has_task, IsFree}
use epoll_model.ThreadPool.Given.{InHand, HandGiven, EventsGiven}
use epoll_model.System.{System, Move, run}
use epoll_model.System.Process.{answers}
use epoll_model.System.Changes.{IsSound, KeepsAll, once}
use epoll_model.System.Serving.{incoming, from_client, Runs, runs_lem}

-- A server that has received nothing yet.
pub record IsFresh (y : System) : Type 0 where
  pub listening : y.socket.has_listener ≡ true
  pub no_parts : (k : ℕ) → lookup k y.controller.recv_list ≡ none
  pub none_made : y.controller.added ≡ []
  pub none_given : y.handed ≡ 0
  pub none_waiting : y.pool.tasks ≡ []
  pub free : AllThreads IsFree y.pool.threads

free_hand : (pc : Pc) → has_task pc ≡ false → InHand 0 pc × ((j : ℕ) → in_hand j pc ≡ 0)
free_hand (fetched (some task)) h = absurd (cc h)
free_hand (working task) h = absurd (cc h)
free_hand (fetched none) h = (tt, λ j. refl)
free_hand _ h = (tt, λ j. refl)

free_hands :
    (ts : List WgThread)
    → AllThreads IsFree ts
    → AllThreads (HandGiven 0) ts × ((j : ℕ) → total (in_hands j) ts ≡ 0)
unfolding total
free_hands [] a = (tt, λ j. refl)
free_hands (t ∷ ts) a =
    let (g, z) = free_hand t.pc a.0 in
    let (gs, zs) = free_hands ts a.1 in ((g, gs), λ j. omega (arith, z j, zs j))

fresh-IsSound : (y : System) → IsFresh y → IsSound y
fresh-IsSound y f = record {
  whole = rw f.none_made tt;
  given =
      rw f.none_given
        (record { queue = rw f.none_waiting tt; hands = (free_hands y.pool.threads f.free).0 });
  made = omega (arith, f.none_given);
  listening = f.listening;
}

pub free_held :
    (p : ThreadPool.ThreadPool) (j : ℕ) → p.tasks ≡ [] → AllThreads IsFree p.threads → held j p ≡ 0
free_held p j e f = let z = (free_hands p.threads f).1 j in rw e (omega arith)

pub fresh_held : (y : System) (j : ℕ) → IsFresh y → held j y.pool ≡ 0
fresh_held y j f = free_held y.pool j f.none_waiting f.free

pub once_zero : (j : ℕ) → once j 0 ≡ 0
once_zero j = ground arith

-- A run from the start, with all that is known of it.
pub fresh_Runs :
    (y : System) (streams : ℕ → List (List ℕ)) (ms : List Move)
    → IsFresh y
    → (frames : (k : ℕ) → AllFrames (streams k)) → Fits (incoming ms)
    → ((k : ℕ) → concat (from_client k y ms) ≡ concat (streams k))
    → ((k : ℕ) → IsSafe (streams k) 0 (from_client k y ms))
    → Runs streams frames (λ k. []) (λ k. 0) y ms
unfolding views_of
fresh_Runs y streams ms f frames fit all cuts =
    runs_lem streams frames ms (λ k. []) (λ k. 0) y
      (record {
        sound = fresh-IsSound y f;
        fits = fit;
        stands = λ k.
            let (nothing, start) = at_start (streams k) (frames k) in
            record { tasks = rw (f.none_made, nothing) refl; waits = rw start (f.no_parts k) };
        goes_on = λ k. record {
          rest = [];
          bytes = sym (all k) ∙ sym (append-nil (concat (from_client k y ms)));
          here = inl (at_start (streams k) (frames k)).1;
          cuts = cuts k;
        };
      })

-- Where all bytes have come in, the tasks made for a client are its frames.
pub fresh_views :
    (y : System) (streams : ℕ → List (List ℕ)) (ms : List Move) (k : ℕ)
    (frames : (k : ℕ) → AllFrames (streams k)) (r : Runs streams frames (λ k. []) (λ k. 0) y ms)
    → concat (from_client k y ms) ≡ concat (streams k)
    → views_of k (map view r.after.controller.added) ≡ map (frame_view k) (streams k)
fresh_views y streams ms k frames r all =
    let end : 0 + length (concat (from_client k y ms)) ≡ length (concat (streams k)) =
      omega (arith, ap length all) in
    (r.stands k).tasks ∙ rw (delivered-all (streams k) _ end) refl

-- The whole server, from its start, in any interleaving of the steps of its threads: the receiving
-- thread with any events and chunks, none longer than the buffer, the calls of addTask, the workers, the
-- sending and the listening thread. Each client's bytes are a stream of frames, cut nowhere inside the
-- first four bytes of a frame. Then no step faults; the tasks made for each client are its frames, once
-- each and in order; each task given to the pool is there once: in the queue, in the hands of one
-- worker, or processed; and for a client that is not hung up, what waited for it and the responses to
-- its processed requests, in the order of processing, are what the kernel got to send to it, in that
-- order and once each, followed by what still waits.
pub run-serves :
    (y : System) (streams : ℕ → List (List ℕ)) (ms : List Move) (k : ℕ)
    → IsFresh y
    → ((k : ℕ) → AllFrames (streams k))
    → Fits (incoming ms)
    → ((k : ℕ) → concat (from_client k y ms) ≡ concat (streams k))
    → ((k : ℕ) → IsSafe (streams k) 0 (from_client k y ms))
    → KeepsAll k ms
    → (y' : System) × (calls : List Call) × (events : List ThreadPool.Event) × (run y ms
        ≡ ok (y', calls, events))
      × (views_of k (map view y'.controller.added) ≡ map (frame_view k) (streams k))
      × ((j : ℕ) → times_processed j events + held j y'.pool ≡ once j y'.handed)
      × (queued k y.socket ++ answers k (map view y'.controller.added) events
          ≡ sent k calls ++ queued k y'.socket)
      × (y'.handed ≤ length (map view y'.controller.added))
      × EventsGiven y'.handed events
run-serves y streams ms k f frames fit all cuts keeps =
    let r = fresh_Runs y streams ms f frames fit all cuts in
    (
      r.after,
      r.calls,
      r.events,
      r.goes,
      fresh_views y streams ms k frames r (all k),
      λ j. omega (
        arith,
        (r.changes 0 j).account,
        fresh_held y j f,
        f.none_given,
        once_zero j,
        ap (once j) f.none_given,
      ),
      (r.changes k 0).queue keeps,
      r.sound.made,
      (r.changes 0 0).processed,
    )

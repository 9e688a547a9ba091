-- ===== src/System/InOrder.antt =====
-- With one worker the responses come in the order of the requests.
use epoll_model.Prelude.{
  ℕ, zero, suc, ◌+◌, ◌<◌, ◌≡◌, refl, sym, ap, ◌∙◌, false, inl, inr, Option-cases, none, some, List,
  [], ◌∷◌, ◌++◌, append-nil, map, length, get_elem?, ok, ok_injective, arith,
}
use mathlib.Core.Path.{subst}
use epoll_model.Prelude.Multisets.{flat}
use epoll_model.Socket.{Call}
use epoll_model.Socket.Ops.{queued, sent}
use epoll_model.Socket.Receiving.{Fits}
use epoll_model.TaskController.Stream.{AllFrames, concat, View, view, frame_view}
use epoll_model.TaskController.Delivery.{IsSafe}
use epoll_model.TaskController.Interleaving.{views_of}
use epoll_model.ThreadPool
use epoll_model.ThreadPool.{Pc, fetched, working}
use epoll_model.ThreadPool.Totals.{AllThreads, AllThreads-get}
use epoll_model.ThreadPool.Custody.{has_task, IsFree}
use epoll_model.ThreadPool.Numbers.{hand_number, hand_at, hand_at-there, done}
use epoll_model.System.{System, Move, After, run}
use epoll_model.System.Process.{answers, answer_at}
use epoll_model.System.Changes.{KeepsAll, length-view}
use epoll_model.System.Refinement.{from_to}
use epoll_model.System.Ordered.{AllOneWorker, IsOrdered}
use epoll_model.System.Serving.{incoming, from_client}
use epoll_model.System.Service.{IsFresh, fresh_Runs, fresh_views}
use epoll_model.System.Answered.{
  IsQuiet, replies, indices, answers-flat, flat-indices, all_answers, all_answers-own,
  all_answers-frames,
}

free_hand_number : (pc : Pc) → has_task pc ≡ false → hand_number pc ≡ []
free_hand_number (fetched (some task)) h = absurd (cc h)
free_hand_number (working task) h = absurd (cc h)
free_hand_number (fetched none) h = refl
free_hand_number _ h = refl

free_hand_at : (i : ℕ) (p : ThreadPool.ThreadPool) → AllThreads IsFree p.threads → hand_at i p ≡ []
free_hand_at i p f = elim (Option-cases (get_elem? p.threads i)) [
  | inl e ↦ rw (hand_at, e) refl
  | inr (t, e) ↦
      hand_at-there i p t e ∙ free_hand_number t.pc (AllThreads-get IsFree i p.threads f e)
]

-- The start is in order.
fresh-IsOrdered : (i : ℕ) (y : System) → IsFresh y → IsOrdered i y []
fresh-IsOrdered i y f = rw (free_hand_at i y.pool f.free, f.none_waiting, f.none_given) refl

map-from_to : (first n : ℕ) → map suc (from_to first n) ≡ from_to (first + 1) n
map-from_to first zero = refl
map-from_to first (suc n) =
    let s : first + 1 ≡ suc first = omega arith in rw (map-from_to (first + 1) n, s) refl

indices-from_to : (vs : List View) → indices vs ≡ from_to 0 (length vs)
indices-from_to [] = refl
indices-from_to (v ∷ vs) =
    ap (◌∷◌ 0) (ap (map suc) (indices-from_to vs) ∙ map-from_to 0 (length vs))

ordered_replies :
    (y y' : System) (calls : List Call) (events : List ThreadPool.Event) (fs : List (List ℕ))
    (i k : ℕ)
    → 0 < k
    → views_of k (map view y'.controller.added) ≡ map (frame_view k) fs
    → IsOrdered i y' events
    → queued k y.socket ++ answers k (map view y'.controller.added) events
      ≡ sent k calls ++ queued k y'.socket
    → IsQuiet y'
    → sent k calls ++ queued k y'.socket ≡ queued k y.socket ++ replies fs
ordered_replies y y' calls events fs i k h made line queue q =
    let views = map view y'.controller.added in
    let n : y'.handed ≡ length views = q.all_given ∙ sym (length-view y'.controller.added) in
    let all : done events ≡ indices views =
      sym (append-nil (done events))
      ∙ (rw (free_hand_at i y'.pool q.free, q.none_waiting, n) at line)
      ∙ sym (indices-from_to views) in
    let own : answers k views events ≡ replies fs =
      answers-flat k views events
      ∙ ap (flat (λ i. answer_at k (get_elem? views i))) all
      ∙ flat-indices k views
      ∙ all_answers-own k views
      ∙ ap (all_answers k) made
      ∙ all_answers-frames k fs h in
    sym queue ∙ ap (◌++◌ (queued k y.socket)) own

-- The whole server, from its start, in any interleaving of the steps of its threads in which one worker
-- alone has turns, and that ends with all tasks given to the pool and worked off. Each client's bytes are a
-- stream of frames, cut nowhere inside the first four bytes of a frame, and no chunk is longer than the
-- buffer. Then for every client that is not hung up, whose descriptor is positive, what the kernel got to
-- send to it and what still waits is what waited at the start and then one response to each of its frames,
-- in the order of the frames, but none to a frame that is too short for a header.
pub run-replies_in_order :
    (y y' : System) (calls : List Call) (events : List ThreadPool.Event)
    (streams : ℕ → List (List ℕ)) (ms : List Move) (i k : ℕ)
    → IsFresh y
    → ((k : ℕ) → AllFrames (streams k))
    → Fits (incoming ms)
    → ((k : ℕ) → concat (from_client k y ms) ≡ concat (streams k))
    → ((k : ℕ) → IsSafe (streams k) 0 (from_client k y ms))
    → 0 < k
    → KeepsAll k ms
    → AllOneWorker i ms
    → run y ms ≡ ok (y', calls, events)
    → IsQuiet y'
    → sent k calls ++ queued k y'.socket ≡ queued k y.socket ++ replies (streams k)
run-replies_in_order y y' calls events streams ms i k f frames fit all cuts h keeps one goes q =
    let r = fresh_Runs y streams ms f frames fit all cuts in
    let same = ok_injective (r.after, r.calls, r.events) (y', calls, events) (sym r.goes ∙ goes) in
    subst
      (λ (a : After).
        IsQuiet a.0 → sent k a.1 ++ queued k a.0.socket ≡ queued k y.socket ++ replies (streams k))
      same
      (ordered_replies y r.after r.calls r.events (streams k) i k h
        (fresh_views y streams ms k frames r (all k)) (r.ordered i [] one (fresh-IsOrdered i y f))
        ((r.changes k 0).queue keeps))
      q

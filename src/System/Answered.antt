-- ===== src/System/Answered.antt =====
-- When all is done: every request has its response.
use epoll_model.Prelude.{
  ok_injective, ℕ, zero, suc, ◌+◌, ◌<◌, ◌≡◌, refl, sym, ap, ◌∙◌, Bool-cases, inl, inr, List, [],
  ◌∷◌, ◌++◌, map, length, get_elem?, ltb, lt→ltb, ◌==◌, ==_refl, if◌then◌else◌, ok, arith, Perm,
}
use mathlib.Core.List.Perm
use mathlib.Core.Path.{subst}
use epoll_model.Prelude.Multisets.{count, flat, flat-Perm}
use epoll_model.Socket.{Call}
use epoll_model.Socket.Ops.{queued, sent}
use epoll_model.Socket.Receiving.{Fits}
use epoll_model.TaskController.Stream.{AllFrames, concat, View, view, frame_view}
use epoll_model.TaskController.Delivery.{IsSafe}
use epoll_model.TaskController.Interleaving.{views_of}
use epoll_model.TaskController.Processing.Answers.{reply_to, answer_of}
use epoll_model.ThreadPool
use epoll_model.ThreadPool.{pops, processes}
use epoll_model.ThreadPool.Totals.{AllThreads}
use epoll_model.ThreadPool.Queue.{times_processed}
use epoll_model.ThreadPool.Custody.{held, IsFree}
use epoll_model.ThreadPool.Given.{EventsGiven}
use epoll_model.System.{System, Move, After, run}
use epoll_model.ThreadPool.Numbers.{done, count-done}
use epoll_model.System.Process.{answers, answer_at}
use epoll_model.System.Changes.{KeepsAll, once, length-view}
use epoll_model.System.Serving.{incoming, from_client}
use epoll_model.System.Service.{IsFresh, run-serves, free_held}

-- The numbers of the entries of a list.
abbrev pub indices : List View → List ℕ
indices [] = []
indices (v ∷ vs) = 0 ∷ map suc (indices vs)

count-suc-zero : (xs : List ℕ) → count zero (map suc xs) ≡ 0
count-suc-zero [] = refl
count-suc-zero (x ∷ xs) = ground (arith, count-suc-zero xs)

count-suc-suc : (j : ℕ) (xs : List ℕ) → count (suc j) (map suc xs) ≡ count j xs
count-suc-suc j [] = refl
count-suc-suc j (x ∷ xs) = ground (arith, count-suc-suc j xs)

count-indices : (j : ℕ) (vs : List View) → count j (indices vs) ≡ once j (length vs)
count-indices j [] = ground arith
count-indices zero (v ∷ vs) = ground (arith, count-suc-zero (indices vs))
count-indices (suc j) (v ∷ vs) = ground (arith, count-suc-suc j (indices vs), count-indices j vs)

pub answers-flat :
    (k : ℕ) (views : List View) (es : List ThreadPool.Event)
    → answers k views es ≡ flat (λ i. answer_at k (get_elem? views i)) (done es)
answers-flat k views [] = refl
answers-flat k views (pops task ∷ es) = answers-flat k views es
answers-flat k views (processes task ∷ es) =
    ap (◌++◌ (answer_at k (get_elem? views task.param))) (answers-flat k views es)

-- The answers to all tasks, in their order.
abbrev pub all_answers : ℕ → List View → List (List ℕ)
all_answers k [] = []
all_answers k (v ∷ vs) = answer_of k v ++ all_answers k vs

flat-later :
    (k : ℕ) (v : View) (vs : List View) (is : List ℕ)
    → flat (λ i. answer_at k (get_elem? (v ∷ vs) i)) (map suc is)
      ≡ flat (λ i. answer_at k (get_elem? vs i)) is
flat-later k v vs [] = refl
flat-later k v vs (i ∷ is) = ap (◌++◌ (answer_at k (get_elem? vs i))) (flat-later k v vs is)

pub flat-indices :
    (k : ℕ) (vs : List View)
    → flat (λ i. answer_at k (get_elem? vs i)) (indices vs) ≡ all_answers k vs
flat-indices k [] = refl
flat-indices k (v ∷ vs) =
    ap (◌++◌ (answer_of k v)) (flat-later k v vs (indices vs) ∙ flat-indices k vs)

pub all_answers-own : (k : ℕ) (vs : List View) → all_answers k vs ≡ all_answers k (views_of k vs)
unfolding views_of
all_answers-own k [] = refl
all_answers-own k (v ∷ vs) = elim (Bool-cases (v.0 == k)) [
  | inl mine ↦ rw (mine, mine, all_answers-own k vs) refl
  | inr other ↦ rw other (ground (arith, all_answers-own k vs))
]

-- The responses that a client can expect: to each frame that is not too short for a header.
abbrev pub replies : List (List ℕ) → List (List ℕ)
replies [] = []
replies (f ∷ fs) = if ltb (length f) 16 then replies fs else reply_to f ∷ replies fs

pub all_answers-frames :
    (k : ℕ) (fs : List (List ℕ)) → 0 < k → all_answers k (map (frame_view k) fs) ≡ replies fs
all_answers-frames k [] h = refl
all_answers-frames k (f ∷ fs) h =
    let rest = all_answers-frames k fs h in
    rw (lt→ltb 0 k h, ==_refl k)
      (elim (Bool-cases (ltb (length f) 16)) [
        | inl short ↦ rw short rest
        | inr whole ↦ rw whole (ap (◌∷◌ (reply_to f)) rest)
      ])

-- Each task is processed once: the answers in the order of processing are those in the order of the
-- tasks, in another order.
answers-Perm :
    (k n : ℕ) (views : List View) (es : List ThreadPool.Event)
    → EventsGiven n es
    → ((j : ℕ) → times_processed j es ≡ once j (length views))
    → Perm (answers k views es) (all_answers k views)
answers-Perm k n views es g h =
    rw (answers-flat k views es, ← flat-indices k views)
      (flat-Perm (λ i. answer_at k (get_elem? views i)) (done es) (indices views)
        (λ j. count-done j n es g ∙ h j ∙ sym (count-indices j views)))

-- The pool has been given all tasks and has worked them off.
pub record IsQuiet (y : System) : Type 0 where
  pub all_given : y.handed ≡ length y.controller.added
  pub none_waiting : y.pool.tasks ≡ []
  pub free : AllThreads IsFree y.pool.threads

quiet_replies :
    (y y' : System) (calls : List Call) (events : List ThreadPool.Event) (fs : List (List ℕ))
    (k : ℕ)
    → 0 < k
    → views_of k (map view y'.controller.added) ≡ map (frame_view k) fs
    → ((j : ℕ) → times_processed j events + held j y'.pool ≡ once j y'.handed)
    → queued k y.socket ++ answers k (map view y'.controller.added) events
      ≡ sent k calls ++ queued k y'.socket
    → EventsGiven y'.handed events
    → IsQuiet y'
    → Perm (sent k calls ++ queued k y'.socket) (queued k y.socket ++ replies fs)
quiet_replies y y' calls events fs k h made account queue given q =
    let views = map view y'.controller.added in
    let n : y'.handed ≡ length views = q.all_given ∙ sym (length-view y'.controller.added) in
    let each : (j : ℕ) → times_processed j events ≡ once j (length views) =
      λ j. omega (arith, account j, free_held y'.pool j q.none_waiting q.free, ap (once j) n) in
    let own : all_answers k views ≡ replies fs =
      all_answers-own k views ∙ ap (all_answers k) made ∙ all_answers-frames k fs h in
    rw (← queue, ← own)
      (Perm.append_left (queued k y.socket) (answers-Perm k y'.handed views events given each))

-- The whole server, from its start, in any interleaving of the steps of its threads that ends with all
-- tasks given to the pool and worked off. Each client's bytes are a stream of frames, cut nowhere inside
-- the first four bytes of a frame, and no chunk is longer than the buffer. Then for every client that is
-- not hung up, whose descriptor is positive, what the kernel got to send to it and what still waits is,
-- up to its order, what waited at the start and one response to each of its frames, by the frame's id
-- and command, but none to a frame that is too short for a header.
pub run-replies :
    (y y' : System) (calls : List Call) (events : List ThreadPool.Event)
    (streams : ℕ → List (List ℕ)) (ms : List Move) (k : ℕ)
    → IsFresh y
    → ((k : ℕ) → AllFrames (streams k))
    → Fits (incoming ms)
    → ((k : ℕ) → concat (from_client k y ms) ≡ concat (streams k))
    → ((k : ℕ) → IsSafe (streams k) 0 (from_client k y ms))
    → 0 < k
    → KeepsAll k ms
    → run y ms ≡ ok (y', calls, events)
    → IsQuiet y'
    → Perm (sent k calls ++ queued k y'.socket) (queued k y.socket ++ replies (streams k))
run-replies y y' calls events streams ms k f frames fit all cuts h keeps goes q =
    let (y2, calls2, events2, goes2, made, account, queue, _, given) =
      run-serves y streams ms k f frames fit all cuts keeps in
    let same = ok_injective (y2, calls2, events2) (y', calls, events) (sym goes2 ∙ goes) in
    subst
      (λ (r : After).
        IsQuiet r.0
        → Perm (sent k r.1 ++ queued k r.0.socket) (queued k y.socket ++ replies (streams k)))
      same (quiet_replies y y2 calls2 events2 (streams k) k h made account queue given) q

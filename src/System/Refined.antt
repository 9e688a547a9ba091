-- ===== src/System/Refined.antt =====
-- The server refines the abstract desk, and what follows for the calls of the kernel.
use epoll_model.Prelude.{
  ℕ, zero, suc, ◌+◌, true, ◌≡◌, refl, sym, ap, ◌∙◌, inl, inr, Bool-cases, some, List, [], ◌∷◌, map,
  length, get_elem?, ltb, ◌==◌, ok, arith,
}
use epoll_model.Socket.{Call}
use epoll_model.Socket.Events.{outputs}
use epoll_model.Socket.Ops.{queued}
use epoll_model.Socket.Receiving.{Fits}
use epoll_model.TaskController.Stream.{AllFrames, concat, View, view, frame_view}
use epoll_model.TaskController.Delivery.{IsSafe}
use epoll_model.TaskController.Interleaving.{views_of}
use epoll_model.TaskController.Processing.Answers.{reply_to, answer_of}
use epoll_model.ThreadPool
use epoll_model.System.{System, Move, run}
use epoll_model.System.Changes.{once, length-view}
use epoll_model.System.Serving.{incoming, from_client}
use epoll_model.System.Service.{IsFresh, fresh_Runs, fresh_views, fresh_held, once_zero}
use epoll_model.System.Desk.{Reach}
use epoll_model.System.Desk.Account.{times_answered, occurrences, Reach-account}
use epoll_model.System.Desk.Safety.{IsAnswer, IsFilled, AllOutputs, AllOutputs-map, Reach-IsFilled}
use epoll_model.System.Refinement.{desk, count-to_do}

-- At the start no request waits.
fresh_pending :
    (y : System) (j : ℕ)
    → IsFresh y
    → (occurrences j (desk y).pending ≡ 0) × (once j (length (desk y).requests) ≡ 0)
fresh_pending y j f =
    let n : length y.controller.added ≡ 0 = ap length f.none_made in
    let c = count-to_do j y in
    let h = fresh_held y j f in
    (
      c ∙ rw (n, f.none_given) (ground (arith, h)),
      ap (once j) (length-view y.controller.added ∙ n) ∙ once_zero j,
    )

-- The whole server, from its start, in any interleaving of the steps of its threads in which each client's
-- bytes are a stream of frames, cut nowhere inside the first four bytes of a frame, and no chunk is longer
-- than the buffer: it returns, and what it does is a run of the abstract desk, from the view of the start
-- to the view of the end, which delivers exactly what the calls of the kernel send. In that run each
-- request that was accepted was answered once, or waits once.
pub run-refines :
    (y : System) (streams : ℕ → List (List ℕ)) (ms : List Move)
    → IsFresh y
    → ((k : ℕ) → AllFrames (streams k))
    → Fits (incoming ms)
    → ((k : ℕ) → concat (from_client k y ms) ≡ concat (streams k))
    → ((k : ℕ) → IsSafe (streams k) 0 (from_client k y ms))
    → (y' : System) × (calls : List Call) × (events : List ThreadPool.Event) × (run y ms
        ≡ ok (y', calls, events))
      × (r : Reach (desk y) (outputs calls) (desk y')) × ((j : ℕ)
          → times_answered j r + occurrences j (desk y').pending
            ≡ once j (length y'.controller.added))
run-refines y streams ms f frames fit all cuts =
    let r = fresh_Runs y streams ms f frames fit all cuts in
    (
      r.after,
      r.calls,
      r.events,
      r.goes,
      r.refines,
      λ j. omega (
        arith,
        Reach-account j r.refines,
        fresh_pending y j f,
        ap (once j) (length-view r.after.controller.added),
      ),
    )

-- What a buffer of the calls answers, in terms of the streams.
pub record IsReply (streams : ℕ → List (List ℕ)) (k : ℕ) (bytes : List ℕ) : Type 0 where
  number : ℕ
  frame : List ℕ
  sent_by_client : get_elem? (streams k) number ≡ some frame
  reply : bytes ≡ reply_to frame

answer_of-own :
    (k : ℕ) (v : View) (bytes : List ℕ)
    → answer_of k v ≡ bytes ∷ []
    → ((v.0 == k) ≡ true) × (bytes ≡ reply_to v.1)
answer_of-own k v bytes e = elim (Bool-cases (ltb v.2 16)) [
  | inl short ↦ let e' : [] ≡ bytes ∷ [] = rw short at e in absurd (cc e')
  | inr whole ↦ elim (Bool-cases (ltb 0 v.0)) [
    | inr none_there ↦ let e' : [] ≡ bytes ∷ [] = rw (whole, none_there) at e in absurd (cc e')
    | inl there ↦ elim (Bool-cases (v.0 == k)) [
      | inr other ↦ let e' : [] ≡ bytes ∷ [] = rw (whole, there, other) at e in absurd (cc e')
      | inl mine ↦
          let e' : reply_to v.1 ∷ [] ≡ bytes ∷ [] = rw (whole, there, mine) at e in (mine, cc e')
    ]
  ]
]

get-views_of :
    (k : ℕ) (vs : List View) (n : ℕ) (v : View)
    → get_elem? vs n ≡ some v
    → (v.0 == k) ≡ true
    → (i : ℕ) × (get_elem? (views_of k vs) i ≡ some v)
unfolding views_of
get-views_of k [] n v e h = cc
get-views_of k (u ∷ vs) zero v e h = let q : u ≡ v = cc in (0, rw (q, h) refl)
get-views_of k (u ∷ vs) (suc n) v e h =
    let (i, there) = get-views_of k vs n v e h in
    elim (Bool-cases (u.0 == k)) [
      | inl mine ↦ (suc i, rw mine there)
      | inr other ↦ (i, rw other there)
    ]

get-map :
    {A B : Type 0} (f : A → B) (xs : List A) (i : ℕ) (b : B)
    → get_elem? (map f xs) i ≡ some b
    → (a : A) × (get_elem? xs i ≡ some a) × (f a ≡ b)
get-map f [] i b e = cc
get-map f (x ∷ xs) zero b e = (x, refl, cc)
get-map f (x ∷ xs) (suc i) b e = get-map f xs i b e

own-IsReply :
    (streams : ℕ → List (List ℕ)) (vs : List View)
    → ((k : ℕ) → views_of k vs ≡ map (frame_view k) (streams k))
    → (k : ℕ) (bytes : List ℕ) → IsAnswer vs k bytes
    → IsReply streams k bytes
own-IsReply streams vs made k bytes a =
    let (mine, e) = answer_of-own k a.request bytes a.answer in
    let (i, there) = get-views_of k vs a.number a.request a.made mine in
    let (frame, sent, seen) =
      get-map (frame_view k) (streams k) i a.request (rw (made k) at there) in
    record {
      number = i;
      frame = frame;
      sent_by_client = sent;
      reply = e ∙ ap reply_to (sym (ap (λ (v : View). v.1) seen));
    }

-- The whole server, from its start with nothing queued, in any interleaving of the steps of its threads,
-- hang-ups among them, in which each client's bytes are a stream of frames, cut nowhere inside the first
-- four bytes of a frame, and no chunk is longer than the buffer: whatever the kernel gets to send to a
-- descriptor is the response to a frame that came from this descriptor, by the frame's id and command.
pub run-answers_own :
    (y : System) (streams : ℕ → List (List ℕ)) (ms : List Move)
    → IsFresh y
    → ((k : ℕ) → queued k y.socket ≡ [])
    → ((k : ℕ) → AllFrames (streams k))
    → Fits (incoming ms)
    → ((k : ℕ) → concat (from_client k y ms) ≡ concat (streams k))
    → ((k : ℕ) → IsSafe (streams k) 0 (from_client k y ms))
    → (y' : System) × (calls : List Call) × (events : List ThreadPool.Event) × (run y ms
        ≡ ok (y', calls, events))
      × AllOutputs (IsReply streams) (outputs calls)
run-answers_own y streams ms f empty frames fit all cuts =
    let r = fresh_Runs y streams ms f frames fit all cuts in
    let start : IsFilled (desk y) = λ k. rw (empty k) tt in
    let own = (Reach-IsFilled r.refines start).own in
    (
      r.after,
      r.calls,
      r.events,
      r.goes,
      AllOutputs-map (outputs r.calls)
          (own-IsReply streams (map view r.after.controller.added)
            (λ k. fresh_views y streams ms k frames r (all k)))
          own,
    )

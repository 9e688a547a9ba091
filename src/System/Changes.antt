-- ===== src/System/Changes.antt =====
-- What one move of any of the threads changes.
use epoll_model.Prelude.{
  ℕ, suc, ◌+◌, ◌≤◌, ◌≡◌, refl, sym, ap, ◌∙◌, true, List, [], ◌∷◌, ◌++◌, append-nil, append_assoc,
  map, length, ltb, if◌then◌else◌, arith,
}
use epoll_model.Socket.{Call}
use epoll_model.Socket.Queues.{sent-append}
use epoll_model.Socket.Ops.{hangs_up, queued, sent, KeepsClient}
use epoll_model.TaskController.{TaskData}
use epoll_model.TaskController.Stream.{View, view}
use epoll_model.ThreadPool
use epoll_model.ThreadPool.{ThreadPool, ThreadTask, adds, turn}
use epoll_model.ThreadPool.Queue.{times_processed, times-append}
use epoll_model.ThreadPool.Custody.{held}
use epoll_model.ThreadPool.Given.{PoolGiven, EventsGiven, EventsGiven-mono, EventsGiven-append}
use epoll_model.System.{System, Move, listens_for}
use epoll_model.System.Process.{answers, AllWhole, answers-later, answers-append}

-- The tasks that the parts share are in order: each has its true length, and the pool knows only those
-- that it was given.
pub record IsSound (y : System) : Type 0 where
  pub whole : AllWhole (map view y.controller.added)
  pub given : PoolGiven y.handed y.pool
  pub made : y.handed ≤ length (map view y.controller.added)
  pub listening : y.socket.has_listener ≡ true

pub length-view : (ts : List TaskData) → length (map view ts) ≡ length ts
length-view [] = refl
length-view (t ∷ ts) = ap suc (length-view ts)

-- The move is no hang-up of client `k`.
abbrev pub Keeps : ℕ → Move → Type 0
Keeps k (listens_for e a) = KeepsClient k (hangs_up e)
Keeps k _ = Unit {0}

abbrev pub KeepsAll : ℕ → List Move → Type 0
KeepsAll k [] = Unit {0}
KeepsAll k (m ∷ ms) = Keeps k m × KeepsAll k ms

-- 1 for the tasks that the pool was given, of which there are `n`.
abbrev pub once : ℕ → ℕ → ℕ
once j n = if ltb j n then 1 else 0

-- What a run leads to: the queue of client `k` (where `K` says that it is kept), what became of task
-- `j`, and what stays as it is.
pub record Change (K : Type 0) (k j : ℕ) (y y' : System) (calls : List Call)
    (events : List ThreadPool.Event) : Type 0 where
  pub queue :
      K
      → queued k y.socket ++ answers k (map view y'.controller.added) events
        ≡ sent k calls ++ queued k y'.socket
  pub account :
      times_processed j events + held j y'.pool + once j y.handed ≡ held j y.pool + once j y'.handed
  pub grows :
      (more : List View) × (map view y'.controller.added ≡ map view y.controller.added ++ more)
  pub handed : y.handed ≤ y'.handed
  pub processed : EventsGiven y'.handed events

-- Two runs, one behind the other.
pub then_Change :
    (K L : Type 0) (k j : ℕ) (y y1 y2 : System) (c1 c2 : List Call) (e1 e2 : List ThreadPool.Event)
    → IsSound y1
    → Change K k j y y1 c1 e1
    → Change L k j y1 y2 c2 e2
    → Change (K × L) k j y y2 (c1 ++ c2) (e1 ++ e2)
then_Change K L k j y y1 y2 c1 c2 e1 e2 sound a b =
    let views1 = map view y1.controller.added in
    let views2 = map view y2.controller.added in
    let (more, g) = b.grows in
    let (more0, g0) = a.grows in
    let later : answers k views2 e1 ≡ answers k views1 e1 =
      ap (λ (x : List View). answers k x e1) g
      ∙ answers-later k y1.handed views1 more e1 a.processed sound.made in
    record {
      queue = λ h.
          ap (◌++◌ (queued k y.socket)) (
            answers-append k views2 e1 e2
            ∙ ap (λ (x : List (List ℕ)). x ++ answers k views2 e2) later)
          ∙ sym (append_assoc (queued k y.socket) (answers k views1 e1) (answers k views2 e2))
          ∙ ap (λ (x : List (List ℕ)). x ++ answers k views2 e2) (a.queue h.0)
          ∙ append_assoc (sent k c1) (queued k y1.socket) (answers k views2 e2)
          ∙ ap (◌++◌ (sent k c1)) (b.queue h.1)
          ∙ sym (append_assoc (sent k c1) (sent k c2) (queued k y2.socket))
          ∙ ap (λ (x : List (List ℕ)). x ++ queued k y2.socket) (sym (sent-append k c1 c2));
      account = omega (arith, a.account, b.account, times-append j e1 e2);
      grows = (
        more0 ++ more,
        g
            ∙ ap (λ (x : List View). x ++ more) g0
            ∙ append_assoc (map view y.controller.added) more0 more,
      );
      handed = omega (arith, a.handed, b.handed);
      processed =
          EventsGiven-append y2.handed e1 e2
            (EventsGiven-mono y1.handed y2.handed b.handed e1 a.processed) b.processed;
    }

-- Nothing happens.
pub same_Change : (K : Type 0) (k j : ℕ) (y : System) → Change K k j y y [] []
same_Change K k j y = record {
  queue = λ h. append-nil (queued k y.socket);
  account = omega arith;
  grows = ([], sym (append-nil (map view y.controller.added)));
  handed = omega arith;
  processed = tt;
}

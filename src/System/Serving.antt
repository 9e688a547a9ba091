-- ===== src/System/Serving.antt =====
-- The parts together: what the clients send, in any interleaving of all the threads.
use epoll_model.Prelude.{
  ℕ, ◌+◌, ◌≡◌, refl, List, [], ◌∷◌, ◌++◌, append-nil, append_assoc, length, ok, arith,
}
use epoll_model.Socket.{Call, Event}
use epoll_model.Socket.Receiving.{Received, arrived, arrived-same, Fits, later_Fits}
use epoll_model.TaskController.{Controller}
use epoll_model.TaskController.Stream.{AllFrames, concat, View}
use epoll_model.TaskController.Interleaving.{chunks_of, Stands, GoesOn}
use epoll_model.ThreadPool
use epoll_model.System.{System, Move, receives, hands_over, works, sends_for, listens_for, run}
use epoll_model.System.Changes.{IsSound, KeepsAll, Change, same_Change, then_Change}
use epoll_model.System.Moves.{Goes, hands_over-Goes, works-Goes, sends_for-Goes, listens_for-Goes}
use epoll_model.Socket.Events.{outputs, outputs-append}
use epoll_model.System.Desk.{Reach, here, Reach-trans}
use epoll_model.System.Refinement.{desk}
use epoll_model.System.Simulation.{move_Reach}
use epoll_model.System.Ordered.{AllOneWorker, IsOrdered, move-IsOrdered}
use epoll_model.System.Reception.{receives_lem}

-- The events that the receiving thread gets.
abbrev pub incoming : List Move → List (Event × Received)
incoming [] = []
incoming (receives e r ∷ ms) = (e, r) ∷ incoming ms
incoming (hands_over prompt ∷ ms) = incoming ms
incoming (works i ∷ ms) = incoming ms
incoming (sends_for e ∷ ms) = incoming ms
incoming (listens_for e a ∷ ms) = incoming ms

-- The bytes of client `k` that come with them.
abbrev pub from_client : ℕ → System → List Move → List (List ℕ)
from_client k y ms = chunks_of k (arrived y.socket (incoming ms))

module _ (streams : ℕ → List (List ℕ)) (frames : (k : ℕ) → AllFrames (streams k)) where
  -- A state from which all is well, and what comes of it.
  pub record Ready (old : ℕ → List View) (pos_of : ℕ → ℕ) (y : System) (ms : List Move)
      : Type 0 where
    pub sound : IsSound y
    pub fits : Fits (incoming ms)
    pub stands : (k : ℕ) → Stands streams frames (old k) k (pos_of k) y.controller
    pub goes_on : (k : ℕ) → GoesOn streams frames k (pos_of k) (arrived y.socket (incoming ms))

  pub record Runs (old : ℕ → List View) (pos_of : ℕ → ℕ) (y : System) (ms : List Move)
      : Type 0 where
    pub after : System
    pub calls : List Call
    pub events : List ThreadPool.Event
    pub goes : run y ms ≡ ok (after, calls, events)
    pub sound : IsSound after
    pub refines : Reach (desk y) (outputs calls) (desk after)
    pub ordered :
        (i : ℕ) (es : List ThreadPool.Event)
        → AllOneWorker i ms
        → IsOrdered i y es
        → IsOrdered i after (es ++ events)
    pub stands :
        (k : ℕ)
        → Stands streams frames
            (old k)
            k
            (pos_of k + length (concat (from_client k y ms)))
            after.controller
    pub changes : (k j : ℕ) → Change (KeepsAll k ms) k j y after calls events

  -- After a move the rest is ready, if the move is not the receiving thread's.
  quiet_Ready :
      (old : ℕ → List View) (pos_of : ℕ → ℕ) (y : System) (m : Move) (ms : List Move)
      (g : Goes y m y.controller)
      → incoming (m ∷ ms) ≡ incoming ms
      → Ready old pos_of y (m ∷ ms)
      → Ready old pos_of g.after ms
  quiet_Ready old pos_of y m ms g q r = record {
    sound = g.sound;
    fits = rw q at r.fits;
    stands = λ k. rw g.controller (r.stands k);
    goes_on = λ k.
        rw (arrived-same y.socket g.after.socket (incoming ms) g.setup.1) (rw q at (r.goes_on k));
  }

  then_Runs :
      (old : ℕ → List View) (pos_of place : ℕ → ℕ) (y : System) (m : Move) (ms : List Move)
      {ctl : Controller} (g : Goes y m ctl)
      → ((k : ℕ)
          → place k + length (concat (from_client k y ms))
            ≡ pos_of k + length (concat (from_client k y (m ∷ ms))))
      → IsSound y
      → Runs old place g.after ms
      → Runs old pos_of y (m ∷ ms)
  unfolding run
  then_Runs old pos_of place y m ms g end s r =
      let same = arrived-same y.socket g.after.socket (incoming ms) g.setup.1 in
      record {
        after = r.after;
        calls = g.calls ++ r.calls;
        events = g.events ++ r.events;
        goes = rw (g.goes, r.goes) refl;
        sound = r.sound;
        refines = rw (outputs-append g.calls r.calls) (Reach-trans (move_Reach y m g s) r.refines);
        ordered = λ i es one o.
            rw (← append_assoc es g.events r.events)
              (r.ordered i (es ++ g.events) one.1 (move-IsOrdered i y m g es s one.0 o));
        stands = λ k. rw (same, end k) at (r.stands k);
        changes = λ k j.
            then_Change _ _ k j y g.after r.after g.calls r.calls g.events r.events g.sound
              (g.changes k j) (r.changes k j);
      }

  quiet_Runs :
      (old : ℕ → List View) (pos_of : ℕ → ℕ) (y : System) (m : Move) (ms : List Move)
      (g : Goes y m y.controller)
      → incoming (m ∷ ms) ≡ incoming ms
      → IsSound y
      → Runs old pos_of g.after ms
      → Runs old pos_of y (m ∷ ms)
  quiet_Runs old pos_of y m ms g q s r = then_Runs old pos_of pos_of y m ms g (λ k. rw q refl) s r

  pub runs_lem :
      (ms : List Move) (old : ℕ → List View) (pos_of : ℕ → ℕ) (y : System)
      → Ready old pos_of y ms
      → Runs old pos_of y ms
  unfolding run chunks_of arrived
  runs_lem [] old pos_of y r = record {
    after = y;
    calls = [];
    events = [];
    goes = refl;
    sound = r.sound;
    refines = here;
    ordered = λ i es one o. rw (append-nil es) o;
    stands = λ k. let n0 : pos_of k + 0 ≡ pos_of k = omega arith in rw n0 (r.stands k);
    changes = λ k j. same_Change _ k j y;
  }
  runs_lem (receives e i ∷ ms) old pos_of y r =
      let v =
        receives_lem streams frames old pos_of y e i (incoming ms) r.sound r.fits r.stands
          r.goes_on in
      let g = v.made in
      then_Runs old pos_of v.place y (receives e i) ms g v.ends r.sound (
        runs_lem ms old v.place g.after (record {
          sound = g.sound;
          fits = later_Fits e i (incoming ms) r.fits;
          stands = λ k. rw g.controller (v.stands k);
          goes_on =
              λ k. rw (arrived-same y.socket g.after.socket (incoming ms) g.setup.1) (v.goes_on k);
        }))
  runs_lem (hands_over prompt ∷ ms) old pos_of y r =
      let g = hands_over-Goes y prompt r.sound in
      quiet_Runs old pos_of y _ ms g refl r.sound
        (runs_lem ms old pos_of g.after (quiet_Ready old pos_of y _ ms g refl r))
  runs_lem (works i ∷ ms) old pos_of y r =
      let g = works-Goes y i r.sound in
      quiet_Runs old pos_of y _ ms g refl r.sound
        (runs_lem ms old pos_of g.after (quiet_Ready old pos_of y _ ms g refl r))
  runs_lem (sends_for e ∷ ms) old pos_of y r =
      let g = sends_for-Goes y e r.sound in
      quiet_Runs old pos_of y _ ms g refl r.sound
        (runs_lem ms old pos_of g.after (quiet_Ready old pos_of y _ ms g refl r))
  runs_lem (listens_for e a ∷ ms) old pos_of y r =
      let g = listens_for-Goes y e a r.sound in
      quiet_Runs old pos_of y _ ms g refl r.sound
        (runs_lem ms old pos_of g.after (quiet_Ready old pos_of y _ ms g refl r))

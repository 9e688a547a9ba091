-- ===== src/System/Leads.antt =====
-- Moves that lead from a state to one with a property, without a byte more from any client.
use epoll_model.Prelude.{ℕ, ◌≡◌, refl, ◌∙◌, List, [], ◌∷◌, ◌++◌, ok}
use epoll_model.Socket.{Call}
use epoll_model.Socket.Queues.{SameSetup}
use epoll_model.TaskController.{Controller}
use epoll_model.ThreadPool
use epoll_model.ThreadPool.{adds, turn}
use epoll_model.System.{System, Move, run}
use epoll_model.System.Process.{SameSetup-trans}
use epoll_model.System.Changes.{IsSound, Keeps, KeepsAll}
use epoll_model.System.Moves.{Goes}
use epoll_model.System.Serving.{incoming}
use epoll_model.System.Runs.{incoming-append, KeepsAll-append, run-append}

-- Moves that lead from `y` to a state with `Q`: nothing is received, and client `k` is not hung up.
pub record Leads (k : ℕ) (y : System) (Q : System → Type 0) : Type 0 where
  pub more : List Move
  pub after : System
  pub calls : List Call
  pub events : List ThreadPool.Event
  pub goes : run y more ≡ ok (after, calls, events)
  pub silent : incoming more ≡ []
  pub keeps : KeepsAll k more
  pub setup : SameSetup y.socket after.socket
  pub sound : IsSound after
  pub reached : Q after

pub here_Leads : {Q : System → Type 0} (k : ℕ) (y : System) → IsSound y → Q y → Leads k y Q
unfolding run
here_Leads k y s q = record {
  more = [];
  after = y;
  calls = [];
  events = [];
  goes = refl;
  silent = refl;
  keeps = tt;
  setup = (refl, refl);
  sound = s;
  reached = q;
}

-- One move, and then others.
pub then_Leads :
    {Q : System → Type 0} (k : ℕ) (y : System) (m : Move) {ctl : Controller} (g : Goes y m ctl)
    → incoming (m ∷ []) ≡ []
    → Keeps k m
    → Leads k g.after Q
    → Leads k y Q
unfolding run
then_Leads k y m g silent keep l = record {
  more = m ∷ l.more;
  after = l.after;
  calls = g.calls ++ l.calls;
  events = g.events ++ l.events;
  goes = rw (g.goes, l.goes) refl;
  silent = incoming-append (m ∷ []) l.more ∙ rw (silent, l.silent) refl;
  keeps = (keep, l.keeps);
  setup = SameSetup-trans y.socket g.after.socket l.after.socket g.setup l.setup;
  sound = l.sound;
  reached = l.reached;
}

pub seq_Leads :
    {P Q : System → Type 0} (k : ℕ) (y : System) (l : Leads k y P) → Leads k l.after Q → Leads k y Q
seq_Leads k y l m = record {
  more = l.more ++ m.more;
  after = m.after;
  calls = l.calls ++ m.calls;
  events = l.events ++ m.events;
  goes = run-append l.more m.more y l.after m.after l.calls m.calls l.events m.events l.goes m.goes;
  silent = incoming-append l.more m.more ∙ rw (l.silent, m.silent) refl;
  keeps = KeepsAll-append k l.more m.more l.keeps m.keeps;
  setup = SameSetup-trans y.socket l.after.socket m.after.socket l.setup m.setup;
  sound = m.sound;
  reached = m.reached;
}

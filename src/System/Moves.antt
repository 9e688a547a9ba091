-- ===== src/System/Moves.antt =====
-- The moves of the workers, of the sending and of the listening thread, and the call of addTask.
use epoll_model.Prelude.{
  ℕ, ◌+◌, ◌≡◌, refl, sym, ◌∙◌, Bool, true, Bool-cases, inl, inr, List, [], ◌++◌, append-nil, map,
  length, ltb, ◌==◌, if◌then◌else◌, ok, ok_injective, arith,
}
use epoll_model.Socket.{Socket, Call, Event, AcceptAnswers, send_event, listen_event}
use epoll_model.Socket.Queues.{SameSetup, writable_step, send_event-keeps}
use epoll_model.Socket.Ops.{queued, sent}
use epoll_model.Socket.Loops.{listen_event-keeps, listen_event-queue}
use epoll_model.TaskController.{Controller}
use epoll_model.TaskController.Stream.{view}
use epoll_model.ThreadPool
use epoll_model.ThreadPool.{ThreadPool, adds, turn}
use epoll_model.ThreadPool.Custody.{act-held, add-held}
use epoll_model.ThreadPool.Given.{PoolGiven, PoolGiven-mono, add-PoolGiven, turn-PoolGiven}
use mathlib.Core.Path.{subst}
use epoll_model.System.{
  System, Move, After, hands_over, works, sends_for, listens_for, task_at, move,
}
use epoll_model.System.Process.{process_all_lem}
use epoll_model.System.Changes.{length-view, IsSound, Keeps, once, Change, same_Change}

-- What a move leads to, the state `ctl` of the controller among it.
pub record Goes (y : System) (m : Move) (ctl : Controller) : Type 0 where
  pub after : System
  pub calls : List Call
  pub events : List ThreadPool.Event
  pub goes : move y m ≡ ok (after, calls, events)
  pub setup : SameSetup y.socket after.socket
  pub controller : after.controller ≡ ctl
  pub sound : IsSound after
  pub changes : (k j : ℕ) → Change (Keeps k m) k j y after calls events

-- Where a move leads, told in two ways.
pub led_to :
    (P : After → Type 0) (y : System) (m : Move) {ctl : Controller} (g : Goes y m ctl) (r : After)
    → move y m ≡ ok r
    → P r
    → P (g.after, g.calls, g.events)
led_to P y m g r e = subst P (ok_injective r (g.after, g.calls, g.events) (sym e ∙ g.goes))

once-suc : (j n : ℕ) → once j (n + 1) ≡ once j n + (if n == j then 1 else 0)
once-suc j n = ground arith

-- The pool is given the next task of those that were made, or there is none.
pub hands_over-Goes :
    (y : System) (prompt : Bool) → IsSound y → Goes y (hands_over prompt) y.controller
unfolding move
hands_over-Goes y prompt s = elim (Bool-cases (ltb y.handed (length y.controller.added))) [
  | inr none_left ↦ record {
    after = y;
    calls = [];
    events = [];
    goes = rw none_left refl;
    setup = (refl, refl);
    controller = refl;
    sound = s;
    changes = λ k j. same_Change _ k j y;
  }
  | inl more ↦
      let a = adds (task_at y.handed) prompt in
      let n = length-view y.controller.added in
      let pool' = (ThreadPool.act y.pool a).0 in
      let y' : System = record y { pool = pool'; handed = y.handed + 1 } in
      let given : PoolGiven (y.handed + 1) pool' =
        add-PoolGiven (y.handed + 1) y.pool _ prompt
          (PoolGiven-mono y.handed (y.handed + 1) (omega arith) y.pool s.given)
          (record { worker = refl; known = omega arith }) in
      record {
        after = y';
        calls = [];
        events = [];
        goes = rw more refl;
        setup = (refl, refl);
        controller = refl;
        sound = record {
          whole = s.whole;
          given = given;
          made = ground arith;
          listening = s.listening;
        };
        changes = λ k j. record {
          queue = λ h. append-nil (queued k y.socket);
          account = omega (
            arith,
            add-held j y.pool (record { has_worker = true; param = y.handed }) prompt,
            once-suc j y.handed,
          );
          grows = ([], sym (append-nil (map view y.controller.added)));
          handed = omega arith;
          processed = tt;
        };
      }
]

-- A step of a worker: a request that it processes is answered into the queues.
pub works-Goes : (y : System) (i : ℕ) → IsSound y → Goes y (works i) y.controller
unfolding move
works-Goes y i s =
    let r = ThreadPool.act y.pool (turn i) in
    let (given, processed) = turn-PoolGiven y.handed y.pool i s.given in
    let (s', p', run, same, q) =
      process_all_lem y.controller.added r.1 y.socket y.statics s.whole in
    let y' : System = record y { socket = s'; statics = p'; pool = r.0 } in
    record {
      after = y';
      calls = [];
      events = r.1;
      goes = rw run refl;
      setup = same;
      controller = refl;
      sound = record {
        whole = s.whole;
        given = given;
        made = s.made;
        listening = same.0 ∙ s.listening;
      };
      changes = λ k j. record {
        queue = λ h. sym (q k);
        account = omega (arith, act-held j y.pool (turn i));
        grows = ([], sym (append-nil (map view y.controller.added)));
        handed = omega arith;
        processed = processed;
      };
    }

-- A move that changes the socket only.
socket_Goes :
    (y : System) (m : Move) (r : Socket × List Call)
    → IsSound y
    → move y m ≡ ok (record y { socket = r.0 }, r.1, [])
    → SameSetup y.socket r.0
    → ((k : ℕ) → Keeps k m → queued k y.socket ++ [] ≡ sent k r.1 ++ queued k r.0)
    → Goes y m y.controller
socket_Goes y m r s e same q = record {
  after = record y { socket = r.0 };
  calls = r.1;
  events = [];
  goes = e;
  setup = same;
  controller = refl;
  sound = record {
    whole = s.whole;
    given = s.given;
    made = s.made;
    listening = same.0 ∙ s.listening;
  };
  changes = λ k j. record {
    queue = q k;
    account = omega arith;
    grows = ([], sym (append-nil (map view y.controller.added)));
    handed = omega arith;
    processed = tt;
  };
}

pub sends_for-Goes : (y : System) (e : Event) → IsSound y → Goes y (sends_for e) y.controller
unfolding move
sends_for-Goes y e s =
    socket_Goes y (sends_for e) (send_event y.socket e) s refl (send_event-keeps y.socket e)
      (λ k h. writable_step k y.socket e)

pub listens_for-Goes :
    (y : System) (e : Event) (a : AcceptAnswers) → IsSound y → Goes y (listens_for e a) y.controller
unfolding move
listens_for-Goes y e a s =
    socket_Goes y (listens_for e a) (listen_event a y.socket e) s refl
      (listen_event-keeps a y.socket e) (λ k h. listen_event-queue k a y.socket e h)

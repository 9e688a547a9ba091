-- ===== src/Tests/Answered.antt =====
-- A client of a whole server: its request of a megabyte comes in in pieces of a whole buffer.
use epoll_model.Prelude.{
  ℕ, ◌+◌, ◌*◌, ◌≡◌, refl, sym, ap, ◌∙◌, inl, inr, Bool-cases, some, List, [], ◌∷◌, ◌++◌, map,
  append-nil, length, ◌==◌, if◌then◌else◌, pos, ok, ◌>>=◌, first_ok, ok_injective, arith,
}
use epoll_model.Memory.{u32, filled}
use epoll_model.Memory.Copies.{length-filled}
use epoll_model.Protocol.{initial}
use epoll_model.Protocol.Requests.{length-request_frame}
use epoll_model.Prelude.{false, ◌≢◌, lookup}
use epoll_model.TaskController.Processing.{api_return_data}
use epoll_model.TaskController.Processing.Answers.{response_for, length-api_return_data}
use epoll_model.Client.{ConnectAnswers, api1_result, create_client}
use epoll_model.Client.Connection.{whole_connection, length-response_frame}
use epoll_model.Socket.{Socket, Call}
use epoll_model.Socket.Ops.{sent}
use epoll_model.Socket.Receiving.{recv_event}
use epoll_model.TaskController.Stream.{AllFrames, concat}
use epoll_model.TaskController.Delivery.{IsSafe}
use epoll_model.TaskController.Interleaving.{listener}
use epoll_model.ThreadPool
use epoll_model.ThreadPool.{testing}
use epoll_model.ThreadPool.Draining.{IsAlive}
use epoll_model.RoundTrip.{request_of, request_of-IsFrame}
use epoll_model.System.{System, Move, After, receives, move, run}
use epoll_model.System.Serving.{incoming, from_client, Runs}
use epoll_model.System.Service.{fresh_Runs}
use epoll_model.System.Clients.{create_client_answered}
use epoll_model.Tests.Serving.{start, ready, start-IsFresh}
use epoll_model.Tests.Pieces.{
  pieces, AllPieces, concat-pieces, pieces-AllPieces, arrivals, arrivals-Fits, arrivals-KeepsAll,
  from-arrivals, pieces-IsSafe,
}

-- What comes in changes neither the pool nor the socket.
keep_pool :
    (cs : List (List ℕ)) (y y' : System) (calls : List Call) (events : List ThreadPool.Event)
    → run y (arrivals cs) ≡ ok (y', calls, events)
    → (y'.pool ≡ y.pool) × (y'.socket ≡ y.socket)
unfolding run move
keep_pool [] y y' calls events e =
    let q = ok_injective (y, [], []) (y', calls, events) e in
    (sym (ap (λ (r : After). r.0.pool) q), sym (ap (λ (r : After). r.0.socket) q))
keep_pool (c ∷ cs) y y' calls events e =
    let ((y1, c1, e1), got, more) =
      first_ok (move y (receives ready (some c)))
        (λ r. run r.0 (arrivals cs) >>= λ q. ok (q.0, r.1 ++ q.1, r.2 ++ q.2)) (y', calls, events)
        e in
    let (ctl, _, first) =
      first_ok (recv_event listener y.socket y.controller ready (some c))
        (λ ctl. ok (record y { controller = ctl }, [], [])) (y1, c1, e1) got in
    let (q, rest, last) =
      first_ok (run y1 (arrivals cs)) (λ q. ok (q.0, c1 ++ q.1, e1 ++ q.2)) (y', calls, events)
        more in
    let one = ok_injective (record y { controller = ctl }, [], []) (y1, c1, e1) first in
    let two = ok_injective (q.0, c1 ++ q.1, e1 ++ q.2) (y', calls, events) last in
    let (pool, socket) = keep_pool cs y1 q.0 q.1 q.2 rest in
    (
      sym (ap (λ (r : After). r.0.pool) two) ∙ pool ∙ sym (ap (λ (r : After). r.0.pool) one),
      sym (ap (λ (r : After). r.0.socket) two) ∙ socket ∙ sym (ap (λ (r : After). r.0.socket) one),
    )

abbrev streams : ℕ → List (List ℕ)
streams k = if 3 == k then request_of 0 ∷ [] else []

abbrev frame_pieces : List (List ℕ)
frame_pieces = pieces 33 (request_of 0)

length-request_of : length (request_of 0) ≡ 16 + 1024 * 1024
length-request_of = omega (
  arith,
  length-request_frame (u32 1) 0 (filled (1024 * 1024) b'A'),
  length-filled (1024 * 1024) b'A',
)

frame_pieces-AllPieces : AllPieces frame_pieces
frame_pieces-AllPieces =
    pieces-AllPieces 33 (request_of 0) (omega (arith, length-request_of))
      (omega (arith, length-request_of))

streams-AllFrames : (k : ℕ) → AllFrames (streams k)
streams-AllFrames k = elim (Bool-cases (3 == k)) [
  | inl mine ↦ rw mine (request_of-IsFrame 0, tt)
  | inr other ↦ rw other tt
]

pieces-streams :
    (f : List ℕ) (k : ℕ)
    → length f ≡ 16 + 1024 * 1024
    → concat (if 3 == k then pieces 33 f else []) ≡ concat (if 3 == k then f ∷ [] else [])
pieces-streams f k len = elim (Bool-cases (3 == k)) [
  | inl mine ↦ rw mine (concat-pieces 33 f (omega (arith, len)) ∙ sym (append-nil f))
  | inr other ↦ rw other refl
]

pieces-AllSafe :
    (f : List ℕ) (k : ℕ)
    → length f ≡ 16 + 1024 * 1024
    → IsSafe (if 3 == k then f ∷ [] else []) 0 (if 3 == k then pieces 33 f else [])
pieces-AllSafe f k len = elim (Bool-cases (3 == k)) [
  | inl mine ↦
      let all = pieces-AllPieces 33 f (omega (arith, len)) (omega (arith, len)) in
      let same = ap length (concat-pieces 33 f (omega (arith, len))) in
      rw mine (pieces-IsSafe f 0 (pieces 33 f) all (omega (arith, same)))
  | inr other ↦ rw other tt
]

from-pieces :
    (k : ℕ) → from_client k start (arrivals frame_pieces) ≡ (if 3 == k then frame_pieces else [])
from-pieces k = from-arrivals k frame_pieces frame_pieces-AllPieces

all_in : (k : ℕ) → concat (from_client k start (arrivals frame_pieces)) ≡ concat (streams k)
all_in k = rw (from-pieces k) (pieces-streams (request_of 0) k length-request_of)

arrivals-IsSafe : (k : ℕ) → IsSafe (streams k) 0 (from_client k start (arrivals frame_pieces))
arrivals-IsSafe k = rw (from-pieces k) (pieces-AllSafe (request_of 0) k length-request_of)

received : Runs streams streams-AllFrames (λ k. []) (λ k. 0) start (arrivals frame_pieces)
received =
    fresh_Runs start streams (arrivals frame_pieces) start-IsFresh streams-AllFrames
      (arrivals-Fits frame_pieces frame_pieces-AllPieces) all_in arrivals-IsSafe

start-IsAlive : (p : ThreadPool.ThreadPool) → p ≡ start.pool → IsAlive 0 p
start-IsAlive p e = rw e (record {
  thread = record { state = 1; pc = testing; free_time = 0 };
  there = refl;
  active = record { looping = refl; recent = omega arith };
  open_pool = refl;
})

kept : (received.after.pool ≡ start.pool) × (received.after.socket ≡ start.socket)
kept = keep_pool frame_pieces start received.after received.calls received.events received.goes

abbrev answers : ConnectAnswers
answers = record { created = pos 3; bound = pos 0; connected = pos 0; sent = pos 2 }

length-response : length (response_for 1 0) ≡ 1044
unfolding response_for
length-response =
    omega (arith, length-response_frame 1 0 (api_return_data b'A'), length-api_return_data b'A')

create_client_answered_example :
    (more : List Move) × (y2 : System) × (all_calls : List Call) × (all_events : List
      ThreadPool.Event)
    × (incoming more ≡ [])
    × (run start (arrivals frame_pieces ++ more) ≡ ok (y2, all_calls, all_events))
    × (sent 3 all_calls ≡ response_for 1 0 ∷ [])
    × (create_client initial answers (map some (response_for 1 0 ∷ []))
        ≡ ok (
          api1_result 0 (api_return_data b'A'),
          record { has_instance = false; msg_id = 1 },
          whole_connection (request_of 0),
        ))
unfolding lookup
create_client_answered_example =
    create_client_answered start received.after received.calls received.events streams
      (arrivals frame_pieces) 0 3 initial answers (response_for 1 0) [] start-IsFresh
      streams-AllFrames (arrivals-Fits frame_pieces frame_pieces-AllPieces) all_in arrivals-IsSafe
      (omega arith) (arrivals-KeepsAll frame_pieces) received.goes
      (start-IsAlive received.after.pool kept.0)
      (λ e. other_socket (sym (ap (λ (s : Socket). s.socket) kept.1) ∙ e)) refl refl
      (record { creating = refl; binding = refl; connecting = refl; sending = (refl, refl) })
      (append-nil (response_for 1 0)) (omega (arith, length-response))
      (omega (arith, length-response), omega (arith, length-response), tt)
  where
    other_socket : pos 4 ≢ pos 3
    other_socket e = cc

-- ===== src/Tests/Clients.antt =====
-- client/socketClient.cpp and client/clientMain.cpp at concrete inputs.
use epoll_model.Prelude.{
  map, ◌<◌, ◌≤◌, zero, suc, length, ℕ, ◌*◌, ◌≡◌, refl, Bool, none, some, List, [], ◌∷◌, pos, ok,
  arith,
}
use epoll_model.Memory.{filled, le_bytes, of_le, read_at, write_at, read_word}
use epoll_model.Protocol.{initial}
use epoll_model.Protocol.Frames.{request_frame}
use epoll_model.TaskController.Stream.{IsFrame}
use epoll_model.Client.{ConnectAnswers, recv_loop, do_connect, api1_result, create_client}
use epoll_model.Client.Connection.{Connects, whole_connection, do_connect-cut, create_client-frame}
use epoll_model.Client.Counting.Bounds.{AllBetween}
use epoll_model.Client.Counting.Fair.{turns_of}
use epoll_model.Client.Fleet.{Peer, AllRespond, world, start_clients, due, start_clients-due}

abbrev answers : ConnectAnswers
answers = record { created = pos 3; bound = pos 0; connected = pos 0; sent = pos 2 }

answers-Connects : Connects answers
answers-Connects = record {
  creating = refl;
  binding = refl;
  connecting = refl;
  sending = (refl, refl);
}

abbrev frame : List ℕ
frame = 6 ∷ 0 ∷ 0 ∷ 0 ∷ 1 ∷ 2 ∷ []

frame-IsFrame : IsFrame frame
unfolding of_le
frame-IsFrame = record { header = omega arith; announced = refl; small = omega arith }

do_connect-cut_example :
    do_connect answers (some (6 ∷ 0 ∷ 0 ∷ 0 ∷ []) ∷ some (1 ∷ []) ∷ some [] ∷ []) (1 ∷ 2 ∷ []) []
    ≡ ok (pos 0, 6 ∷ 0 ∷ 0 ∷ 0 ∷ 1 ∷ [], whole_connection (1 ∷ 2 ∷ []))
do_connect-cut_example =
    do_connect-cut answers (1 ∷ 2 ∷ []) [] (6 ∷ 0 ∷ 0 ∷ 0 ∷ []) ((1 ∷ []) ∷ []) [] answers-Connects
      (omega arith, (omega arith, tt)) (omega arith) (omega arith) (unfold of_le in omega arith)
      (unfold of_le in omega arith) (omega arith, omega arith, (omega arith, omega arith, tt))

abbrev response : List ℕ
response = 22 ∷ 0 ∷ 0 ∷ 0 ∷ 1 ∷ 0 ∷ 0 ∷ 0 ∷ 0 ∷ 0 ∷ 0 ∷ 0 ∷ 0 ∷ 0 ∷ 0 ∷ 0 ∷ 2 ∷ 0 ∷ 0 ∷ 0 ∷ 65 ∷ []

abbrev other_response : List ℕ
other_response =
    22 ∷ 0 ∷ 0 ∷ 0 ∷ 9 ∷ 0 ∷ 0 ∷ 0 ∷ 1 ∷ 0 ∷ 0 ∷ 0 ∷ 0 ∷ 0 ∷ 0 ∷ 0 ∷ 2 ∷ 0 ∷ 0 ∷ 0 ∷ 65 ∷ []

create_client-frame_example :
    create_client initial answers (some response ∷ some (66 ∷ []) ∷ [])
    ≡ ok (
      api1_result 0 (65 ∷ 66 ∷ []),
      record { has_instance = Bool.false; msg_id = 1 },
      whole_connection (request_frame 1 0 (filled (1024 * 1024) b'A')),
    )
create_client-frame_example =
    create_client-frame initial answers 1 0 (65 ∷ 66 ∷ []) response ((66 ∷ []) ∷ [])
      answers-Connects (omega arith) (omega arith) (omega arith) (unfold le_bytes in refl)
      (omega arith) (omega arith, omega arith, (omega arith, omega arith, tt))

-- Two clients, the first at the last message id.
abbrev peers : List Peer
peers =
    record {
      answers = answers;
      id = 9;
      cmd = 1;
      payload = 65 ∷ 66 ∷ [];
      first = other_response;
      others = (66 ∷ []) ∷ [];
    }
    ∷ record {
      answers = answers;
      id = 1;
      cmd = 0;
      payload = 65 ∷ 66 ∷ [];
      first = response;
      others = (66 ∷ []) ∷ [];
    }
    ∷ []

peers-AllRespond : AllRespond peers
unfolding le_bytes
peers-AllRespond = (
  record {
    connects = answers-Connects;
    small = (omega arith, omega arith, omega arith);
    pieces = refl;
    header = omega arith;
    fit = (omega arith, omega arith, (omega arith, omega arith, tt));
  },
  (
    record {
      connects = answers-Connects;
      small = (omega arith, omega arith, omega arith);
      pieces = refl;
      header = omega arith;
      fit = (omega arith, omega arith, (omega arith, omega arith, tt));
    },
    tt,
  ),
)

-- Both have their turns at the counter at the same time.
abbrev both_at_once : List ℕ
both_at_once = 0 ∷ 1 ∷ 0 ∷ 1 ∷ 0 ∷ 1 ∷ []

both_fair : (i : ℕ) → i < 2 → 3 ≤ turns_of i both_at_once
unfolding turns_of
both_fair zero h = omega arith
both_fair (suc zero) h = omega arith
both_fair (suc (suc i)) h = absurd (omega arith)

start_clients-due_example :
    (n : ℕ) × (got : List ℕ) × (start_clients 7 (map world peers) both_at_once
      ≡ ok (n, due got peers))
    × (length got ≡ 2)
    × AllBetween 7 9 got
start_clients-due_example =
    start_clients-due 7 peers both_at_once (omega arith) peers-AllRespond both_fair

-- A `recv` that fails is taken for one of 2^64 - 1 bytes, and doConnect returns 0 with no response.
test_failed_recv : recv_loop (none ∷ []) 0 [] ≡ ok []
unfolding recv_loop read_at write_at read_word of_le filled
test_failed_recv = refl

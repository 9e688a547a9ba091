-- ===== src/Tests/Serving.antt =====
-- The whole server at a concrete schedule.
use epoll_model.Prelude.{
  ℕ, ◌+◌, ◌≤◌, ◌≡◌, refl, inl, inr, Bool, true, false, Bool-cases, some, List, [], ◌∷◌, ◌++◌, map,
  length, ◌==◌, if◌then◌else◌, pos, ok, lookup, insert, erase, arith, Perm,
}
use epoll_model.Memory.{of_le, write_at, filled, read_word, read_at, new_char}
use epoll_model.Protocol.{initial, get_instance, parse_request}
use epoll_model.HexChar.{char_to_hex}
use epoll_model.Socket.{Event, Call, sends, send, send_event, recv_buffer}
use epoll_model.Socket.Ops.{queued, sent}
use epoll_model.Socket.Receiving.{arrived, Fits, recv_event}
use epoll_model.TaskController.{on_recv}
use epoll_model.TaskController.Stream.{AllFrames, offset, concat, view}
use epoll_model.TaskController.Delivery.{IsSafe}
use epoll_model.TaskController.Interleaving.{chunks_of, views_of}
use epoll_model.TaskController.Processing.{on_task_processor}
use epoll_model.TaskController.Processing.Answers.{response_for}
use epoll_model.ThreadPool
use epoll_model.ThreadPool.{ThreadPool, ThreadTask, testing, finishing, pops, processes}
use epoll_model.ThreadPool.Queue.{times_processed}
use epoll_model.ThreadPool.Custody.{held}
use epoll_model.ThreadPool.Given.{EventsGiven}
use epoll_model.System.{
  System, Move, receives, hands_over, works, sends_for, move, run, process_all,
}
use epoll_model.System.Process.{answers}
use epoll_model.System.Changes.{once}
use epoll_model.System.Serving.{incoming, from_client}
use epoll_model.System.Service.{IsFresh, run-serves}
use epoll_model.System.InOrder.{run-replies_in_order}
use epoll_model.System.Answered.{replies, run-replies}

-- One thread in the pool, and nothing received.
abbrev pub start : System
start = record {
  socket = record {
    has_listener = true;
    multi_thread = true;
    socket = pos 4;
    epfd = pos 5;
    has_threads = true;
    send_data_list = [];
  };
  controller = record { recv_list = []; added = [] };
  pool = record {
    tp_state = true;
    valid_thread_nums = 1;
    tasks = [];
    max_num = 8;
    min_num = 1;
    threads = record { state = 1; pc = testing; free_time = 0 } ∷ [];
  };
  statics = initial;
  handed = 0;
}

abbrev pub ready : Event
ready = record { fd = 3; err = false; hup = false; input = true; output = true }

-- A request of client 3 in two chunks, with any command below 256.
abbrev pub chunk : List ℕ
chunk = 17 ∷ 0 ∷ 0 ∷ 0 ∷ 6 ∷ 0 ∷ []

abbrev pub more : ℕ → List ℕ
more cmd = 0 ∷ 0 ∷ cmd ∷ 0 ∷ 0 ∷ 0 ∷ 1 ∷ 0 ∷ 0 ∷ 0 ∷ 7 ∷ []

-- It is received, given to the pool, processed and answered.
abbrev pub schedule : ℕ → List Move
schedule cmd =
    receives ready (some chunk)
    ∷ works 0
    ∷ receives ready (some (more cmd))
    ∷ hands_over true
    ∷ works 0
    ∷ works 0
    ∷ works 0
    ∷ sends_for ready
    ∷ []

abbrev pub streams : ℕ → ℕ → List (List ℕ)
streams cmd k = if 3 == k then (chunk ++ more cmd) ∷ [] else []

by_client : (P : ℕ → Bool → Type 0) → P 3 true → ((k : ℕ) → P k false) → (k : ℕ) → P k (3 == k)
by_client P three rest k = elim (Bool-cases (3 == k)) [
  | inl a ↦ let q : 3 ≡ k = ground arith in rw (← q) three
  | inr a ↦ rw a (rest k)
]

abbrev stream_by : ℕ → Bool → List (List ℕ)
stream_by cmd a = if a then (chunk ++ more cmd) ∷ [] else []

abbrev chunks_by : ℕ → Bool → List (List ℕ)
chunks_by cmd a =
    let second = if a then more cmd ∷ [] else [] in if a then chunk ∷ second else second

pub streams-AllFrames : (cmd k : ℕ) → AllFrames (streams cmd k)
unfolding of_le
streams-AllFrames cmd =
    by_client (λ k a. AllFrames (stream_by cmd a))
      (record { header = omega arith; announced = refl; small = omega arith }, tt) (λ k. tt)

pub chunks-streams :
    (cmd k : ℕ) → concat (from_client k start (schedule cmd)) ≡ concat (streams cmd k)
unfolding chunks_of arrived
chunks-streams cmd =
    by_client (λ k a. concat (chunks_by cmd a) ≡ concat (stream_by cmd a)) refl (λ k. refl)

pub chunks-IsSafe : (cmd k : ℕ) → IsSafe (streams cmd k) 0 (from_client k start (schedule cmd))
unfolding chunks_of arrived offset
chunks-IsSafe cmd =
    by_client (λ k a. IsSafe (stream_by cmd a) 0 (chunks_by cmd a))
      (omega arith, omega arith, inr (omega arith), (omega arith, omega arith, inl refl, tt))
      (λ k. tt)

pub start-IsFresh : IsFresh start
unfolding lookup
start-IsFresh = record {
  listening = refl;
  no_parts = λ k. refl;
  none_made = refl;
  none_given = refl;
  none_waiting = refl;
  free = (refl, tt);
}

pub schedule-Fits : (cmd : ℕ) → Fits (incoming (schedule cmd))
schedule-Fits cmd = (omega arith, (omega arith, tt))

run-serves_example :
    (y' : System) × (calls : List Call) × (events : List ThreadPool.Event) × (run start (schedule 0)
      ≡ ok (y', calls, events))
    × (views_of 3 (map view y'.controller.added) ≡ (3, chunk ++ more 0, 17) ∷ [])
    × ((j : ℕ) → times_processed j events + held j y'.pool ≡ once j y'.handed)
    × (queued 3 start.socket ++ answers 3 (map view y'.controller.added) events
        ≡ sent 3 calls ++ queued 3 y'.socket)
    × (y'.handed ≤ length (map view y'.controller.added))
    × EventsGiven y'.handed events
run-serves_example =
    run-serves start (streams 0) (schedule 0) 3 start-IsFresh (streams-AllFrames 0)
      (schedule-Fits 0) (chunks-streams 0) (chunks-IsSafe 0)
      (tt, (tt, (tt, (tt, (tt, (tt, (tt, (tt, tt))))))))

-- The state at the end, for an unknown command: the response is an empty message.
abbrev end : System
end = record {
  socket = record start.socket { send_data_list = (3, []) ∷ [] };
  controller = record {
    recv_list = [];
    added = record { client_id = 3; databuf = chunk ++ more 9; len = 17; cur_len = 6 } ∷ [];
  };
  pool = record start.pool { threads = record { state = 2; pc = finishing; free_time = 0 } ∷ [] };
  statics = get_instance initial;
  handed = 1;
}

abbrev pub one_task : ThreadTask
one_task = record { has_worker = true; param = 0 }

run-end :
    run start (schedule 9)
    ≡ ok (end, sends (pos 3) [] ∷ [], pops (some one_task) ∷ processes one_task ∷ [])
unfolding run move process_all recv_event on_recv on_task_processor send_event ThreadPool.act
    recv_buffer write_at filled lookup read_word read_at of_le new_char insert parse_request
    char_to_hex send erase
run-end = refl

run-replies_example :
    Perm
      (sent 3 (sends (pos 3) [] ∷ []) ++ queued 3 end.socket)
      (queued 3 start.socket ++ replies (streams 9 3))
run-replies_example =
    run-replies start end (sends (pos 3) [] ∷ []) (pops (some one_task) ∷ processes one_task ∷ [])
      (streams 9) (schedule 9) 3 start-IsFresh (streams-AllFrames 9) (schedule-Fits 9)
      (chunks-streams 9) (chunks-IsSafe 9) (omega arith)
      (tt, (tt, (tt, (tt, (tt, (tt, (tt, (tt, tt)))))))) run-end
      (record { all_given = refl; none_waiting = refl; free = (refl, tt) })

-- What the client gets is an empty message.
test_replies : replies (streams 9 3) ≡ [] ∷ []
unfolding of_le response_for
test_replies = refl

run-replies_in_order_example :
    sent 3 (sends (pos 3) [] ∷ []) ++ queued 3 end.socket
    ≡ queued 3 start.socket ++ replies (streams 9 3)
run-replies_in_order_example =
    run-replies_in_order start end (sends (pos 3) [] ∷ [])
      (pops (some one_task) ∷ processes one_task ∷ []) (streams 9) (schedule 9) 0 3 start-IsFresh
      (streams-AllFrames 9) (schedule-Fits 9) (chunks-streams 9) (chunks-IsSafe 9) (omega arith)
      (tt, (tt, (tt, (tt, (tt, (tt, (tt, (tt, tt))))))))
      (tt, (refl, (tt, (tt, (refl, (refl, (refl, (tt, tt)))))))) run-end
      (record { all_given = refl; none_waiting = refl; free = (refl, tt) })

-- ===== src/Tests/Requests.antt =====
-- server/taskController.cpp at concrete inputs.
use epoll_model.Prelude.{
  stuck, ◌++◌, ℕ, true, false, Bool-cases, if◌then◌else◌, ◌==◌, ◌≡◌, refl, Bool, inl, inr, none,
  some, List, [], ◌∷◌, ◌++◌, length, map, pos, ok, lookup, arith,
}
use epoll_model.Memory.{of_le, le_bytes}
use epoll_model.Protocol.Frames.{request_frame}
use epoll_model.Socket.{Socket, socket_base, set_listener, Event}
use epoll_model.Socket.Receiving.{Received, recv_events, arrived}
use epoll_model.TaskController.{TaskData, Controller, make_new_task, on_recv}
use epoll_model.TaskController.Stream.{AllFrames, offset, concat, view, frame_view}
use epoll_model.TaskController.Delivery.{IsSafe}
use epoll_model.TaskController.Interleaving.{listener, chunks_of, views_of}
use epoll_model.TaskController.Reception.{recv_events-frames}
use epoll_model.Prelude.{Option, take, length}
use epoll_model.Socket.Receiving.{thread_recv_fun, feed_all, behind}
use epoll_model.Socket.Threads.{until_error, thread_recv_fun-feed}
use epoll_model.TaskController.CutHeader.{on_recv-cut_header}
use epoll_model.TaskController.Malformed.{make_new_task-zero}

-- Two frames, in three chunks, of which the second begins inside the first frame and ends behind
-- the length of the second.
abbrev frames : List (List ℕ)
frames = (6 ∷ 0 ∷ 0 ∷ 0 ∷ 1 ∷ 2 ∷ []) ∷ (5 ∷ 0 ∷ 0 ∷ 0 ∷ 9 ∷ []) ∷ []

abbrev chunks : List (List ℕ)
chunks = (6 ∷ 0 ∷ 0 ∷ 0 ∷ 1 ∷ []) ∷ (2 ∷ 5 ∷ 0 ∷ 0 ∷ 0 ∷ []) ∷ (9 ∷ []) ∷ []

abbrev junk : List ℕ → List ℕ
junk x = 77 ∷ []

abbrev idle : Controller
idle = record { recv_list = []; added = [] }

frames-AllFrames : AllFrames frames
unfolding of_le
frames-AllFrames = (
  record { header = omega arith; announced = refl; small = omega arith },
  (record { header = omega arith; announced = refl; small = omega arith }, tt),
)

chunks-IsSafe : IsSafe frames 0 chunks
unfolding offset
chunks-IsSafe = (
  omega arith,
  omega arith,
  inr (omega arith),
  (omega arith, omega arith, inr (omega arith), (omega arith, omega arith, inl refl, tt)),
)

abbrev socket : Socket
socket = socket_base Bool.true (pos 4)

abbrev listening : Socket
listening = set_listener socket

abbrev input : ℕ → Event
input fd = record { fd = fd; err = false; hup = false; input = true; output = true }

-- The chunks of client 3, between them a frame of client 5 and a failure of `recv`.
abbrev events : List (Event × Received)
events =
    (input 3, some (6 ∷ 0 ∷ 0 ∷ 0 ∷ 1 ∷ []))
    ∷ (input 5, some (5 ∷ 0 ∷ 0 ∷ 0 ∷ 8 ∷ []))
    ∷ (input 3, some (2 ∷ 5 ∷ 0 ∷ 0 ∷ 0 ∷ []))
    ∷ (input 5, none)
    ∷ (input 3, some (9 ∷ []))
    ∷ []

abbrev streams : ℕ → List (List ℕ)
streams k = if 3 == k then frames else if 5 == k then (5 ∷ 0 ∷ 0 ∷ 0 ∷ 8 ∷ []) ∷ [] else []

-- A statement on every client holds if it holds for these two and for one that sends nothing.
by_client :
    (P : ℕ → Bool → Bool → Type 0)
    → P 3 true false
    → P 5 false true
    → ((k : ℕ) → P k false false)
    → (k : ℕ) → P k (3 == k) (5 == k)
by_client P three five rest k = elim (Bool-cases (3 == k)) [
  | inl a ↦ let q : 3 ≡ k = ground arith in rw (← q) three
  | inr a ↦ elim (Bool-cases (5 == k)) [
    | inl b ↦ let q : 5 ≡ k = ground arith in rw (← q) five
    | inr b ↦ rw (a, b) (rest k)
  ]
]

abbrev stream_by : Bool → Bool → List (List ℕ)
stream_by a b = if a then frames else if b then (5 ∷ 0 ∷ 0 ∷ 0 ∷ 8 ∷ []) ∷ [] else []

streams-AllFrames : (k : ℕ) → AllFrames (streams k)
unfolding of_le
streams-AllFrames =
    by_client (λ k a b. AllFrames (stream_by a b)) frames-AllFrames
      (record { header = omega arith; announced = refl; small = omega arith }, tt) (λ k. tt)

-- The chunks of a client, by whether it is client 3 and whether it is client 5.
abbrev chunks_by : Bool → Bool → List (List ℕ)
chunks_by a b =
    let last = if a then (9 ∷ []) ∷ [] else [] in
    let third = if a then (2 ∷ 5 ∷ 0 ∷ 0 ∷ 0 ∷ []) ∷ last else last in
    let second = if b then (5 ∷ 0 ∷ 0 ∷ 0 ∷ 8 ∷ []) ∷ third else third in
    if a then (6 ∷ 0 ∷ 0 ∷ 0 ∷ 1 ∷ []) ∷ second else second

chunks-streams : (k : ℕ) → concat (chunks_of k (arrived listening events)) ≡ concat (streams k)
unfolding chunks_of arrived set_listener socket_base
chunks-streams =
    by_client (λ k a b. concat (chunks_by a b) ≡ concat (stream_by a b)) refl refl (λ k. refl)

chunks_of-IsSafe : (k : ℕ) → IsSafe (streams k) 0 (chunks_of k (arrived listening events))
unfolding chunks_of arrived set_listener socket_base offset
chunks_of-IsSafe =
    by_client (λ k a b. IsSafe (stream_by a b) 0 (chunks_by a b)) chunks-IsSafe
      (omega arith, omega arith, inl refl, tt) (λ k. tt)

recv_events-frames_example :
    (ctl' : Controller) × (recv_events listener listening idle events ≡ ok ctl')
    × ((k : ℕ) → views_of k (map view ctl'.added) ≡ views_of k [] ++ map (frame_view k) (streams k))
    × ((k : ℕ) → lookup k ctl'.recv_list ≡ none)
unfolding lookup set_listener
recv_events-frames_example =
    recv_events-frames listening streams events idle refl
      (omega arith, (omega arith, (omega arith, (omega arith, tt)))) streams-AllFrames
      chunks-streams chunks_of-IsSafe (λ k. refl)

abbrev task : TaskData
task = record { client_id = 3; databuf = request_frame 6 1 (7 ∷ []); len = 17; cur_len = 0 }

task_len : 17 ≡ length (request_frame 6 1 (7 ∷ []))
task_len = unfold le_bytes in refl

abbrev short_task : TaskData
short_task = record { client_id = 3; databuf = 5 ∷ 0 ∷ 0 ∷ 0 ∷ 9 ∷ []; len = 5; cur_len = 0 }

make_new_task-zero_example : make_new_task 9 idle 3 ((0 ∷ 0 ∷ 0 ∷ 0 ∷ 1 ∷ []) ++ 77 ∷ []) 5 ≡ stuck
make_new_task-zero_example =
    make_new_task-zero 9 idle 3 (0 ∷ 0 ∷ 0 ∷ 0 ∷ 1 ∷ []) (77 ∷ []) (unfold lookup in refl)
      (omega arith) (unfold of_le in refl)

-- The first byte of a message that announces 300 bytes: 44 are expected.
on_recv-cut_header_example :
    (ctl' : Controller) × (t : TaskData) × (on_recv idle 3 ((44 ∷ []) ++ behind (44 ∷ [])) 1
      ≡ ok ctl')
    × (ctl'.added ≡ [])
    × (lookup 3 ctl'.recv_list ≡ some t)
    × (t.len ≡ 44)
    × (t.cur_len ≡ 1)
    × (take 1 t.databuf ≡ 44 ∷ [])
    × (length t.databuf ≡ t.len)
unfolding lookup of_le
on_recv-cut_header_example =
    on_recv-cut_header idle 3 (44 ∷ []) refl (omega arith) (omega arith) (omega arith)

abbrev batches : List (Option (List (Event × Received)))
batches = some events ∷ some [] ∷ none ∷ some ((input 3, some (1 ∷ [])) ∷ []) ∷ []

thread_recv_fun-feed_example :
    thread_recv_fun listener listening idle batches
    ≡ feed_all listener idle (arrived listening (events ++ []))
unfolding set_listener until_error
thread_recv_fun-feed_example =
    thread_recv_fun-feed listener listening idle batches refl
      (omega arith, (omega arith, (omega arith, (omega arith, tt))))

-- ===== src/System/Clients.antt =====
-- A client of the server, from its request to what it logs.
use native.Mathlib.Nat.{ℕ_set}
use mathlib.Core.List.{is_set}
use epoll_model.Prelude.{
  ℕ, ◌+◌, ◌*◌, ◌≤◌, ◌<◌, ◌≡◌, ◌≢◌, refl, ◌∙◌, some, List, [], ◌∷◌, ◌++◌, map, length, pos,
  le→ltb_false, ok, arith, Perm,
}
use epoll_model.Prelude.Single.{Perm-single}
use epoll_model.Memory.{u32, filled}
use epoll_model.Memory.Copies.{length-filled}
use epoll_model.Protocol.{Statics}
use epoll_model.Protocol.Codec.Words.{frame_words}
use epoll_model.Protocol.Requests.{length-request_frame}
use epoll_model.Socket.{Call}
use epoll_model.Socket.Ops.{queued, sent}
use epoll_model.Socket.Receiving.{Fits}
use epoll_model.TaskController.Stream.{AllFrames, concat}
use epoll_model.TaskController.Delivery.{IsSafe}
use epoll_model.TaskController.Processing.{api_return_data}
use epoll_model.TaskController.Processing.Answers.{response_for, length-api_return_data}
use epoll_model.ThreadPool
use epoll_model.ThreadPool.Draining.{IsAlive}
use epoll_model.Client.{ConnectAnswers, api1_result, create_client}
use epoll_model.Client.Collect.{AllFit}
use epoll_model.Client.Connection.{Connects, whole_connection, create_client-frame}
use epoll_model.RoundTrip.{request_of}
use epoll_model.System.{System, Move, run}
use epoll_model.System.Changes.{KeepsAll}
use epoll_model.System.Serving.{incoming, from_client}
use epoll_model.System.Service.{IsFresh}
use epoll_model.System.Answered.{replies}
use epoll_model.System.Finished.{run-finishes}

-- The one response that the request of createClient calls for.
replies-request : (n : ℕ) → replies (request_of n ∷ []) ≡ response_for (u32 (n + 1)) 0 ∷ []
replies-request n =
    let cmddata = filled (1024 * 1024) b'A' in
    let size = length-filled (1024 * 1024) b'A' in
    let f = request_of n in
    let len = length-request_frame (u32 (n + 1)) 0 cmddata in
    let (_, id, cmd, _, _) =
      frame_words (u32 (n + 1)) 0 cmddata (omega arith) (omega arith) (omega (arith, size)) in
    rw (le→ltb_false (length f) 16 (omega (arith, len)), id, cmd) refl

-- A client in its place among any others. The whole server runs from its start, in any interleaving of the
-- steps of its threads; each client's bytes are a stream of frames, cut nowhere inside the first four bytes
-- of a frame, and no chunk is longer than the buffer. Client `k` sends what createClient sends, and nothing
-- waits for it at the start. When all bytes have come in and a thread of the pool is in its loop and was
-- not idle for long, the server can finish by its own moves, with nothing received: the kernel then got for
-- client `k` the response to its request, and nothing else. A client whose calls succeed and that gets this
-- response in any pieces of at most one buffer, the first with its length field, has sent the request, and
-- logs the result 0 and 1024 times 'A'. The client's descriptor is positive and not that of the socket
-- itself, and it is not hung up.
pub create_client_answered :
    (y y1 : System) (calls : List Call) (events : List ThreadPool.Event)
    (streams : ℕ → List (List ℕ)) (ms : List Move) (i k : ℕ) (mine : Statics) (a : ConnectAnswers)
    (c : List ℕ) (cs : List (List ℕ))
    → IsFresh y
    → ((k : ℕ) → AllFrames (streams k))
    → Fits (incoming ms)
    → ((k : ℕ) → concat (from_client k y ms) ≡ concat (streams k))
    → ((k : ℕ) → IsSafe (streams k) 0 (from_client k y ms))
    → 0 < k
    → KeepsAll k ms
    → run y ms ≡ ok (y1, calls, events)
    → IsAlive i y1.pool
    → y1.socket.socket ≢ pos k
    → streams k ≡ request_of mine.msg_id ∷ []
    → queued k y.socket ≡ []
    → Connects a
    → c ++ concat cs ≡ response_for (u32 (mine.msg_id + 1)) 0
    → 4 ≤ length c
    → AllFit (c ∷ cs)
    → (more : List Move) × (y2 : System) × (all_calls : List Call) × (all_events : List
        ThreadPool.Event)
      × (incoming more ≡ [])
      × (run y (ms ++ more) ≡ ok (y2, all_calls, all_events))
      × (sent k all_calls ≡ response_for (u32 (mine.msg_id + 1)) 0 ∷ [])
      × (create_client mine a (map some (c ∷ cs))
          ≡ ok (
            api1_result 0 (api_return_data b'A'),
            record mine { msg_id = u32 (mine.msg_id + 1) },
            whole_connection (request_of mine.msg_id),
          ))
create_client_answered y y1 calls events streams ms i k mine a c cs f frames fit all cuts h keeps
      goes alive ne own none_queued conn answered header small =
    let next = u32 (mine.msg_id + 1) in
    let (more, y2, all_calls, all_events, silent, whole, _, _, got) =
      run-finishes y y1 calls events streams ms i k f frames fit all cuts h keeps goes alive ne in
    let due : Perm (sent k all_calls) (response_for next 0 ∷ []) =
      rw (none_queued, own, replies-request mine.msg_id) at got in
    let n_answer = length-api_return_data b'A' in
    (
      more,
      y2,
      all_calls,
      all_events,
      silent,
      whole,
      Perm-single (response_for next 0) (is_set ℕ_set) due,
      create_client-frame mine a next 0 (api_return_data b'A') c cs conn (omega arith) (omega arith)
          (omega arith) (answered ∙ (unfold response_for in refl)) header small,
    )

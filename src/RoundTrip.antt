-- ===== src/RoundTrip.antt =====
-- From createClient of client/clientMain.cpp through the server and back.
use epoll_model.Prelude.{
  ℕ, ◌+◌, ◌*◌, ◌≤◌, ◌≡◌, refl, sym, ap, ◌∙◌, none, some, List, [], ◌∷◌, ◌++◌, append-nil, map,
  length, lookup, ok, arith,
}
use epoll_model.Memory.{u32, filled}
use epoll_model.Memory.Copies.{length-filled}
use epoll_model.Memory.Words.{of_le-le_bytes}
use epoll_model.Protocol.{Statics, get_instance}
use epoll_model.Protocol.Frames.{request_frame}
use epoll_model.Protocol.Requests.{length-request_frame}
use epoll_model.Socket.{Socket}
use epoll_model.Socket.Ops.{queued, given_by, sending}
use epoll_model.TaskController.{TaskData, Controller, receive_all}
use epoll_model.TaskController.Stream.{IsFrame, concat, View, view, frame_view}
use epoll_model.TaskController.Delivery.{IsSafe, receive_all-frames}
use epoll_model.TaskController.Processing.{api_return_data, on_task_processor}
use epoll_model.TaskController.Processing.Answers.{
  response_for, on_task_processor-frame, length-api_return_data,
}
use epoll_model.Client.{ConnectAnswers, api1_result, create_client}
use epoll_model.Client.Collect.{AllFit}
use epoll_model.Client.Connection.{Connects, whole_connection, create_client-frame}

-- The request of a client whose counter stands at `n`.
abbrev pub request_of : ℕ → List ℕ
request_of n = request_frame (u32 (n + 1)) 0 (filled (1024 * 1024) b'A')

pub request_of-IsFrame : (n : ℕ) → IsFrame (request_of n)
request_of-IsFrame n =
    let cmddata = filled (1024 * 1024) b'A' in
    let n_data = length-filled (1024 * 1024) b'A' in
    let lf = length-request_frame (u32 (n + 1)) 0 cmddata in
    record {
      header = omega arith;
      announced = of_le-le_bytes (16 + length cmddata) _ (omega arith) ∙ sym lf;
      small = omega arith;
    }

only_task :
    (ts : List TaskData) (v : View)
    → map view ts ≡ v ∷ []
    → (t : TaskData) × (ts ≡ t ∷ []) × (view t ≡ v)
only_task [] v e = absurd (omega (arith, ap length e))
only_task (t ∷ []) v e = let q : view t ≡ v = cc in (t, refl, q)
only_task (t ∷ u ∷ ts) v e = absurd (omega (arith, ap length e))

-- A client of the server sends the request of createClient, and the transport brings it in any
-- pieces, none of which ends inside its first four bytes. Then onRecv makes one task of it; the worker
-- that processes this task puts one response at the end of this client's queue, with the request's
-- id; and a client that gets this response in any pieces of at most one buffer, the first with its
-- length field, logs the result 0 and 1024 times 'A'.
pub round_trip :
    (after : List ℕ → List ℕ) (client : ℕ) (ctl : Controller) (s : Socket) (server mine : Statics)
    (a : ConnectAnswers) (chunks : List (List ℕ)) (c : List ℕ) (cs : List (List ℕ))
    → ctl.added ≡ []
    → lookup client ctl.recv_list ≡ none
    → concat chunks ≡ request_of mine.msg_id
    → IsSafe (request_of mine.msg_id ∷ []) 0 chunks
    → Connects a
    → c ++ concat cs ≡ response_for (u32 (mine.msg_id + 1)) 0
    → 4 ≤ length c
    → AllFit (c ∷ cs)
    → (ctl' : Controller) × (t : TaskData) × (s' : Socket) × (receive_all after ctl client chunks
        ≡ ok ctl')
      × (ctl'.added ≡ t ∷ [])
      × (on_task_processor (some s) server (some t) ≡ ok (some s', get_instance server))
      × ((k : ℕ)
          → queued k s'
            ≡ queued k s ++ given_by k (sending client (response_for (u32 (mine.msg_id + 1)) 0)))
      × (create_client mine a (map some (c ∷ cs))
          ≡ ok (
            api1_result 0 (api_return_data b'A'),
            record mine { msg_id = u32 (mine.msg_id + 1) },
            whole_connection (request_of mine.msg_id),
          ))
round_trip after client ctl s server mine a chunks c cs none_yet free all cuts conn answered header
      fit =
    let f = request_of mine.msg_id in
    let next = u32 (mine.msg_id + 1) in
    let cmddata = filled (1024 * 1024) b'A' in
    let n_data = length-filled (1024 * 1024) b'A' in
    let (ctl', run, views, _, _) =
      receive_all-frames after client (f ∷ []) (request_of-IsFrame mine.msg_id, tt) chunks ctl
        (all ∙ sym (append-nil f)) cuts free in
    let (t, only, seen) =
      only_task ctl'.added (frame_view client f)
        (views ∙ ap (λ (x : List TaskData). map view x ++ frame_view client f ∷ []) none_yet) in
    let databuf : t.databuf ≡ f = ap (λ (v : View). v.1) seen in
    let len : t.len ≡ length t.databuf = ap (λ (v : View). v.2) seen ∙ ap length (sym databuf) in
    let of_client : t.client_id ≡ client = ap (λ (v : View). v.0) seen in
    let (s', done, queues) =
      on_task_processor-frame s server t next 0 cmddata databuf len (omega arith) (omega arith)
        (omega arith) in
    let n_answer = length-api_return_data b'A' in
    (
      ctl',
      t,
      s',
      run,
      only,
      done,
      λ k.
          queues k
          ∙ ap (λ (j : ℕ). queued k s ++ given_by k (sending j (response_for next 0))) of_client,
      create_client-frame mine a next 0 (api_return_data b'A') c cs conn (omega arith) (omega arith)
          (omega arith) (answered ∙ (unfold response_for in refl)) header fit,
    )

-- ===== src/TaskController/Processing/Answers.antt =====
-- What onTaskProcessor sends for a request.
use epoll_model.Prelude.{
  ℕ, ◌+◌, ◌*◌, ◌<◌, ◌^◌, ◌≡◌, refl, sym, ap, Bool-cases, inl, inr, Option, some, List, [], ◌++◌,
  append-nil, length, take-all, ◌==◌, if◌then◌else◌, ok, arith,
}
use epoll_model.Prelude.{take, drop, ltb, lt→ltb, le→ltb_false}
use native.Mathlib.Decide.{dec_lt}
use epoll_model.Memory.{of_le, le_bytes, filled}
use epoll_model.Memory.Copies.{length-filled}
use epoll_model.HexChar.Encode.{
  AllBytes, AllBytes-append, AllBytes-le_bytes, AllBytes-filled, char_to_hex_lem,
}
use epoll_model.Protocol.{ApiCommand, api1, api2, command_code, Statics, get_instance}
use epoll_model.Protocol.Frames.{request_frame, response_frame}
use epoll_model.Protocol.Requests.{parse_request-frame, length-request_frame}
use epoll_model.Protocol.Responses.{make_api_response_lem}
use epoll_model.Protocol.Limits.{parse_request_total}
use epoll_model.Socket.{Socket}
use epoll_model.Socket.Queues.{send-keeps, SameSetup}
use epoll_model.Socket.Ops.{sending, queued, given_by}
use epoll_model.TaskController.{TaskData}
use epoll_model.TaskController.Stream.{View, view}
use epoll_model.TaskController.Processing.{
  api_return_data, reply, answer, respond, no_request, on_task_processor,
}

AllBytes-response :
    (id cmd : ℕ) (payload : List ℕ) → AllBytes payload → AllBytes (response_frame id cmd payload)
AllBytes-response id cmd payload a =
    AllBytes-append (le_bytes (20 + length payload)) _ (AllBytes-le_bytes _) (
      AllBytes-append (le_bytes id) _ (AllBytes-le_bytes _) (
        AllBytes-append (le_bytes cmd) _ (AllBytes-le_bytes _) (
          AllBytes-append (le_bytes 0) _ (AllBytes-le_bytes _)
            (AllBytes-append (le_bytes (length payload)) _ (AllBytes-le_bytes _) a))))

pub length-api_return_data : (letter : ℕ) → length (api_return_data letter) ≡ 1024
unfolding api_return_data
length-api_return_data letter = length-filled 1024 letter

AllBytes-api_return_data : (letter : ℕ) → letter < 256 → AllBytes (api_return_data letter)
unfolding api_return_data
AllBytes-api_return_data letter h = AllBytes-filled 1024 letter h

-- The response that the protocol promises for a command.
unfoldable pub response_for : ℕ → ℕ → List ℕ
response_for id cmd =
    if cmd == 0
    then response_frame id 0 (api_return_data b'A')
    else if cmd == 1
    then response_frame id 1 (api_return_data b'B')
    else []

reply_lem :
    (id : ℕ) (cmd : ApiCommand) (letter : ℕ)
    → reply id cmd letter ≡ ok (response_frame id (command_code cmd) (api_return_data letter))
unfolding reply
reply_lem id cmd letter =
    let payload = api_return_data letter in
    let n = length-api_return_data letter in
    rw (make_api_response_lem id cmd payload [] 1024 (omega arith) (omega arith)) (
      ap (λ (x : List ℕ). ok (response_frame id (command_code cmd) x))
        (take-all 1024 payload (sym n)))

pub answer_lem :
    (id cmd : ℕ) → (answer id cmd ≡ ok (response_for id cmd)) × AllBytes (response_for id cmd)
unfolding answer response_for
answer_lem id cmd = elim (Bool-cases (cmd == 0)) [
  | inl first ↦ rw first (
    reply_lem id api1 b'A',
    AllBytes-response id 0 (api_return_data b'A') (AllBytes-api_return_data b'A' (omega arith)),
  )
  | inr other ↦ rw other (elim (Bool-cases (cmd == 1)) [
    | inl second ↦ rw second (
      reply_lem id api2 b'B',
      AllBytes-response id 1 (api_return_data b'B') (AllBytes-api_return_data b'B' (omega arith)),
    )
    | inr neither ↦ rw neither (refl, tt)
  ])
]

respond_lem :
    (s : Socket) (client : ℕ) (resp : List ℕ)
    → AllBytes resp
    → (s' : Socket) × (respond s client resp ≡ ok (some s'))
      × SameSetup s s'
      × ((k : ℕ) → queued k s' ≡ queued k s ++ given_by k (sending client resp))
unfolding respond
respond_lem s client resp a =
    let n = length-filled (2 * length resp + 1) 0 in
    let e = char_to_hex_lem resp [] (filled (2 * length resp + 1) 0) a (omega arith) in
    let (s', e', same, q) = send-keeps s client resp in
    (s', rw ((rw append-nil at e), e') refl, same, q)

-- A request frame with any command, reassembled into a task of client `client`, is answered by one
-- message put at the end of that client's queue, whatever else is queued: the response with the
-- request's own id and 1024 times 'A' for API 1 or 'B' for API 2, and an empty message for any other
-- command. No other queue changes, and nothing on the way leaves a buffer. The words of the request
-- are below 2^32.
pub on_task_processor-frame :
    (s : Socket) (p : Statics) (t : TaskData) (id cmd : ℕ) (payload : List ℕ)
    → t.databuf ≡ request_frame id cmd payload
    → t.len ≡ length t.databuf
    → id < 2 ^ 32
    → cmd < 2 ^ 32
    → length payload < 2 ^ 32
    → (s' : Socket) × (on_task_processor (some s) p (some t) ≡ ok (some s', get_instance p))
      × ((k : ℕ)
          → queued k s' ≡ queued k s ++ given_by k (sending t.client_id (response_for id cmd)))
unfolding on_task_processor
on_task_processor-frame s p t id cmd payload e el hi hc hp =
    let f = request_frame id cmd payload in
    let lf = length-request_frame id cmd payload in
    let parsed =
      parse_request-frame id cmd payload [] t.len no_request hi hc hp
        (omega (arith, ap length e)) in
    let (ans, bytes) = answer_lem id cmd in
    let (s', sent, _, q) = respond_lem s t.client_id (response_for id cmd) bytes in
    (s', rw (e, (rw append-nil at parsed), ans, sent) refl, q)

-- A task shorter than a header is dropped: nothing is sent.
pub on_task_processor-short :
    (s : Option Socket) (p : Statics) (t : TaskData)
    → t.len ≡ length t.databuf
    → t.len < 16
    → on_task_processor s p (some t) ≡ ok (s, get_instance p)
unfolding on_task_processor
on_task_processor-short s p t el h =
    let parsed =
      rw (lt→ltb (length t.databuf) 16 (omega arith)) at
        (parse_request_total t.databuf no_request) in
    rw (el, parsed) refl

-- The response that a request calls for: by its second word, the id, and its third, the command.
abbrev pub reply_to : List ℕ → List ℕ
reply_to f = response_for (of_le (take 4 (drop 4 f))) (of_le (take 4 (drop 8 f)))

-- What the processing of a task adds to the queue of client `k`, from what the worker sees of it.
abbrev pub answer_of : ℕ → View → List (List ℕ)
answer_of k v = if ltb v.2 16 then [] else given_by k (sending v.0 (reply_to v.1))

-- The length that a task states is that of its bytes.
abbrev pub IsWhole : View → Type 0
IsWhole v = v.2 ≡ length v.1

-- A task with its true length: nothing faults, the response goes to the end of its client's queue, and
-- what is too short for a header is dropped.
pub on_task_processor_lem :
    (s : Socket) (p : Statics) (t : TaskData)
    → IsWhole (view t)
    → (s' : Socket) × (on_task_processor (some s) p (some t) ≡ ok (some s', get_instance p))
      × SameSetup s s'
      × ((k : ℕ) → queued k s' ≡ queued k s ++ answer_of k (view t))
unfolding on_task_processor
on_task_processor_lem s p t w = elim (dec_lt t.len 16) [
  | yes h ↦ (
    s,
    on_task_processor-short (some s) p t w h,
    (refl, refl),
    λ k. rw (lt→ltb t.len 16 h) (sym (append-nil (queued k s))),
  )
  | no h ↦
      let id = of_le (take 4 (drop 4 t.databuf)) in
      let cmd = of_le (take 4 (drop 8 t.databuf)) in
      let parsed =
        rw (le→ltb_false (length t.databuf) 16 (omega arith)) at
          (parse_request_total t.databuf no_request) in
      let (ans, bytes) = answer_lem id cmd in
      let (s', sent, same, q) = respond_lem s t.client_id (response_for id cmd) bytes in
      (
        s',
        rw (w, parsed, ans, sent) refl,
        same,
        λ k. rw (le→ltb_false t.len 16 (omega arith)) (q k),
      )
]

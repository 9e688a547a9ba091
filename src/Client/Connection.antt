-- ===== src/Client/Connection.antt =====
-- What doConnect and createClient make of a connection.
use epoll_model.Prelude.{
  ℕ, ◌+◌, ◌-◌, ◌*◌, ◌≤◌, ◌<◌, ◌^◌, ◌≡◌, refl, sym, ◌∙◌, false, Option, none, some, List, [], ◌∷◌,
  ◌++◌, append-nil, map, length, take-all, pos, minus_one, eq_ℤ, is_negative, ok, arith,
}
use epoll_model.Memory.{filled, u32, of_le, le_bytes}
use epoll_model.Memory.Copies.{length-filled, read_at-front}
use epoll_model.Memory.Words.{of_le-le_bytes}
use epoll_model.HexChar.Encode.{
  AllBytes, char_to_hex_lem, AllBytes-append, AllBytes-le_bytes, AllBytes-filled,
}
use epoll_model.Protocol.{Statics, api1, ResponseOut}
use epoll_model.Protocol.Frames.{request_frame, response_frame}
use epoll_model.Protocol.Requests.{make_api_request_lem, length-request_frame}
use epoll_model.Protocol.Responses.{parse_response-frame}
use epoll_model.TaskController.Stream.{IsFrame, concat}
use epoll_model.Client.{
  ConnectAnswers, ClientCall, creates, binds, connects, closes, sends_request, recv_loop,
  do_connect, api1_result, report, create_client,
}
use epoll_model.Client.Collect.{AllFit, recv_loop-frame, recv_loop-cut}

-- Every call of the client's kernel succeeds, and `send` takes something.
pub record Connects (a : ConnectAnswers) : Type 0 where
  pub creating : eq_ℤ a.created minus_one ≡ false
  pub binding : is_negative a.bound ≡ false
  pub connecting : is_negative a.connected ≡ false
  pub sending : (is_negative a.sent ≡ false) × (eq_ℤ a.sent (pos 0) ≡ false)

-- The calls of one connection.
abbrev pub whole_connection : List ℕ → List ClientCall
whole_connection req = creates ∷ binds ∷ connects ∷ sends_request req ∷ closes ∷ []

do_connect_lem :
    (a : ConnectAnswers) (rs : List (Option (List ℕ))) (req resp resp' : List ℕ)
    → Connects a
    → AllBytes req
    → 2 * length req ≤ 1024 * 1024 * 4
    → recv_loop rs 0 [] ≡ ok resp'
    → do_connect a rs req resp ≡ ok (pos 0, resp', whole_connection req)
unfolding do_connect
do_connect_lem a rs req resp resp' c all room loop =
    let n = length-filled (1024 * 1024 * 4) 0 in
    let e = char_to_hex_lem req [] (filled (1024 * 1024 * 4) 0) all (omega arith) in
    rw (c.creating, c.binding, c.connecting, (rw append-nil at e), c.sending.0, c.sending.1, loop)
      refl

-- A peer whose response begins with its own length, in pieces of which the first has that field:
-- doConnect returns 0 and exactly that response, after its five calls in order, for every request
-- that fits its buffer for the log.
pub do_connect-frame :
    (a : ConnectAnswers) (req resp f c : List ℕ) (cs : List (List ℕ))
    → Connects a
    → AllBytes req
    → 2 * length req ≤ 1024 * 1024 * 4
    → IsFrame f
    → c ++ concat cs ≡ f
    → 4 ≤ length c
    → AllFit (c ∷ cs)
    → do_connect a (map some (c ∷ cs)) req resp ≡ ok (pos 0, f, whole_connection req)
do_connect-frame a req resp f c cs conn all room frame e header fit =
    do_connect_lem a (map some (c ∷ cs)) req resp f conn all room
      (recv_loop-frame f c cs frame e header fit)

-- A connection that ends before the announced length has come: doConnect returns 0 as well, with the
-- part that came, so its caller cannot tell it from a response.
pub do_connect-cut :
    (a : ConnectAnswers) (req resp c : List ℕ) (cs : List (List ℕ)) (rest : List (Option (List ℕ)))
    → Connects a
    → AllBytes req
    → 2 * length req ≤ 1024 * 1024 * 4
    → 4 ≤ length c
    → of_le c < 2 ^ 31
    → length c + length (concat cs) < of_le c
    → AllFit (c ∷ cs)
    → do_connect a (map some (c ∷ cs) ++ some [] ∷ rest) req resp
      ≡ ok (pos 0, c ++ concat cs, whole_connection req)
do_connect-cut a req resp c cs rest conn all room header small less fit =
    do_connect_lem a (map some (c ∷ cs) ++ some [] ∷ rest) req resp (c ++ concat cs) conn all room
      (recv_loop-cut c cs rest header small less fit)

AllBytes-request :
    (id cmd : ℕ) (payload : List ℕ) → AllBytes payload → AllBytes (request_frame id cmd payload)
AllBytes-request id cmd payload a =
    AllBytes-append (le_bytes (16 + length payload)) _ (AllBytes-le_bytes _) (
      AllBytes-append (le_bytes id) _ (AllBytes-le_bytes _) (
        AllBytes-append (le_bytes cmd) _ (AllBytes-le_bytes _)
          (AllBytes-append (le_bytes (length payload)) _ (AllBytes-le_bytes _) a)))

pub length-response_frame :
    (id cmd : ℕ) (payload : List ℕ) → length (response_frame id cmd payload) ≡ 20 + length payload
length-response_frame id cmd payload = unfold le_bytes in omega arith

report_lem :
    (id cmd : ℕ) (payload : List ℕ)
    → id < 2 ^ 32
    → cmd < 2 ^ 32
    → length payload < 2 ^ 31
    → report (response_frame id cmd payload) ≡ ok (api1_result 0 payload)
unfolding report
report_lem id cmd payload hi hc hp =
    let f = response_frame id cmd payload in
    let out : ResponseOut = record {
      msg_id = 0;
      cmd = 0;
      result = 2 ^ 32 - 1;
      cmd_data = none;
      cmd_data_len = 0;
    } in
    let parsed =
      parse_response-frame id cmd payload [] (length f) out hi hc (omega arith)
        (omega (arith, length-response_frame id cmd payload)) in
    rw ((rw append-nil at parsed), read_at-front payload [] (length payload) refl) refl

-- A client whose peer answers with a response frame, in pieces of which the first has the length
-- field, logs the result 0 and exactly the frame's data. The request it sent carries the next message
-- id and one megabyte of 'A'.
pub create_client-frame :
    (p : Statics) (a : ConnectAnswers) (id cmd : ℕ) (payload c : List ℕ) (cs : List (List ℕ))
    → Connects a
    → id < 2 ^ 32
    → cmd < 2 ^ 32
    → 20 + length payload < 2 ^ 31
    → c ++ concat cs ≡ response_frame id cmd payload
    → 4 ≤ length c
    → AllFit (c ∷ cs)
    → create_client p a (map some (c ∷ cs))
      ≡ ok (
        api1_result 0 payload,
        record p { msg_id = u32 (p.msg_id + 1) },
        whole_connection (request_frame (u32 (p.msg_id + 1)) 0 (filled (1024 * 1024) b'A')),
      )
unfolding create_client
create_client-frame p a id cmd payload c cs conn hi hc hp e header fit =
    let f = response_frame id cmd payload in
    let cmddata = filled (1024 * 1024) b'A' in
    let n = length-filled (1024 * 1024) b'A' in
    let next = u32 (p.msg_id + 1) in
    let req = request_frame next 0 cmddata in
    let lreq = length-request_frame next 0 cmddata in
    let made =
      make_api_request_lem p api1 cmddata [] (1024 * 1024) (omega arith) (omega arith)
        (omega arith) in
    let all = take-all (1024 * 1024) cmddata (sym n) in
    let bytes =
      AllBytes-request next 0 cmddata (AllBytes-filled (1024 * 1024) b'A' (omega arith)) in
    let lf = length-response_frame id cmd payload in
    let frame : IsFrame f = record {
      header = omega (arith, lf);
      announced = of_le-le_bytes (20 + length payload) _ (omega arith) ∙ sym lf;
      small = omega (arith, lf);
    } in
    let conn' = do_connect-frame a req [] f c cs conn bytes (omega arith) frame e header fit in
    rw (made, all, conn', report_lem id cmd payload hi hc (omega arith)) refl

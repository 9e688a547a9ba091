-- ===== src/Client.antt =====
-- client/socketClient.cpp and client/clientMain.cpp: a client that sends one request and collects
-- the response. What the kernel answers is an argument.
pub mod Collect
pub mod Connection
pub mod Fleet
pub mod Counting
use epoll_model.Prelude.{
  ℕ, suc, ◌+◌, ◌-◌, ◌*◌, ◌%◌, ◌^◌, ◌≡◌, Bool, Option, none, some, List, [], ◌∷◌, ◌++◌, length, ltb,
  ◌==◌, if◌then◌else◌, ℤ, pos, negsuc, minus_one, is_negative, eq_ℤ, Outcome, ok, stuck, ◌>>=◌,
}
use epoll_model.Memory.{read_at, write_at, read_word, filled}
use epoll_model.HexChar.{char_to_hex}
use epoll_model.Protocol.{Statics, api1, make_api_request, parse_response, ResponseOut}

abbrev pub socketbuffer_size : ℕ
socketbuffer_size = 4096

-- class socketClient. doConnect uses neither field: it connects to a fixed path.
pub record SocketClient : Type 0 where
  pub addr : List ℕ
  pub port : ℕ

-- The constructor.
pub socket_client : List ℕ → ℕ → SocketClient
socket_client addr port = record { addr = addr; port = port }

-- What the kernel is asked for, with what can be seen from outside.
pub data ClientCall : Type 0 where
  creates binds connects closes : ClientCall
  sends_request : List ℕ → ClientCall

-- What `socket`, `bind`, `connect` and `send` return.
pub record ConnectAnswers : Type 0 where
  pub created : ℤ
  pub bound : ℤ
  pub connected : ℤ
  pub sent : ℤ

-- What `recv` returned, -1 as a `size_t`; `none` is a failure, and no bytes are a disconnection.
abbrev pub received_len : Option (List ℕ) → ℕ
received_len none = 2 ^ 64 - 1
received_len (some bytes) = length bytes

abbrev pub received_bytes : Option (List ℕ) → List ℕ
received_bytes none = []
received_bytes (some bytes) = bytes

-- The loop, over what the calls of `recv` give; when nothing more comes it waits. An `append` of more
-- than the buffer holds is a fault; so is the exception that -1 as a length raises. `int remainSize`
-- goes back to the same `size_t`.
unfoldable pub recv_loop : List (Option (List ℕ)) → ℕ → List ℕ → Outcome (List ℕ)
recv_loop [] ack_len resp = stuck
recv_loop (r ∷ rs) ack_len resp =
    let len = received_len r in
    let more = write_at (filled socketbuffer_size 0) 0 (received_bytes r) >>= λ buf.
    (if ack_len == 0 then read_word buf 0 else ok ack_len) >>= λ ack.
    let resp' = if ack_len == 0 then [] else resp in
    let rest = read_at buf 0 len >>= λ bytes. recv_loop rs ack (resp' ++ bytes) in
    let last =
      read_at buf 0 ((ack + 2 ^ 64 - length resp') % 2 ^ 64) >>= λ bytes. ok (resp' ++ bytes) in
    if ltb ((length resp' + len) % 2 ^ 64) ack then rest else last in
    if len == 0 then ok resp else more

-- socketClient::doConnect: the value returned, the response, and the calls made. Its 4 MB of stack
-- hold the request in hexadecimal for the log.
unfoldable pub do_connect :
    ConnectAnswers
    → List (Option (List ℕ))
    → List ℕ
    → List ℕ
    → Outcome (ℤ × List ℕ × List ClientCall)
unfolding recv_loop
do_connect a rs req resp =
    if eq_ℤ a.created minus_one
    then ok (minus_one, resp, creates ∷ [])
    else if is_negative a.bound
    then ok (minus_one, resp, creates ∷ binds ∷ [])
    else if is_negative a.connected
    then ok (minus_one, resp, creates ∷ binds ∷ connects ∷ [])
    else do
      _ ← char_to_hex (filled (1024 * 1024 * 4) 0) req (pos (length req))
      let calls = creates ∷ binds ∷ connects ∷ sends_request req ∷ closes ∷ []
      if is_negative a.sent
          then ok (minus_one, resp, calls)
          else if eq_ℤ a.sent (pos 0)
          then ok (minus_one, resp, calls)
          else do resp' ← recv_loop rs 0 []; ok (pos 0, resp', calls)

-- What a client logs at the end: the result and the data, or that it failed.
pub data Report : Type 0 where
  api1_result : (result : ℕ) (return_data : List ℕ) → Report
  parse_failed no_request : Report

unfoldable pub report : List ℕ → Outcome Report
report response = do
  (r, out) ←
      parse_response (some response) (length response)
        (record { msg_id = 0; cmd = 0; result = 2 ^ 32 - 1; cmd_data = none; cmd_data_len = 0 })
  if eq_ℤ r (pos 0)
      then elim out.cmd_data [
        | none ↦ ok (api1_result out.result [])
        | some d ↦ read_at d 0 out.cmd_data_len >>= λ bytes. ok (api1_result out.result bytes)
      ]
      else ok parse_failed

-- createClient. The value that doConnect returns is not looked at.
unfoldable pub create_client :
    Statics → ConnectAnswers → List (Option (List ℕ)) → Outcome (Report × Statics × List ClientCall)
unfolding do_connect report
create_client p a rs = do
  let cmddata = filled (1024 * 1024) b'A'
  (r, p', req) ← make_api_request p api1 (some cmddata) (1024 * 1024) []
  if eq_ℤ r (pos 0)
      then (do_connect a rs req [] >>= λ (_, response, calls).
          report response >>= λ said. ok (said, p', calls))
      else ok (no_request, p', [])

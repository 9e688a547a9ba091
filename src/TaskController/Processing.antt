-- ===== src/TaskController/Processing.antt =====
-- onTaskProcessor: a request that a worker takes, and the response that it sends.
pub mod Answers
use epoll_model.Prelude.{
  ℕ, suc, ◌+◌, ◌*◌, ◌≡◌, Option, none, some, List, [], length, ◌==◌, if◌then◌else◌, ℤ, pos,
  minus_one, eq_ℤ, Outcome, ok, ◌>>=◌,
}
use epoll_model.Memory.{filled}
use epoll_model.HexChar.{char_to_hex}
use epoll_model.Protocol.{
  ApiCommand, api1, api2, make_error, Statics, get_instance, RequestOut, parse_request,
  make_api_response, make_err_response,
}
use epoll_model.Socket.{Socket, send}
use epoll_model.TaskController.{TaskData}

-- The data that stands in for the result of an API: 1024 times 'A' or 'B'.
unfoldable pub api_return_data : ℕ → List ℕ
api_return_data letter = filled 1024 letter

-- One case of the switch; makeErrResponse is for a makeAPIResponse that fails.
reply : ℕ → ApiCommand → ℕ → Outcome (List ℕ)
reply id cmd letter = do
  (r, resp) ← make_api_response id cmd (api_return_data letter) 1024 []
  if eq_ℤ r (pos 0)
      then ok resp
      else do (_, resp) ← make_err_response id cmd make_error resp; ok resp

-- The switch. Another command leaves the response empty.
unfoldable pub answer : ℕ → ℕ → Outcome (List ℕ)
unfolding reply
answer id cmd =
    if cmd == 0 then reply id api1 b'A' else if cmd == 1 then reply id api2 b'B' else ok []

-- What follows the switch, where `m_socket` is set: the response is logged in hexadecimal, and sent.
respond : Socket → ℕ → List ℕ → Outcome (Option Socket)
respond s client resp = do
  _ ← char_to_hex (filled (2 * length resp + 1) 0) resp (pos (length resp))
  (s', _) ← send s (pos client) resp (length resp)
  ok (some s')

respond_if_set : Option Socket → ℕ → List ℕ → Outcome (Option Socket)
unfolding respond
respond_if_set none client resp = ok none
respond_if_set (some s) client resp = respond s client resp

abbrev no_request : RequestOut
no_request = record { msg_id = 0; cmd = 0; cmd_data = none; cmd_data_len = 0 }

-- The sockets's state and protocol's static members after the call. `none` is a NULL parameter, or a
-- NULL `m_socket`. The sleep in place of the API is left out.
unfoldable pub on_task_processor :
    Option Socket → Statics → Option TaskData → Outcome (Option Socket × Statics)
unfolding answer respond_if_set
on_task_processor s p none = ok (s, p)
on_task_processor s p (some t) = do
  (r, out) ← parse_request (some t.databuf) t.len no_request
  let p' = get_instance p
  if eq_ℤ r minus_one
      then ok (s, p')
      else do resp ← answer out.msg_id out.cmd; s' ← respond_if_set s t.client_id resp; ok (s', p')

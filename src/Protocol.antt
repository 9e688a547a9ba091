-- ===== src/Protocol.antt =====
-- protocol/protocol.h and protocol/protocol.cpp: requests and responses on the wire.
pub mod Frames
mod Header
pub mod Requests
pub mod Responses
pub mod Limits
pub mod RoundTrips
pub mod Codec
use epoll_model.Prelude.{
  ℕ, suc, ◌+◌, ◌*◌, ◌%◌, ◌^◌, Bool, Option, none, some, List, length, drop, ltb, ◌==◌,
  if◌then◌else◌, ℤ, pos, minus_one, replicate, Outcome, ok, ◌>>=◌,
}
use epoll_model.Memory.{u32, read_at, write_at, resize, le_bytes, read_word}

-- ENUM_API_COMMAND
pub data ApiCommand : Type 0 where
  api1 api2 : ApiCommand

abbrev pub command_code : ApiCommand → ℕ
command_code api1 = 0
command_code api2 = 1

-- ENUM_PROTOCOL_ERROR
pub data ProtocolError : Type 0 where
  parse_error make_error : ProtocolError

abbrev pub error_code : ProtocolError → ℕ
error_code parse_error = 500
error_code make_error = 501

-- The static members: whether `m_instance` is set, and the counter `m_msgId`.
pub record Statics : Type 0 where
  pub has_instance : Bool
  pub msg_id : ℕ

abbrev pub initial : Statics
initial = record { has_instance = Bool.false; msg_id = 0 }

-- Each runs under `m_mutex` from its first line to its last.
pub get_instance : Statics → Statics
get_instance p = if p.has_instance then p else record p { has_instance = Bool.true }

pub del_instance : Statics → Statics
del_instance p = if p.has_instance then record p { has_instance = Bool.false } else p

-- The value returned, the static members, and the string after the call. `buf` is `none` for NULL.
unfoldable pub make_api_request :
    Statics → ApiCommand → Option (List ℕ) → ℕ → List ℕ → Outcome (ℤ × Statics × List ℕ)
make_api_request p cmd none size request = ok (minus_one, p, request)
make_api_request p cmd (some buf) size request =
    if size == 0 then ok (minus_one, p, request) else do
      let total = u32 (4 * 4 + size)
      let id = u32 (p.msg_id + 1)
      r ← write_at (resize total request) 0 (le_bytes total)
      r ← write_at r 4 (le_bytes id)
      r ← write_at r 8 (le_bytes (command_code cmd))
      r ← write_at r 12 (le_bytes size)
      payload ← read_at buf 0 size
      r ← write_at r 16 payload
      ok (pos 0, record p { msg_id = id }, r)

-- The arguments that `parseRequest` writes through. A pointer into the buffer is the bytes from
-- there on.
pub record RequestOut : Type 0 where
  pub msg_id : ℕ
  pub cmd : ℕ
  pub cmd_data : Option (List ℕ)
  pub cmd_data_len : ℕ

-- `reqbuf` is `none` for NULL. `cmd` is an `int`, by its bytes.
unfoldable pub parse_request : Option (List ℕ) → ℕ → RequestOut → Outcome (ℤ × RequestOut)
parse_request none buf_len out = ok (minus_one, out)
parse_request (some reqbuf) buf_len out = if ltb buf_len 16 then ok (minus_one, out) else do
  id ← read_word reqbuf 4
  cmd ← read_word reqbuf 8
  size ← read_word reqbuf 12
  ok (
    pos 0,
    record { msg_id = id; cmd = cmd; cmd_data = some (drop 16 reqbuf); cmd_data_len = size },
  )

-- `payload` is the object that `data` points to.
unfoldable pub make_api_response : ℕ → ApiCommand → List ℕ → ℕ → List ℕ → Outcome (ℤ × List ℕ)
make_api_response id cmd payload size resp = do
  let total = u32 (4 * 5 + size)
  r ← write_at (resize total resp) 0 (le_bytes total)
  r ← write_at r 4 (le_bytes id)
  r ← write_at r 8 (le_bytes (command_code cmd))
  r ← write_at r 12 (replicate 4 0)
  r ← write_at r 16 (le_bytes size)
  body ← read_at payload 0 size
  r ← write_at r 20 body
  ok (pos 0, r)

-- The arguments that `parseResponse` writes through.
pub record ResponseOut : Type 0 where
  pub msg_id : ℕ
  pub cmd : ℕ
  pub result : ℕ
  pub cmd_data : Option (List ℕ)
  pub cmd_data_len : ℕ

unfoldable pub parse_response : Option (List ℕ) → ℕ → ResponseOut → Outcome (ℤ × ResponseOut)
parse_response none buf_len out = ok (minus_one, out)
parse_response (some respbuf) buf_len out = if ltb buf_len 16 then ok (minus_one, out) else do
  id ← read_word respbuf 4
  cmd ← read_word respbuf 8
  result ← read_word respbuf 12
  if result == 0
      then (do
        size ← read_word respbuf 16
        ok (
          pos 0,
          record {
            msg_id = id;
            cmd = cmd;
            result = result;
            cmd_data = some (drop 20 respbuf);
            cmd_data_len = size;
          },
        ))
      else ok (
        pos 0,
        record { msg_id = id; cmd = cmd; result = result; cmd_data = none; cmd_data_len = 0 },
      )

unfoldable pub make_err_response : ℕ → ApiCommand → ProtocolError → List ℕ → Outcome (ℤ × List ℕ)
make_err_response id cmd err resp = do
  let total = u32 (4 * 4)
  r ← write_at (resize total resp) 0 (le_bytes total)
  r ← write_at r 4 (le_bytes id)
  r ← write_at r 8 (le_bytes (command_code cmd))
  r ← write_at r 12 (le_bytes (error_code err))
  ok (pos 0, r)

-- ===== src/Protocol/RoundTrips.antt =====
-- What parseResponse makes of the responses that makeAPIResponse and makeErrResponse make.
use epoll_model.Prelude.{
  ℕ, ◌+◌, ◌≤◌, ◌<◌, ◌^◌, ◌≡◌, ap, ◌∙◌, none, some, List, ◌++◌, length, take, length-take, ℤ, pos,
  Outcome, ok, arith,
}
use epoll_model.Memory.{le_bytes}
use epoll_model.Protocol.{
  ApiCommand, command_code, ProtocolError, error_code, make_api_response, make_err_response,
  parse_response, ResponseOut,
}
use epoll_model.Protocol.Frames.{response_frame, error_frame}
use epoll_model.Protocol.Header.{command_code-lt}
use epoll_model.Protocol.Responses.{
  make_api_response_lem, make_err_response_lem, parse_response-frame, parse_response-error,
}

length-response : (id cmd : ℕ) (payload : List ℕ) → 16 ≤ length (response_frame id cmd payload)
length-response id cmd payload = unfold le_bytes in omega arith

length-error : (id cmd code : ℕ) → 16 ≤ length (error_frame id cmd code)
length-error id cmd code = unfold le_bytes in omega arith

-- For an id below 2^32, data of at least `size` bytes, and a total length below 2^32: whatever the string
-- held before, makeAPIResponse returns 0 and leaves in it exactly the frame that the comment of protocol.h
-- describes, and parseResponse takes it apart again, also where other bytes follow in memory: it gives the
-- id, the command, the result 0, the size and the data.
pub parse-make_response :
    (id : ℕ) (cmd : ApiCommand) (payload resp rest : List ℕ) (size : ℕ) (out : ResponseOut)
    → id < 2 ^ 32
    → size ≤ length payload
    → 20 + size < 2 ^ 32
    → let frame = response_frame id (command_code cmd) (take size payload) in
      (make_api_response id cmd payload size resp ≡ ok (pos 0, frame))
      × (parse_response (some (frame ++ rest)) (length frame) out
          ≡ ok (
            pos 0,
            record {
              msg_id = id;
              cmd = command_code cmd;
              result = 0;
              cmd_data = some (take size payload ++ rest);
              cmd_data_len = size;
            },
          ))
parse-make_response id cmd payload resp rest size out hi k l =
    let d = take size payload in
    let n = length-take size payload k in
    let code = command_code cmd in
    (
      make_api_response_lem id cmd payload resp size k l,
      parse_response-frame id code d rest (length (response_frame id code d)) out hi
            (command_code-lt cmd) (omega arith) (length-response id code d)
          ∙ ap {B = Outcome (ℤ × ResponseOut)}
              (λ m. ok (
                pos 0,
                record {
                  msg_id = id;
                  cmd = code;
                  result = 0;
                  cmd_data = some (d ++ rest);
                  cmd_data_len = m;
                },
              ))
              n,
    )

-- For an id below 2^32: whatever the string held before, makeErrResponse returns 0 and leaves in it a
-- header whose result is the code of the error, and parseResponse gives back the id, the command and that
-- code, and no data, without reading behind the header.
pub parse-make_error :
    (id : ℕ) (cmd : ApiCommand) (err : ProtocolError) (resp rest : List ℕ) (out : ResponseOut)
    → id < 2 ^ 32
    → let frame = error_frame id (command_code cmd) (error_code err) in
      (make_err_response id cmd err resp ≡ ok (pos 0, frame))
      × (parse_response (some (frame ++ rest)) (length frame) out
          ≡ ok (
            pos 0,
            record {
              msg_id = id;
              cmd = command_code cmd;
              result = error_code err;
              cmd_data = none;
              cmd_data_len = 0;
            },
          ))
parse-make_error id cmd err resp rest out hi =
    let frame = error_frame id (command_code cmd) (error_code err) in
    (
      make_err_response_lem id cmd err resp,
      parse_response-error id cmd err rest (length frame) out hi
          (length-error id (command_code cmd) (error_code err)),
    )

-- ===== src/Tests/Messages.antt =====
-- protocol/protocol.cpp at concrete inputs.
use epoll_model.Prelude.{
  ℕ, ◌-◌, ◌^◌, ◌≡◌, Bool, none, some, List, [], ◌∷◌, ◌++◌, length, take, drop, pos, ok, fault,
  arith,
}
use epoll_model.Memory.{filled, of_le}
use epoll_model.Memory.Copies.{length-filled}
use epoll_model.Protocol.{
  api1, api2, Statics, initial, make_api_request, RequestOut, parse_request, make_api_response,
  ResponseOut, parse_response,
}
use epoll_model.Memory.{le_bytes}
use epoll_model.Protocol.RoundTrips.{parse-make_response}
use epoll_model.Protocol.Frames.{response_frame}
use epoll_model.Protocol.Requests.{parse-make_request}
use epoll_model.Protocol.Limits.{make_api_request_overflow, parse_request_total}

abbrev no_request : RequestOut
no_request = record { msg_id = 0; cmd = 0; cmd_data = none; cmd_data_len = 0 }

abbrev no_response : ResponseOut
no_response = record { msg_id = 0; cmd = 0; result = 0; cmd_data = none; cmd_data_len = 0 }

abbrev payload : List ℕ
payload = 7 ∷ 8 ∷ 9 ∷ []

-- The counter goes from its last value to 0.
abbrev last_id : Statics
last_id = record { has_instance = Bool.true; msg_id = 2 ^ 32 - 1 }

parse-make_request_example :
    (frame : List ℕ) × (make_api_request last_id api2 (some payload) 2 (5 ∷ [])
      ≡ ok (pos 0, record { has_instance = Bool.true; msg_id = 0 }, frame))
    × (length frame ≡ 18)
    × (parse_request (some (frame ++ 1 ∷ [])) (length frame) no_request
        ≡ ok (
          pos 0,
          record { msg_id = 0; cmd = 1; cmd_data = some (7 ∷ 8 ∷ 1 ∷ []); cmd_data_len = 2 },
        ))
parse-make_request_example =
    parse-make_request last_id api2 payload (5 ∷ []) (1 ∷ []) 2 no_request (omega arith)
      (omega arith) (omega arith)

make_api_request_overflow_example :
    make_api_request initial api1 (some (filled (2 ^ 32 - 1) 0)) (2 ^ 32 - 1) [] ≡ fault
make_api_request_overflow_example =
    make_api_request_overflow initial api1 (filled (2 ^ 32 - 1) 0) [] (2 ^ 32 - 1)
      (omega (arith, length-filled (2 ^ 32 - 1) 0)) (omega arith) (omega arith)

abbrev sixteen : List ℕ
sixteen = 16 ∷ 0 ∷ 0 ∷ 0 ∷ 6 ∷ 0 ∷ 0 ∷ 0 ∷ 1 ∷ 0 ∷ 0 ∷ 0 ∷ 0 ∷ 0 ∷ 0 ∷ 0 ∷ []

parse_request_total_example :
    parse_request (some sixteen) 16 no_request
    ≡ ok (
      pos 0,
      record {
        msg_id = of_le (take 4 (drop 4 sixteen));
        cmd = of_le (take 4 (drop 8 sixteen));
        cmd_data = some [];
        cmd_data_len = of_le (take 4 (drop 12 sixteen));
      },
    )
parse_request_total_example = parse_request_total sixteen no_request

parse-make_response_example :
    (make_api_response 6 api2 payload 2 (5 ∷ []) ≡ ok (pos 0, response_frame 6 1 (7 ∷ 8 ∷ [])))
    × (parse_response (some (response_frame 6 1 (7 ∷ 8 ∷ []) ++ 4 ∷ [])) 22 no_response
        ≡ ok (
          pos 0,
          record {
            msg_id = 6;
            cmd = 1;
            result = 0;
            cmd_data = some (7 ∷ 8 ∷ 4 ∷ []);
            cmd_data_len = 2;
          },
        ))
unfolding le_bytes
parse-make_response_example =
    parse-make_response 6 api2 payload (5 ∷ []) (4 ∷ []) 2 no_response (omega arith) (omega arith)
      (omega arith)

-- ===== src/Protocol/Responses.antt =====
-- makeAPIResponse, makeErrResponse and parseResponse.
use epoll_model.Prelude.{
  ℕ, ◌+◌, ◌≤◌, ◌<◌, ◌^◌, ◌≡◌, refl, sym, ◌∙◌, false, ◌==◌, none, some, List, ◌++◌, length, take,
  drop, ℤ, pos, ok, ◌>>=◌, arith, length-append, length-take, drop-append, le→ltb_false,
  append_assoc, append-nil, replicate,
}
use epoll_model.Memory.{write_at, resize, read_word, le_bytes}
use epoll_model.Memory.Copies.{write_at-fill, read_at-prefix, length-resize, eq-nil}
use epoll_model.Memory.Words.{read_word-mid, length-le_bytes}
use epoll_model.Protocol.{
  ApiCommand, command_code, ProtocolError, parse_error, make_error, error_code, make_api_response,
  make_err_response, parse_response, ResponseOut,
}
use epoll_model.Protocol.Frames.{response_frame, error_frame}
use epoll_model.Protocol.Header.{write_header, length-header, command_code-lt, u32-small}

-- makeAPIResponse returns 0 and leaves in the string exactly the frame that the comment of
-- protocol.h describes, for every id, data and previous content whose total length fits 32 bits.
pub make_api_response_lem :
    (id : ℕ) (cmd : ApiCommand) (payload resp : List ℕ) (size : ℕ)
    → size ≤ length payload
    → 20 + size < 2 ^ 32
    → make_api_response id cmd payload size resp
      ≡ ok (pos 0, response_frame id (command_code cmd) (take size payload))
unfolding make_api_response
make_api_response_lem id cmd payload resp size k l =
    let w = le_bytes (20 + size) in
    let x = le_bytes id in
    let y = le_bytes (command_code cmd) in
    let z = le_bytes 0 in
    let u = le_bytes size in
    let header = ((w ++ x) ++ y) ++ z in
    let h =
      length-header w x y z (length-le_bytes _) (length-le_bytes _) (length-le_bytes _)
        (length-le_bytes _) in
    let (a, la, ea) =
      write_header {B = ℤ × List ℕ}
        (λ r. write_at r 16 u >>= λ r. write_at r 20 (take size payload) >>= λ r. ok (pos 0, r))
        (resize (20 + size) resp) w x y z (4 + size) (length-le_bytes _) (length-le_bytes _)
        (length-le_bytes _) (length-le_bytes _) (omega (arith, length-resize (20 + size) resp)) in
    let (b, lb, eb) = write_at-fill header a u 16 size h (omega (arith, length-le_bytes size)) in
    let (c, lc, ec) =
      write_at-fill (header ++ u) b (take size payload) 20 0
        (omega (arith, length-append header u, length-le_bytes size))
        (omega (arith, length-take size payload)) in
    rw (u32-small (20 + size) l, length-take size payload k, read_at-prefix payload size k, zeros)
      (ea ∙ rw (eb, ec, eq-nil c lc) (simp (append_assoc, append-nil)))
  where
    zeros : replicate 4 0 ≡ le_bytes 0
    zeros = unfold le_bytes in refl

-- makeErrResponse returns 0 and leaves in the string a header whose result is the error's code.
pub make_err_response_lem :
    (id : ℕ) (cmd : ApiCommand) (err : ProtocolError) (resp : List ℕ)
    → make_err_response id cmd err resp
      ≡ ok (pos 0, error_frame id (command_code cmd) (error_code err))
unfolding make_err_response
make_err_response_lem id cmd err resp =
    let w = le_bytes 16 in
    let x = le_bytes id in
    let y = le_bytes (command_code cmd) in
    let z = le_bytes (error_code err) in
    let (a, la, ea) =
      write_header {B = ℤ × List ℕ} (λ r. ok (pos 0, r)) (resize 16 resp) w x y z 0
        (length-le_bytes _) (length-le_bytes _) (length-le_bytes _) (length-le_bytes _)
        (length-resize 16 resp) in
    ea ∙ rw (eq-nil a la) (simp (append_assoc, append-nil))

error_code-lt : (e : ProtocolError) → (error_code e < 2 ^ 32) × ((error_code e == 0) ≡ false)
error_code-lt parse_error = (omega arith, refl)
error_code-lt make_error = (omega arith, refl)

-- The four words behind each other, read back at 4, 8 and 12, whatever follows.
read_header :
    (w x y z : ℕ) (rest : List ℕ)
    → x < 2 ^ 32
    → y < 2 ^ 32
    → z < 2 ^ 32
    → let r = le_bytes w ++ (le_bytes x ++ (le_bytes y ++ (le_bytes z ++ rest))) in
      (read_word r 4 ≡ ok x) × (read_word r 8 ≡ ok y) × (read_word r 12 ≡ ok z) × (drop 16 r ≡ rest)
read_header w x y z rest hx hy hz =
    let lw = length-le_bytes w in
    let lx = length-le_bytes x in
    let ly = length-le_bytes y in
    let p = le_bytes w in
    let q = le_bytes x in
    let s = le_bytes y in
    let t = le_bytes z in
    (
      read_word-mid p (s ++ (t ++ rest)) x 4 (sym lw) hx,
      simp append_assoc at
          (read_word-mid (p ++ q) (t ++ rest) y 8 (omega (arith, length-append p q)) hy),
      simp append_assoc at (
          read_word-mid ((p ++ q) ++ s) rest z 12
            (omega (arith, length-append p q, length-append (p ++ q) s)) hz),
      simp append_assoc at (
          drop-append 16 (((p ++ q) ++ s) ++ t) rest
            (length-header p q s t lw lx ly (length-le_bytes z))),
    )

-- What parseResponse reads from the frame of makeAPIResponse: the id, the command, a result of 0,
-- the size, and a pointer to the data, which may be followed by other bytes. The words are below 2^32,
-- and the length that parseResponse is told is at least 16.
pub parse_response-frame :
    (id cmd : ℕ) (payload rest : List ℕ) (buf_len : ℕ) (out : ResponseOut)
    → id < 2 ^ 32
    → cmd < 2 ^ 32
    → length payload < 2 ^ 32
    → 16 ≤ buf_len
    → parse_response (some (response_frame id cmd payload ++ rest)) buf_len out
      ≡ ok (
        pos 0,
        record {
          msg_id = id;
          cmd = cmd;
          result = 0;
          cmd_data = some (payload ++ rest);
          cmd_data_len = length payload;
        },
      )
unfolding parse_response
parse_response-frame id cmd payload rest buf_len out hi hc hp h =
    let size = length payload in
    let w = le_bytes (20 + size) in
    let x = le_bytes id in
    let y = le_bytes cmd in
    let z = le_bytes 0 in
    let u = le_bytes size in
    let lh =
      length-header w x y z (length-le_bytes _) (length-le_bytes _) (length-le_bytes _)
        (length-le_bytes 0) in
    let split : response_frame id cmd payload ++ rest
        ≡ w ++ (x ++ (y ++ (z ++ (u ++ (payload ++ rest))))) =
      simp append_assoc in
    let (e1, e2, e3, _) =
      read_header (20 + size) id cmd 0 (u ++ (payload ++ rest)) hi hc (omega arith) in
    let e4 : read_word (w ++ (x ++ (y ++ (z ++ (u ++ (payload ++ rest)))))) 16 ≡ ok size =
      simp append_assoc at (read_word-mid (((w ++ x) ++ y) ++ z) (payload ++ rest) size 16 lh hp) in
    let e5 : drop 20 (w ++ (x ++ (y ++ (z ++ (u ++ (payload ++ rest)))))) ≡ payload ++ rest =
      simp append_assoc at (
        drop-append 20 ((((w ++ x) ++ y) ++ z) ++ u) (payload ++ rest)
          (omega (arith, length-append (((w ++ x) ++ y) ++ z) u, length-le_bytes size))) in
    rw (le→ltb_false buf_len 16 h, split, e1, e2, e3, e4, e5) refl

-- A frame of makeErrResponse, with an id below 2^32 and at least 16 for its length, is parsed as its
-- error code, with no data, also if nothing follows it.
pub parse_response-error :
    (id : ℕ) (cmd : ApiCommand) (err : ProtocolError) (rest : List ℕ) (buf_len : ℕ)
    (out : ResponseOut)
    → id < 2 ^ 32
    → 16 ≤ buf_len
    → parse_response (some (error_frame id (command_code cmd) (error_code err) ++ rest)) buf_len out
      ≡ ok (
        pos 0,
        record {
          msg_id = id;
          cmd = command_code cmd;
          result = error_code err;
          cmd_data = none;
          cmd_data_len = 0;
        },
      )
unfolding parse_response
parse_response-error id cmd err rest buf_len out hi h =
    let w = le_bytes 16 in
    let x = le_bytes id in
    let y = le_bytes (command_code cmd) in
    let z = le_bytes (error_code err) in
    let split : error_frame id (command_code cmd) (error_code err) ++ rest
        ≡ w ++ (x ++ (y ++ (z ++ rest))) =
      simp append_assoc in
    let (e1, e2, e3, _) =
      read_header 16 id (command_code cmd) (error_code err) rest hi (command_code-lt cmd)
        (error_code-lt err).0 in
    rw (le→ltb_false buf_len 16 h, split, e1, e2, e3, (error_code-lt err).1) refl

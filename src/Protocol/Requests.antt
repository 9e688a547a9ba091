-- ===== src/Protocol/Requests.antt =====
-- makeAPIRequest and parseRequest.
use mathlib.Core.List.{append_assoc, append-nil}
use epoll_model.Prelude.{
  ℕ, ◌+◌, ◌≤◌, ◌<◌, ◌^◌, ◌≡◌, refl, ap, sym, ◌∙◌, some, List, ◌++◌, length, take, drop, ℤ, pos,
  Outcome, ok, ◌>>=◌, arith, length-append, length-take, drop-append, le→ltb_false,
}
use epoll_model.Memory.{u32, write_at, resize, read_word, le_bytes}
use epoll_model.Memory.Copies.{write_at-fill, read_at-prefix, length-resize, eq-nil}
use epoll_model.Memory.Words.{read_word-mid, length-le_bytes}
use epoll_model.Protocol.{
  Statics, ApiCommand, command_code, make_api_request, parse_request, RequestOut,
}
use epoll_model.Protocol.Frames.{request_frame}
use epoll_model.Protocol.Header.{
  write_header, length-header, command_code-lt, positive-ne, u32-small,
}

-- makeAPIRequest returns 0, counts the message, and leaves in the string exactly the frame that the
-- comment of protocol.h describes, where the data is not empty and the total length fits 32 bits.
pub make_api_request_lem :
    (p : Statics) (cmd : ApiCommand) (buf request : List ℕ) (size : ℕ)
    → 0 < size
    → size ≤ length buf
    → 16 + size < 2 ^ 32
    → make_api_request p cmd (some buf) size request
      ≡ ok (
        pos 0,
        record p { msg_id = u32 (p.msg_id + 1) },
        request_frame (u32 (p.msg_id + 1)) (command_code cmd) (take size buf),
      )
unfolding make_api_request
make_api_request_lem p cmd buf request size h k l =
    let id = u32 (p.msg_id + 1) in
    let w = le_bytes (16 + size) in
    let x = le_bytes id in
    let y = le_bytes (command_code cmd) in
    let z = le_bytes size in
    let (a, la, ea) =
      write_header {B = ℤ × Statics × List ℕ}
        (λ r. write_at r 16 (take size buf) >>= λ r. ok (pos 0, record p { msg_id = id }, r))
        (resize (16 + size) request) w x y z size (length-le_bytes _) (length-le_bytes _)
        (length-le_bytes _) (length-le_bytes _) (length-resize (16 + size) request) in
    let (b, lb, eb) =
      write_at-fill (((w ++ x) ++ y) ++ z) a (take size buf) 16 0
        (length-header w x y z (length-le_bytes _) (length-le_bytes _) (length-le_bytes _)
          (length-le_bytes _))
        (omega (arith, length-take size buf)) in
    rw
      (
        positive-ne size h,
        u32-small (16 + size) l,
        length-take size buf k,
        read_at-prefix buf size k,
      )
      (ea ∙ rw (eb, eq-nil b lb) (simp (append_assoc, append-nil)))

-- What parseRequest reads from a frame: the words that follow the total length, and a pointer to
-- the data behind them.
pub parse_request-frame :
    (id cmd : ℕ) (payload rest : List ℕ) (buf_len : ℕ) (out : RequestOut)
    → id < 2 ^ 32
    → cmd < 2 ^ 32
    → length payload < 2 ^ 32
    → 16 ≤ buf_len
    → parse_request (some (request_frame id cmd payload ++ rest)) buf_len out
      ≡ ok (
        pos 0,
        record {
          msg_id = id;
          cmd = cmd;
          cmd_data = some (payload ++ rest);
          cmd_data_len = length payload;
        },
      )
unfolding parse_request
parse_request-frame id cmd payload rest buf_len out hi hc hp h =
    let w = le_bytes (16 + length payload) in
    let x = le_bytes id in
    let y = le_bytes cmd in
    let z = le_bytes (length payload) in
    let split : request_frame id cmd payload ++ rest ≡ w ++ (x ++ (y ++ (z ++ (payload ++ rest)))) =
      simp append_assoc in
    let lw = length-le_bytes (16 + length payload) in
    let lx = length-le_bytes id in
    let ly = length-le_bytes cmd in
    let lz = length-le_bytes (length payload) in
    let e1 = read_word-mid w (y ++ (z ++ (payload ++ rest))) id 4 (sym lw) hi in
    let e2 : read_word (w ++ (x ++ (y ++ (z ++ (payload ++ rest))))) 8 ≡ ok cmd =
      rw append_assoc at (
        read_word-mid (w ++ x) (z ++ (payload ++ rest)) cmd 8 (omega (arith, length-append w x))
          hc) in
    let e3 : read_word (w ++ (x ++ (y ++ (z ++ (payload ++ rest))))) 12 ≡ ok (length payload) =
      simp append_assoc at (
        read_word-mid ((w ++ x) ++ y) (payload ++ rest) (length payload) 12
          (omega (arith, length-append w x, length-append (w ++ x) y)) hp) in
    let e4 : drop 16 (w ++ (x ++ (y ++ (z ++ (payload ++ rest))))) ≡ payload ++ rest =
      simp append_assoc at (
        drop-append 16 (((w ++ x) ++ y) ++ z) (payload ++ rest)
          (length-header w x y z lw lx ly lz)) in
    rw (le→ltb_false buf_len 16 h, split, e1, e2, e3, e4) refl

-- The length of a request frame is its first word.
pub length-request_frame :
    (id cmd : ℕ) (payload : List ℕ) → length (request_frame id cmd payload) ≡ 16 + length payload
length-request_frame id cmd payload = unfold le_bytes in omega arith

-- For at least one byte of data, no more than the buffer has, and a total length below 2^32: whatever
-- makeAPIRequest puts into the string, parseRequest takes apart again, also where other
-- bytes follow in memory: it gives the command, the new message id, the size and the data.
pub parse-make_request :
    (p : Statics) (cmd : ApiCommand) (buf request rest : List ℕ) (size : ℕ) (out : RequestOut)
    → 0 < size
    → size ≤ length buf
    → 16 + size < 2 ^ 32
    → (frame : List ℕ) × (make_api_request p cmd (some buf) size request
        ≡ ok (pos 0, record p { msg_id = u32 (p.msg_id + 1) }, frame))
      × (length frame ≡ 16 + size)
      × (parse_request (some (frame ++ rest)) (length frame) out
          ≡ ok (
            pos 0,
            record {
              msg_id = u32 (p.msg_id + 1);
              cmd = command_code cmd;
              cmd_data = some (take size buf ++ rest);
              cmd_data_len = size;
            },
          ))
parse-make_request p cmd buf request rest size out h k l =
    let id = u32 (p.msg_id + 1) in
    let payload = take size buf in
    let lp = length-take size buf k in
    let lf = length-request_frame id (command_code cmd) payload in
    (
      request_frame id (command_code cmd) payload,
      make_api_request_lem p cmd buf request size h k l,
      omega arith,
      parse_request-frame id (command_code cmd) payload rest
            (length (request_frame id (command_code cmd) payload)) out (omega arith)
            (command_code-lt cmd) (omega arith) (omega arith)
          ∙ ap {B = Outcome (ℤ × RequestOut)}
              (λ n. ok (
                pos 0,
                record {
                  msg_id = id;
                  cmd = command_code cmd;
                  cmd_data = some (payload ++ rest);
                  cmd_data_len = n;
                },
              ))
              lp,
    )

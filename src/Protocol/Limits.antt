-- ===== src/Protocol/Limits.antt =====
-- Where the messages meet the 32 bits of their lengths, and where the parsers meet short buffers.
use epoll_model.Prelude.{
  ℕ, ◌+◌, ◌≤◌, ◌<◌, ◌^◌, ◌≡◌, refl, lt→ltb, le→ltb_false, some, List, length, take, drop,
  length-take, pos, minus_one, ok, fault, arith,
}
use native.Mathlib.Decide.{dec_lt}
use epoll_model.Prelude.{ltb, if◌then◌else◌}
use epoll_model.Memory.{u32, read_word, of_le}
use epoll_model.Memory.Copies.{
  fault_behind_write, write_at-fault, read_at-prefix, read_at-ok, length-resize,
}
use epoll_model.Memory.Words.{read_word-fault}
use epoll_model.Protocol.{
  Statics, ApiCommand, make_api_request, make_api_response, parse_request, parse_response,
  RequestOut, ResponseOut,
}
use epoll_model.Protocol.Header.{positive-ne}

-- Where the total length of a request does not fit 32 bits, it wraps, and makeAPIRequest writes
-- beyond the string that it has shrunk to the wrapped length.
pub make_api_request_overflow :
    (p : Statics) (cmd : ApiCommand) (buf request : List ℕ) (size : ℕ)
    → size ≤ length buf
    → size < 2 ^ 32
    → 2 ^ 32 ≤ 16 + size
    → make_api_request p cmd (some buf) size request ≡ fault
unfolding make_api_request
make_api_request_overflow p cmd buf request size k l h =
    let total = u32 (16 + size) in
    let n = length-resize total request in
    rw (positive-ne size (omega arith), read_at-prefix buf size k)
      (fault_behind_write _ _ _ 0 λ a la. fault_behind_write _ _ _ 4 λ b lb.
        fault_behind_write _ _ _ 8 λ c lc. fault_behind_write _ _ _ 12 λ d ld.
          rw (write_at-fault d (take size buf) 16 (omega (arith, length-take size buf))) refl)

-- So does makeAPIResponse.
pub make_api_response_overflow :
    (id : ℕ) (cmd : ApiCommand) (payload resp : List ℕ) (size : ℕ)
    → size ≤ length payload
    → size < 2 ^ 32
    → 2 ^ 32 ≤ 20 + size
    → make_api_response id cmd payload size resp ≡ fault
unfolding make_api_response
make_api_response_overflow id cmd payload resp size k l h =
    let total = u32 (20 + size) in
    let n = length-resize total resp in
    rw (read_at-prefix payload size k) (
      fault_behind_write _ _ _ 0 λ a la. fault_behind_write _ _ _ 4 λ b lb.
        fault_behind_write _ _ _ 8 λ c lc. fault_behind_write _ _ _ 12 λ d ld.
          fault_behind_write _ _ _ 16 λ e le.
            rw (write_at-fault e (take size payload) 20 (omega (arith, length-take size payload)))
              refl)

read_word-ok :
    (buf : List ℕ) (off : ℕ)
    → off + 4 ≤ length buf
    → read_word buf off ≡ ok (of_le (take 4 (drop off buf)))
unfolding read_word
read_word-ok buf off h = rw (read_at-ok buf off 4 h) refl

-- Handed the true length of its buffer, parseRequest never leaves the buffer. It refuses what is
-- shorter than a header and changes no argument then; else it reports the three words behind the
-- first as they stand, the data length too, whatever the number of bytes that follow.
pub parse_request_total :
    (buf : List ℕ) (out : RequestOut)
    → parse_request (some buf) (length buf) out
      ≡ ok (
          if ltb (length buf) 16 then (minus_one, out) else (
            pos 0,
            record {
              msg_id = of_le (take 4 (drop 4 buf));
              cmd = of_le (take 4 (drop 8 buf));
              cmd_data = some (drop 16 buf);
              cmd_data_len = of_le (take 4 (drop 12 buf));
            },
          ))
unfolding parse_request
parse_request_total buf out = elim (dec_lt (length buf) 16) [
  | yes short ↦ rw (lt→ltb (length buf) 16 short) refl
  | no whole ↦
      rw
        (
          le→ltb_false (length buf) 16 (omega arith),
          read_word-ok buf 4 (omega arith),
          read_word-ok buf 8 (omega arith),
          read_word-ok buf 12 (omega arith),
        )
        refl
]

-- parseResponse asks for 16 bytes and reads 20: handed 16 to 19 bytes with a result of 0, it reads
-- beyond its buffer.
pub parse_response_short :
    (buf : List ℕ) (out : ResponseOut)
    → 16 ≤ length buf
    → length buf < 20
    → of_le (take 4 (drop 12 buf)) ≡ 0
    → parse_response (some buf) (length buf) out ≡ fault
unfolding parse_response
parse_response_short buf out h k z =
    rw
      (
        le→ltb_false (length buf) 16 h,
        read_word-ok buf 4 (omega arith),
        read_word-ok buf 8 (omega arith),
        read_word-ok buf 12 (omega arith),
        z,
        read_word-fault buf 16 (omega arith),
      )
      refl

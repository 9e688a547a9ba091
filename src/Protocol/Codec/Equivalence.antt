-- ===== src/Protocol/Codec/Equivalence.antt =====
-- makeAPIRequest and parseRequest as the two directions of an equivalence.
use mathlib.Core.HLevel.{Σ_prop_path}
use mathlib.Core.Equiv.{IsEquiv, iso_to_equiv}
use epoll_model.Prelude.{
  ℕ, ◌+◌, ◌-◌, ◌≤◌, ◌<◌, ◌^◌, ◌≡◌, refl, sym, ◌∙◌, some, List, [], ◌∷◌, append-nil, length, take,
  drop, length-drop, take-all, Bool-cases, inl, inr, ◌==◌, pos, ok, arith,
}
use epoll_model.Memory.{u32, le_bytes, of_le}
use epoll_model.HexChar.Encode.{AllBytes, AllBytes-append, AllBytes-le_bytes}
use epoll_model.Protocol.{
  ApiCommand, api1, api2, command_code, Statics, make_api_request, RequestOut, parse_request,
}
use epoll_model.Protocol.Frames.{request_frame}
use epoll_model.Protocol.Requests.{make_api_request_lem, parse_request-frame, length-request_frame}
use epoll_model.Protocol.Codec.{
  Content, IsContent, Request, IsRequestFrame, RequestFrame, IsContent-prop, IsRequestFrame-prop,
  command_of,
}
use epoll_model.Protocol.Codec.Words.{next_word, frame_words, request_frame-words}

command_of-code : (c : ApiCommand) → command_of (command_code c) ≡ c
command_of-code api1 = refl
command_of-code api2 = refl

command_code-of : (n : ℕ) → n < 2 → command_code (command_of n) ≡ n
command_code-of n h = elim (Bool-cases (n == 0)) [
  | inl first ↦ let e : n ≡ 0 = ground arith in rw e refl
  | inr other ↦ let e : n ≡ 1 = ground arith in rw e refl
]

command_code-small : (c : ApiCommand) → command_code c < 2
command_code-small api1 = omega arith
command_code-small api2 = omega arith

pub request_frame-IsRequestFrame :
    (c : Content) → IsContent c → IsRequestFrame (request_frame c.id (command_code c.cmd) c.payload)
request_frame-IsRequestFrame c (id, some_data, small, bytes) =
    let cmd = command_code-small c.cmd in
    let (total, _, command, size, _) =
      frame_words c.id (command_code c.cmd) c.payload id (omega (arith, cmd)) small in
    let n = length-request_frame c.id (command_code c.cmd) c.payload in
    (
      omega (arith, n, some_data),
      omega (arith, n, small),
      AllBytes-append (le_bytes _) _ (AllBytes-le_bytes _) (
          AllBytes-append (le_bytes _) _ (AllBytes-le_bytes _) (
            AllBytes-append (le_bytes _) _ (AllBytes-le_bytes _)
              (AllBytes-append (le_bytes _) _ (AllBytes-le_bytes _) bytes))),
      total ∙ sym n,
      omega (arith, command, cmd),
      omega (arith, size, n),
    )

-- The frame of a request, and the request of a frame.
abbrev pub frame_of : Request → RequestFrame
frame_of (c, v) =
    (request_frame c.id (command_code c.cmd) c.payload, request_frame-IsRequestFrame c v)

content_of : List ℕ → Content
content_of f = record {
  id = of_le (take 4 (drop 4 f));
  cmd = command_of (of_le (take 4 (drop 8 f)));
  payload = drop 16 f;
}

of_le-small : (f : List ℕ) → 4 ≤ length f → AllBytes f → of_le (take 4 f) < 2 ^ 32
unfolding of_le
of_le-small (a ∷ b ∷ c ∷ d ∷ f) h w = omega (arith, w.0, w.1.0, w.1.1.0, w.1.1.1.0)
of_le-small (a ∷ b ∷ c ∷ []) h w = absurd (omega arith)
of_le-small (a ∷ b ∷ []) h w = absurd (omega arith)
of_le-small (a ∷ []) h w = absurd (omega arith)
of_le-small [] h w = absurd (omega arith)

content_of-IsContent : (f : List ℕ) → IsRequestFrame f → IsContent (content_of f)
unfolding content_of
content_of-IsContent f v =
    let (_, n, bytes) = request_frame-words f v in
    let (_, b1) = next_word 0 f (omega (arith, v.0)) v.2 in
    (
      of_le-small (drop 4 f) (omega (arith, length-drop 4 f, v.0)) b1,
      omega (arith, n, v.0),
      omega (arith, n, v.1),
      bytes,
    )

request_of_frame : RequestFrame → Request
unfolding content_of
request_of_frame (f, v) = (content_of f, content_of-IsContent f v)

there_and_back : (f : RequestFrame) → frame_of (request_of_frame f) ≡ f
unfolding request_of_frame content_of
there_and_back (f, v) =
    let (e, _, _) = request_frame-words f v in
    let code = command_code-of (of_le (take 4 (drop 8 f))) v.4 in
    Σ_prop_path IsRequestFrame-prop (rw code e)

back_and_there : (r : Request) → request_of_frame (frame_of r) ≡ r
unfolding request_of_frame content_of
back_and_there (c, v) =
    let cmd = command_code-small c.cmd in
    let (_, id, command, _, payload) =
      frame_words c.id (command_code c.cmd) c.payload v.0 (omega (arith, cmd)) v.2 in
    Σ_prop_path IsContent-prop (rw (id, command, payload, command_of-code c.cmd) refl)

counts_to : (id : ℕ) → id < 2 ^ 32 → u32 (u32 (id + 2 ^ 32 - 1) + 1) ≡ id
counts_to id h = omega arith

made_by_code :
    (r : Request) (p : Statics) (request : List ℕ)
    → make_api_request
        (record p { msg_id = u32 (r.0.id + 2 ^ 32 - 1) })
        r.0.cmd
        (some r.0.payload)
        (length r.0.payload)
        request
      ≡ ok (pos 0, record p { msg_id = r.0.id }, (frame_of r).0)
made_by_code (c, v) p request =
    let before : Statics = record p { msg_id = u32 (c.id + 2 ^ 32 - 1) } in
    make_api_request_lem before c.cmd c.payload request (length c.payload) v.1 (omega arith) v.2
    ∙ rw (counts_to c.id v.0, take-all (length c.payload) c.payload refl) refl

parsed_by_code :
    (r : Request) (out : RequestOut)
    → parse_request (some (frame_of r).0) (length (frame_of r).0) out
      ≡ ok (
        pos 0,
        record {
          msg_id = r.0.id;
          cmd = command_code r.0.cmd;
          cmd_data = some r.0.payload;
          cmd_data_len = length r.0.payload;
        },
      )
parsed_by_code (c, v) out =
    let cmd = command_code-small c.cmd in
    let n = length-request_frame c.id (command_code c.cmd) c.payload in
    let parsed =
      parse_request-frame c.id (command_code c.cmd) c.payload []
        (length (request_frame c.id (command_code c.cmd) c.payload)) out v.0 (omega (arith, cmd))
        (omega (arith, v.2)) (omega arith) in
    let whole = append-nil (request_frame c.id (command_code c.cmd) c.payload) in
    rw (whole, append-nil c.payload) at parsed

-- The type of the requests that have data, whose words fit 32 bits, is equivalent to the type of the lists
-- of bytes that are request frames, as the comment of protocol.h lays them out: each frame is that of one
-- request only. The two functions are those of the code: with the counter before the request's id,
-- whatever the string held, makeAPIRequest leaves the frame of the request in it, and parseRequest gives
-- the request of the frame.
pub frame_of-IsEquiv :
    IsEquiv frame_of
    × ((r : Request) (p : Statics) (request : List ℕ) (out : RequestOut)
        → (make_api_request
              (record p { msg_id = u32 (r.0.id + 2 ^ 32 - 1) })
              r.0.cmd
              (some r.0.payload)
              (length r.0.payload)
              request
            ≡ ok (pos 0, record p { msg_id = r.0.id }, (frame_of r).0))
          × (parse_request (some (frame_of r).0) (length (frame_of r).0) out
              ≡ ok (
                pos 0,
                record {
                  msg_id = r.0.id;
                  cmd = command_code r.0.cmd;
                  cmd_data = some r.0.payload;
                  cmd_data_len = length r.0.payload;
                },
              )))
frame_of-IsEquiv = (
  (iso_to_equiv (record {
    fun = frame_of;
    inv = request_of_frame;
    rinv = there_and_back;
    linv = back_and_there;
  })).1,
  λ r p request out. (made_by_code r p request, parsed_by_code r out),
)

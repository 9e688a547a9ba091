-- ===== src/System/Stale.antt =====
-- A client that hangs up inside a request, and the next client with its descriptor.
use epoll_model.Prelude.{
  ℕ, suc, ◌+◌, ◌≤◌, ◌<◌, ◌^◌, ◌≡◌, ◌≢◌, refl, sym, ap, ◌∙◌, true, false, inl, inr, none, some, List,
  [], ◌∷◌, ◌++◌, append_assoc, append-nil, length, length-append, map, pos, eq_ℤ, is_positive, ok,
  first_ok, lookup, erase, ==_refl, arith,
}
use epoll_model.Socket.{
  Socket, Event, AcceptAnswers, Call, closes, removes, accepts, sets_flags, adds, o_nonblock,
  listen_event, hangup_event, accept_event, socket_recv_buffer_len,
}
use epoll_model.Socket.Receiving.{recv_event, recv_buffer_lem, behind}
use epoll_model.TaskController.{Controller, on_recv, receive_all}
use epoll_model.TaskController.Stream.{AllFrames, concat, offset, view, frame_view}
use epoll_model.TaskController.Positions.{at_start, start-At, offset-stay}
use epoll_model.TaskController.Delivery.{IsSafe, receive_all-At, delivered-all, offset-all}
use epoll_model.TaskController.Interleaving.{listener}
use epoll_model.System.{System, receives, listens_for, move, run}

-- Bytes of client `k` wait at the socket.
abbrev pub input_of : ℕ → Event
input_of k = record { fd = k; err = false; hup = false; input = true; output = false }

-- Client `k` has hung up.
abbrev pub hang_up_of : ℕ → Event
hang_up_of k = record { fd = k; err = false; hup = true; input = false; output = false }

-- The kernel accepts a client, with descriptor `k`, and adds it to epoll.
abbrev pub accepting : ℕ → AcceptAnswers
accepting k = record { accepted = pos k; flags = 0; added = pos 0 }

receives_chunk :
    (s : Socket) (ctl : Controller) (k : ℕ) (c : List ℕ)
    → s.has_listener ≡ true
    → eq_ℤ (pos k) s.socket ≡ false
    → 0 < length c
    → length c ≤ socket_recv_buffer_len
    → recv_event listener s ctl (input_of k) (some c) ≡ on_recv ctl k (c ++ behind c) (length c)
unfolding recv_event
receives_chunk s ctl k [] listening other some_bytes fit = absurd (omega arith)
receives_chunk s ctl k (b ∷ bs) listening other some_bytes fit =
    rw (other, listening, recv_buffer_lem (b ∷ bs) fit) refl

-- The hang-up and the accept, for the calls that they make.
abbrev between : ℕ → ℕ → Socket → List Call
between own k s =
    closes (pos k)
    ∷ removes s.epfd (pos k)
    ∷ accepts (pos own)
    ∷ sets_flags (pos k) o_nonblock
    ∷ adds s.epfd (pos k) true
    ∷ []

hang_up_step :
    (k : ℕ) (a : AcceptAnswers) (s : Socket)
    → eq_ℤ (pos k) s.socket ≡ false
    → listen_event a s (hang_up_of k) ≡ (
      record s { send_data_list = erase k s.send_data_list },
      closes (pos k) ∷ removes s.epfd (pos k) ∷ [],
    )
unfolding listen_event hangup_event
hang_up_step k a s other = rw other refl

accept_step :
    (own k : ℕ) (s : Socket)
    → s.socket ≡ pos (suc own)
    → listen_event (accepting k) s (input_of (suc own))
      ≡ (s, accepts (pos (suc own)) ∷ sets_flags (pos k) o_nonblock ∷ adds s.epfd (pos k) true ∷ [])
unfolding listen_event accept_event
accept_step own k s e =
    let up : is_positive (pos (suc own)) ≡ true = ground arith in rw (e, ==_refl (suc own), up) refl

-- The bytes of both, as onRecv takes them.
both_received :
    (ctl : Controller) (k : ℕ) (c d : List ℕ) (gs : List (List ℕ))
    → lookup k ctl.recv_list ≡ none
    → AllFrames ((c ++ d) ∷ gs)
    → 4 ≤ length c
    → 0 < length d
    → length c < 2 ^ 31
    → length (d ++ concat gs) < 2 ^ 31
    → (ctl1 ctl2 : Controller) × (on_recv ctl k (c ++ behind c) (length c) ≡ ok ctl1)
      × (on_recv ctl1 k ((d ++ concat gs) ++ behind (d ++ concat gs)) (length (d ++ concat gs))
          ≡ ok ctl2)
      × (map view ctl2.added ≡ map view ctl.added ++ map (frame_view k) ((c ++ d) ∷ gs))
unfolding receive_all
both_received ctl k c d gs free frames header some_bytes small small' =
    let f = c ++ d in
    let fs = f ∷ gs in
    let rest = d ++ concat gs in
    let n = length-append c d in
    let whole : concat (c ∷ rest ∷ []) ≡ concat fs =
      ap (◌++◌ c) (append-nil rest) ∙ sym (append_assoc c d (concat gs)) in
    let inside : offset fs (0 + length c) ≡ 0 + length c =
      offset-stay f gs (0 + length c) (omega (arith, n)) in
    let end : 0 + length c + length rest ≡ length (concat fs) =
      omega (arith, ap length whole, length-append c (rest ++ []), length-append rest []) in
    let ready : IsSafe fs 0 (c ∷ rest ∷ []) = (
      omega arith,
      small,
      inr (omega (arith, inside)),
      (omega (arith, length-append d (concat gs)), small', inl (offset-all fs _ end), tt),
    ) in
    let (ctl2, run, at, _) =
      receive_all-At behind k fs frames (map view ctl.added) 0 (c ∷ rest ∷ []) [] ctl
        (sym whole ∙ sym (append-nil (concat (c ∷ rest ∷ [])))) (inl (at_start fs frames).1) ready
        (start-At fs frames refl free) in
    let (ctl1, first, later) =
      first_ok (on_recv ctl k (c ++ behind c) (length c))
        (λ ctl1. receive_all behind ctl1 k (rest ∷ [])) ctl2 run in
    let (ctl2', second, same) =
      first_ok (on_recv ctl1 k (rest ++ behind rest) (length rest)) (λ ctl2. ok ctl2) ctl2 later in
    let total : 0 + length (concat (c ∷ rest ∷ [])) ≡ length (concat fs) =
      omega (arith, ap length whole) in
    (
      ctl1,
      ctl2,
      first,
      second ∙ same,
      at.tasks
          ∙ ap (λ (gs : List (List ℕ)). map view ctl.added ++ map (frame_view k) gs)
              (delivered-all fs _ total),
    )

-- A client hangs up inside a request, and the next one gets its descriptor. The bytes `c` of the first,
-- four or more, are the front of a message that announces its length; no part of a request of this
-- descriptor waited before. The listening thread takes the client from epoll and closes it, and accepts the
-- next client. What that one sends begins with `d`, as many bytes as that length lacks, and whole messages
-- may follow. No step faults, and the next task is the bytes of the first client and `d` behind them, as
-- a request of the second. Each chunk fits the buffer, and the listening socket has another descriptor.
pub run-mixes :
    (y : System) (own k : ℕ) (c d : List ℕ) (gs : List (List ℕ)) (a : AcceptAnswers)
    → y.socket.has_listener ≡ true
    → y.socket.socket ≡ pos (suc own)
    → k ≢ suc own
    → lookup k y.controller.recv_list ≡ none
    → AllFrames ((c ++ d) ∷ gs)
    → 4 ≤ length c
    → 0 < length d
    → length c ≤ socket_recv_buffer_len
    → length (d ++ concat gs) ≤ socket_recv_buffer_len
    → let ms =
        receives (input_of k) (some c)
        ∷ listens_for (hang_up_of k) a
        ∷ listens_for (input_of (suc own)) (accepting k)
        ∷ receives (input_of k) (some (d ++ concat gs))
        ∷ [] in
      (y' : System) × (run y ms ≡ ok (y', between (suc own) k y.socket, []))
      × (map view y'.controller.added
          ≡ map view y.controller.added ++ map (frame_view k) ((c ++ d) ∷ gs))
unfolding run move
run-mixes y own k c d gs a listening socket ne free frames header some_bytes fit fit' =
    let s = y.socket in
    let other : eq_ℤ (pos k) s.socket ≡ false = rw socket (ground arith) in
    let (ctl1, ctl2, first, second, added) =
      both_received y.controller k c d gs free frames header some_bytes (omega (arith, fit))
        (omega (arith, fit')) in
    let s' : Socket = record s { send_data_list = erase k s.send_data_list } in
    let one =
      receives_chunk s y.controller k c listening other (omega (arith, header)) fit ∙ first in
    let two =
      receives_chunk s' ctl1 k (d ++ concat gs) listening other
        (omega (arith, some_bytes, length-append d (concat gs))) fit'
      ∙ second in
    (
      record y { socket = s'; controller = ctl2 },
      rw (one, hang_up_step k a s other, accept_step own k s' socket, two) refl,
      added,
    )

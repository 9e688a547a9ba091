-- ===== src/TaskController/CutHeader.antt =====
-- A first chunk that ends inside the four bytes of the length.
use epoll_model.Prelude.{
  ℕ, ◌+◌, ◌-◌, ◌<◌, ◌≡◌, refl, ◌∙◌, none, some, List, [], ◌∷◌, ◌++◌, length, take, take-append,
  drop, lt→leb_false, length-append, length-drop, ok, lookup, insert, lookup-insert, ==_refl, arith,
}
use epoll_model.Memory.{of_le, u32, read_word, new_char, filled}
use epoll_model.Memory.Copies.{read_at-prefix, read_at-front, length-filled, length-new_char}
use epoll_model.Socket.Receiving.{behind}
use epoll_model.TaskController.{TaskData, Controller, receive, make_new_task, on_recv}
use epoll_model.Prelude.{ap, suc, ◌∙◌, fault, lt→ltb}
use epoll_model.Memory.Words.{read_word-fault}
use epoll_model.TaskController.{add_task}
use epoll_model.TaskController.Stream.{IsFrame}
use epoll_model.TaskController.Receive.{receive_whole, write_new}

-- The bytes that have come, and zeros for those of the four that have not.
abbrev pub padded : List ℕ → List ℕ
padded c = take 4 (c ++ 0 ∷ 0 ∷ 0 ∷ [])

-- The buffer behind a short chunk begins with zeros.
take-behind : (c : List ℕ) → 0 < length c → length c < 4 → take 4 (c ++ behind c) ≡ padded c
unfolding filled
take-behind [] h k = absurd (omega arith)
take-behind (x ∷ []) h k = refl
take-behind (x ∷ y ∷ []) h k = refl
take-behind (x ∷ y ∷ z ∷ []) h k = refl
take-behind (x ∷ y ∷ z ∷ w ∷ c) h k = absurd (omega arith)

read_word-short :
    (c : List ℕ) → 0 < length c → length c < 4 → read_word (c ++ behind c) 0 ≡ ok (of_le (padded c))
unfolding read_word
read_word-short c h k =
    let n = length-append c (behind c) in
    let m = length-filled (32768 - length c) 0 in
    rw (read_at-prefix (c ++ behind c) 4 (omega arith), take-behind c h k) refl

-- A client that waits for nothing sends one, two or three bytes, which stand at the start of the cleared
-- buffer: onRecv takes them for the whole length, with zeros for the bytes that have not come. Where that
-- length is more than what came, onRecv returns, adds no task, and lets the bytes wait at the front of an entry
-- of that length, whatever length the client goes on to announce.
pub on_recv-cut_header :
    (ctl : Controller) (client : ℕ) (c : List ℕ)
    → lookup client ctl.recv_list ≡ none
    → 0 < length c
    → length c < 4
    → length c < of_le (padded c)
    → (ctl' : Controller) × (t : TaskData) × (on_recv ctl client (c ++ behind c) (length c)
        ≡ ok ctl')
      × (ctl'.added ≡ ctl.added)
      × (lookup client ctl'.recv_list ≡ some t)
      × (t.len ≡ of_le (padded c))
      × (t.cur_len ≡ length c)
      × (take (length c) t.databuf ≡ c)
      × (length t.databuf ≡ t.len)
unfolding on_recv make_new_task receive
on_recv-cut_header ctl client c free h k long =
    let total = of_le (padded c) in
    let t : TaskData = record {
      client_id = client;
      databuf = c ++ drop (length c) (new_char total);
      len = total;
      cur_len = u32 (0 + length c);
    } in
    (
      record ctl { recv_list = insert client t ctl.recv_list },
      t,
      rw
          (
            free,
            receive,
            read_word-short c h k,
            lt→leb_false total (length c) long,
            read_at-front c (behind c) (length c) refl,
            write_new total c (omega arith),
          )
          refl,
      refl,
      lookup-insert client client t ctl.recv_list ∙ rw (==_refl client) refl,
      refl,
      omega arith,
      take-append (length c) c (drop (length c) (new_char total)) refl,
      length-append c (drop (length c) (new_char total))
          ∙ omega (arith, length-drop (length c) (new_char total), length-new_char total),
    )

overread_step :
    (fuel : ℕ) (ctl : Controller) (client : ℕ) (f tail junk : List ℕ)
    → lookup client ctl.recv_list ≡ none
    → IsFrame f
    → 0 < length tail
    → length tail + length junk < 4
    → make_new_task (suc (suc fuel)) ctl client (f ++ (tail ++ junk)) (length f + length tail)
      ≡ fault
unfolding make_new_task receive add_task
overread_step fuel ctl client f tail junk free fr h k =
    let rest = length f + length tail - length f in
    let short = length-append tail junk in
    rw
      (
        receive_whole ctl client f (tail ++ junk) (length f + length tail) free fr (omega arith),
        lt→ltb (length f) (length f + length tail) (omega arith),
        free,
        receive,
        read_word-fault (tail ++ junk) 0 (omega arith),
      )
      refl

-- A client that waits for nothing sends a whole frame and one to three bytes of the next, and behind them
-- fewer than four bytes are left of the buffer in all: makeNewTask reads the next length beyond the
-- buffer. With the buffer of threadRecvFun this is a full buffer in which a frame ends one to three bytes
-- before the end.
pub on_recv-overread :
    (ctl : Controller) (client : ℕ) (f tail junk : List ℕ)
    → lookup client ctl.recv_list ≡ none
    → IsFrame f
    → 0 < length tail
    → length tail + length junk < 4
    → on_recv ctl client (f ++ (tail ++ junk)) (length f + length tail) ≡ fault
unfolding on_recv
on_recv-overread ctl client f tail junk free fr h k =
    let n : length f + length tail ≡ suc (length f + length tail - 1) = omega (arith, fr.header) in
    ap (λ (m : ℕ). make_new_task (suc m) ctl client (f ++ (tail ++ junk)) (length f + length tail))
      n
    ∙ overread_step (length f + length tail - 1) ctl client f tail junk free fr h k

-- ===== src/TaskController/Receive.antt =====
-- One activation of makeNewTask, on each of its branches.
use epoll_model.Prelude.{
  ℕ, ◌+◌, ◌-◌, ◌≤◌, ◌<◌, ◌^◌, ◌≡◌, refl, sym, ap, ◌∙◌, none, some, List, [], ◌++◌, append-nil,
  append_assoc, length, take, drop, ltb, le→leb, lt→leb_false, lt→ltb, le→ltb_false, if◌then◌else◌,
  length-append, length-take, length-drop, take-append, take-append-drop, drop-append, drop-all, ok,
  lookup, insert, erase, arith,
}
use epoll_model.Memory.{of_le, write_at, new_char, u32}
use epoll_model.Memory.Copies.{read_at-front, write_at-next, length-new_char}
use epoll_model.Memory.Words.{of_le-append, read_word-front}
use epoll_model.TaskController.{TaskData, Controller, return, again, add_task, receive}
use epoll_model.TaskController.Stream.{IsFrame, IsPart}

-- A copy to the start of new memory.
pub write_new :
    (n : ℕ) (c : List ℕ)
    → length c ≤ n
    → write_at (new_char n) 0 c ≡ ok (c ++ drop (length c) (new_char n))
write_new n c h = write_at-next [] (new_char n) c 0 refl (omega (arith, length-new_char n))

u32-small' : (n : ℕ) → n < 2 ^ 32 → u32 n ≡ n
u32-small' n h = omega arith

take_two :
    (k : ℕ) (xs ys zs : List ℕ) → k ≡ length xs + length ys → take k (xs ++ (ys ++ zs)) ≡ xs ++ ys
take_two k xs ys zs e =
    ap (take k) (sym (append_assoc xs ys zs))
    ∙ take-append k (xs ++ ys) zs (omega (arith, length-append xs ys))

part_length :
    (f : List ℕ) (n : ℕ) (q c rest : List ℕ)
    → drop n f ≡ q
    → q ≡ c ++ rest
    → 0 < length rest
    → n + length c + length rest ≡ length f
part_length f n q c rest e s h =
    omega (arith, ap length e, ap length s, length-append c rest, length-drop n f)

module _ (ctl : Controller) (client : ℕ) where
  -- The task that a whole frame becomes at once.
  abbrev pub task_of : List ℕ → TaskData
  task_of f = record { client_id = client; databuf = f; len = length f; cur_len = 0 }

  pub receive_whole :
      (f more : List ℕ) (len : ℕ)
      → lookup client ctl.recv_list ≡ none
      → IsFrame f
      → length f ≤ len
      → receive ctl client (f ++ more) len
        ≡ ok (
            if ltb (length f) len
            then again (add_task ctl (task_of f)) more (len - length f)
            else return (add_task ctl (task_of f)))
  unfolding receive
  receive_whole f more len free fr h =
      let e = write_new (length f) f (omega arith) in
      rw
        (
          free,
          receive,
          read_word-front f more fr.header,
          fr.announced,
          le→leb (length f) len h,
          read_at-front f more (length f) refl,
          e,
          drop-all (length f) (new_char (length f)) (sym (length-new_char (length f))),
          append-nil,
          drop-append (length f) f more refl,
        )
        refl

  -- The first bytes of a frame that is longer than what came.
  pub receive_beginning :
      (f c rest junk : List ℕ)
      → lookup client ctl.recv_list ≡ none
      → IsFrame f
      → f ≡ c ++ rest
      → 4 ≤ length c
      → 0 < length rest
      → (t : TaskData) × (receive ctl client (c ++ junk) (length c)
          ≡ ok (return (record ctl { recv_list = insert client t ctl.recv_list })))
        × IsPart client f (length c) t
  unfolding receive
  receive_beginning f c rest junk free fr e h k =
      let n = length f in
      let le : n ≡ length c + length rest = omega (arith, ap length e, length-append c rest) in
      let announced : of_le c ≡ n = sym (of_le-append c rest h) ∙ ap of_le (sym e) ∙ fr.announced in
      let fresh = c ++ drop (length c) (new_char n) in
      (
        record { client_id = client; databuf = fresh; len = n; cur_len = u32 (0 + length c) },
        rw
            (
              free,
              receive,
              read_word-front c junk h,
              announced,
              lt→leb_false n (length c) (omega arith),
              read_at-front c junk (length c) refl,
              write_new n c (omega arith),
            )
            refl,
        record {
          of_client = refl;
          whole = refl;
          so_far = small (length c) (omega (arith, fr.small));
          room = omega (
            arith,
            length-append c (drop (length c) (new_char n)),
            length-drop (length c) (new_char n),
            length-new_char n,
          );
          front = take-append (length c) c _ refl ∙ sym (rw e (take-append (length c) c rest refl));
        },
      )
    where
      small : (k : ℕ) → k < 2 ^ 31 → u32 (0 + k) ≡ k
      small k h = omega arith

  -- More bytes of a frame that waits, and still not all.
  pub receive_more :
      (f c rest junk : List ℕ) (n : ℕ) (t : TaskData)
      → lookup client ctl.recv_list ≡ some t
      → IsFrame f
      → IsPart client f n t
      → drop n f ≡ c ++ rest
      → 0 < length rest
      → (t' : TaskData) × (receive ctl client (c ++ junk) (length c)
          ≡ ok (return (record ctl { recv_list = insert client t' ctl.recv_list })))
        × IsPart client f (n + length c) t'
  unfolding receive
  receive_more f c rest junk n t held fr part e h =
      let fits : n + length c + length rest ≡ length f =
        part_length f n (c ++ rest) c rest e refl h in
      let back = drop n t.databuf in
      let split : t.databuf ≡ take n f ++ back =
        sym (take-append-drop n t.databuf) ∙ ap (λ (p : List ℕ). p ++ back) part.front in
      let ln = length-take n f (omega arith) in
      let lb = length-drop n t.databuf in
      let written = write_at-next (take n f) back c n (sym ln) (omega (arith, part.room)) in
      let rev = take n f ++ (c ++ drop (length c) back) in
      let waits = lt→ltb (u32 (length c + t.cur_len)) t.len (omega (arith, fr.small)) in
      let whole : f ≡ take n f ++ (c ++ rest) =
        sym (take-append-drop n f) ∙ ap (λ (q : List ℕ). take n f ++ q) e in
      let store : write_at t.databuf t.cur_len c ≡ ok rev =
        rw part.so_far (ap (λ (d : List ℕ). write_at d n c) split ∙ written) in
      (
        record t { databuf = rev; cur_len = u32 (t.cur_len + length c) },
        rw (held, receive, waits, read_at-front c junk (length c) refl, store) refl,
        record {
          of_client = part.of_client;
          whole = part.whole;
          so_far = omega (arith, fr.small, part.so_far);
          room = omega (
            arith,
            part.room,
            length-append (take n f) (c ++ drop (length c) back),
            length-append c (drop (length c) back),
            length-drop (length c) back,
          );
          front =
              take_two (n + length c) (take n f) c _ (omega arith)
              ∙ sym (
                  ap (take (n + length c)) whole
                  ∙ take_two (n + length c) (take n f) c rest (omega arith));
        },
      )

  -- The bytes that complete a frame, and perhaps more.
  pub receive_complete :
      (f more : List ℕ) (n len : ℕ) (t : TaskData)
      → lookup client ctl.recv_list ≡ some t
      → IsFrame f
      → IsPart client f n t
      → n ≤ length f
      → length f - n ≤ len
      → len < 2 ^ 31
      → let c' = record (add_task ctl (record t { databuf = f })) {
        recv_list = erase client ctl.recv_list;
      } in
        receive ctl client (drop n f ++ more) len
        ≡ ok (if ltb (length f) (len + n) then again c' more (len - (length f - n)) else return c')
  unfolding receive
  receive_complete f more n len t held fr part h k l =
      let q = drop n f in
      let lq = length-drop n f in
      let back = drop n t.databuf in
      let split : t.databuf ≡ take n f ++ back =
        sym (take-append-drop n t.databuf) ∙ ap (λ (p : List ℕ). p ++ back) part.front in
      let ln = length-take n f h in
      let lb = length-drop n t.databuf in
      let lacks : u32 (length f + 2 ^ 32 - n) ≡ length f - n = omega (arith, fr.small) in
      let left : u32 (len + 2 ^ 32 - (length f - n)) ≡ len - (length f - n) = omega arith in
      let written = write_at-next (take n f) back q n (sym ln) (omega (arith, part.room)) in
      let store : write_at t.databuf n q ≡ ok f = rw split (
        written
        ∙ ap ok (
            rw (drop-all (length q) back (omega (arith, part.room)), append-nil)
              (take-append-drop n f))) in
      rw
        (
          held,
          receive,
          part.whole,
          part.so_far,
          u32-small' (len + n) (omega (arith, fr.small)),
          le→ltb_false (len + n) (length f) (omega arith),
          lacks,
          left,
          read_at-front q more (length f - n) (sym lq),
          store,
          drop-append (length f - n) q more (sym lq),
        )
        refl

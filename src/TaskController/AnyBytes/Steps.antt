-- ===== src/TaskController/AnyBytes/Steps.antt =====
-- One activation of makeNewTask on any bytes: without an entry for the client, and with one.
use epoll_model.Prelude.{
  ℕ, ◌+◌, ◌-◌, ◌≤◌, ◌<◌, ◌^◌, ◌≡◌, refl, ◌∙◌, none, some, List, [], ◌∷◌, ◌++◌, take, drop, ltb,
  lt→ltb, le→ltb_false, le→leb, lt→leb_false, length-take, if◌then◌else◌, ok, ==_refl, lookup,
  insert, erase, lookup-erase, arith,
}
use native.Mathlib.Decide.{dec_le, dec_lt}
use epoll_model.Memory.{u32, read_at, write_at, new_char}
use epoll_model.Memory.Copies.{read_at-prefix, write_at-ok, length-new_char}
use epoll_model.TaskController.{
  TaskData, Controller, return, again, add_task, first_whole, first_part, first_bytes, append_bytes,
  complete, more_bytes, receive,
}
use epoll_model.TaskController.AnyBytes.{
  AllPending, AllPending-insert, AllPending-erase, of_le-lt, AllBytes-take, first_word, read_first,
  Given, Progress, returns, goes_on, loops,
}

pub first_Progress :
    (ctl : Controller) (client : ℕ) (buf : List ℕ) (len : ℕ)
    → AllPending ctl.recv_list
    → Given buf len
    → lookup client ctl.recv_list ≡ none
    → Progress ctl client buf len
unfolding receive first_bytes first_whole first_part add_task
first_Progress ctl client buf len a g free =
    let total = first_word buf in
    let word = read_first buf (omega (arith, g.behind, g.some_bytes)) in
    let below = of_le-lt (take 4 buf) (AllBytes-take 4 buf g.bytes) in
    let fresh = length-new_char total in
    elim (dec_le total len) [
      | yes fits ↦
          let n = length-take total buf (omega (arith, g.behind)) in
          let (rev, wrote, _) = write_at-ok (new_char total) (take total buf) 0 (omega arith) in
          let read = read_at-prefix buf total (omega (arith, g.behind)) in
          let t : TaskData = record {
            client_id = client;
            databuf = rev;
            len = total;
            cur_len = 0;
          } in
          elim (dec_lt total len) [
            | no exact ↦
                returns (add_task ctl t)
                  (rw
                    (
                      free,
                      receive,
                      word,
                      le→leb total len fits,
                      read,
                      wrote,
                      le→ltb_false total len (omega arith),
                    )
                    refl)
                  a
            | yes more ↦ elim (dec_lt 0 total) [
              | no nothing ↦ loops free (omega arith)
              | yes something ↦
                  goes_on (add_task ctl t) total
                    (rw
                      (
                        free,
                        receive,
                        word,
                        le→leb total len fits,
                        read,
                        wrote,
                        lt→ltb total len more,
                      )
                      refl)
                    a free something more
            ]
          ]
      | no longer ↦
          let n = length-take len buf (omega (arith, g.behind)) in
          let (rev, wrote, same) = write_at-ok (new_char total) (take len buf) 0 (omega arith) in
          let read = read_at-prefix buf len (omega (arith, g.behind)) in
          let t : TaskData = record {
            client_id = client;
            databuf = rev;
            len = total;
            cur_len = u32 (0 + len);
          } in
          returns (record ctl { recv_list = insert client t ctl.recv_list })
            (rw (free, receive, word, lt→leb_false total len (omega arith), read, wrote) refl)
            (AllPending-insert client t ctl.recv_list a
              (record { lacks = omega (arith, g.short); room = same ∙ fresh; small = below }))
    ]

module _ (ctl : Controller) (client : ℕ) (t : TaskData) (buf : List ℕ) (len : ℕ) (rev : List ℕ)
    (held : lookup client ctl.recv_list ≡ some t)
    (sum : u32 (len + t.cur_len) ≡ len + t.cur_len) where
  append_step :
      len + t.cur_len < t.len
      → read_at buf 0 len ≡ ok (take len buf)
      → write_at t.databuf t.cur_len (take len buf) ≡ ok rev
      → receive ctl client buf len
        ≡ ok (
            return (record ctl {
              recv_list =
                  insert client
                    (record t { databuf = rev; cur_len = u32 (t.cur_len + len) })
                    ctl.recv_list;
            }))
  unfolding receive more_bytes append_bytes
  append_step still read wrote =
      rw (held, receive, sum, lt→ltb (len + t.cur_len) t.len still, read, wrote) refl

  abbrev completed : Controller
  completed = record ctl {
    recv_list = erase client ctl.recv_list;
    added = ctl.added ++ record t { databuf = rev } ∷ [];
  }

  complete_step :
      (k : ℕ)
      → t.len ≤ len + t.cur_len
      → u32 (t.len + 2 ^ 32 - t.cur_len) ≡ k
      → u32 (len + 2 ^ 32 - k) ≡ len - k
      → read_at buf 0 k ≡ ok (take k buf)
      → write_at t.databuf t.cur_len (take k buf) ≡ ok rev
      → receive ctl client buf len
        ≡ ok (
            if ltb t.len (len + t.cur_len)
            then again completed (drop k buf) (len - k)
            else return completed)
  unfolding receive more_bytes complete add_task
  complete_step k enough lacking left read wrote =
      rw
        (
          held,
          receive,
          sum,
          le→ltb_false (len + t.cur_len) t.len enough,
          lacking,
          read,
          wrote,
          left,
        )
        refl

pub more_Progress :
    (ctl : Controller) (client : ℕ) (t : TaskData) (buf : List ℕ) (len : ℕ)
    → AllPending ctl.recv_list
    → Given buf len
    → lookup client ctl.recv_list ≡ some t
    → t.len + len < 2 ^ 32
    → Progress ctl client buf len
more_Progress ctl client t buf len a g held small =
    let p = a client t held in
    let before = p.lacks in
    let room = p.room in
    let sum : u32 (len + t.cur_len) ≡ len + t.cur_len = omega arith in
    elim (dec_lt (len + t.cur_len) t.len) [
      | yes still ↦
          let n = length-take len buf (omega (arith, g.behind)) in
          let (rev, wrote, same) = write_at-ok t.databuf (take len buf) t.cur_len (omega arith) in
          let read = read_at-prefix buf len (omega (arith, g.behind)) in
          let sum' : u32 (t.cur_len + len) ≡ t.cur_len + len = omega arith in
          let t' : TaskData = record t { databuf = rev; cur_len = u32 (t.cur_len + len) } in
          returns (record ctl { recv_list = insert client t' ctl.recv_list })
            (append_step ctl client t buf len rev held sum still read wrote)
            (AllPending-insert client t' ctl.recv_list a
              (record { lacks = omega arith; room = same ∙ room; small = p.small }))
      | no enough ↦
          let k = t.len - t.cur_len in
          let lacking : u32 (t.len + 2 ^ 32 - t.cur_len) ≡ k = omega (arith, p.small) in
          let n = length-take k buf (omega (arith, g.behind)) in
          let (rev, wrote, _) = write_at-ok t.databuf (take k buf) t.cur_len (omega arith) in
          let read = read_at-prefix buf k (omega (arith, g.behind)) in
          let left : u32 (len + 2 ^ 32 - k) ≡ len - k = omega (arith, g.short) in
          let ctl' = completed ctl client t buf len rev held sum in
          let step =
            complete_step ctl client t buf len rev held sum k (omega arith) lacking left read
              wrote in
          let a' = AllPending-erase client ctl.recv_list a in
          elim (dec_lt t.len (len + t.cur_len)) [
            | yes more ↦
                goes_on ctl' k (rw (lt→ltb t.len (len + t.cur_len) more) at step) a'
                  (lookup-erase {V = TaskData} client client ctl.recv_list
                    ∙ rw (==_refl client) refl)
                  (omega arith) (omega arith)
            | no exact ↦
                returns ctl' (rw (le→ltb_false t.len (len + t.cur_len) (omega arith)) at step) a'
          ]
    ]

-- ===== src/TaskController/Malformed.antt =====
-- What makeNewTask does with a length that no frame announces.
use epoll_model.Prelude.{
  ℕ, zero, suc, ◌-◌, ◌≤◌, ◌≡◌, refl, none, List, [], ◌++◌, length, le→leb, lt→ltb, ok, stuck,
  lookup, arith,
}
use epoll_model.Memory.{read_at, write_at, new_char, of_le}
use epoll_model.Memory.Copies.{read_at-prefix}
use epoll_model.Memory.Words.{read_word-front}
use epoll_model.TaskController.{TaskData, Controller, again, add_task, receive, make_new_task}

empty_task : ℕ → TaskData
empty_task client = record { client_id = client; databuf = []; len = 0; cur_len = 0 }

-- A message that announces the length 0 and has at least one byte: makeNewTask adds an empty task and
-- calls itself on the same bytes, so it does not return, whatever number of calls it is given.
zero_step :
    (ctl : Controller) (client : ℕ) (c junk : List ℕ)
    → lookup client ctl.recv_list ≡ none
    → 4 ≤ length c
    → of_le c ≡ 0
    → receive ctl client (c ++ junk) (length c)
      ≡ ok (again (add_task ctl (empty_task client)) (c ++ junk) (length c))
unfolding receive empty_task add_task
zero_step ctl client c junk free h z =
    let some_bytes : length c - 0 ≡ length c = omega arith in
    let copied : read_at (c ++ junk) 0 0 ≡ ok [] = read_at-prefix (c ++ junk) 0 (omega arith) in
    let fresh : write_at (new_char 0) 0 [] ≡ ok [] = unfold write_at new_char in refl in
    rw (free, receive, read_word-front c junk h, z, le→leb 0 (length c) (omega arith))
      (rw (copied, fresh, lt→ltb 0 (length c) (omega arith), some_bytes) refl)

-- A client that waits for nothing and announces the length 0: makeNewTask adds an empty task and calls
-- itself on the same bytes for ever. No number of calls is enough for it to return.
pub make_new_task-zero :
    (fuel : ℕ) (ctl : Controller) (client : ℕ) (c junk : List ℕ)
    → lookup client ctl.recv_list ≡ none
    → 4 ≤ length c
    → of_le c ≡ 0
    → make_new_task fuel ctl client (c ++ junk) (length c) ≡ stuck
unfolding make_new_task add_task
make_new_task-zero zero ctl client c junk free h z = refl
make_new_task-zero (suc fuel) ctl client c junk free h z =
    rw (zero_step ctl client c junk free h z)
      (make_new_task-zero fuel (add_task ctl (empty_task client)) client c junk free h z)

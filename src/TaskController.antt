-- ===== src/TaskController.antt =====
-- server/taskController.h and server/taskController.cpp: requests put together from what the
-- sockets receive, and answered.
pub mod Stream
pub mod Receive
pub mod Positions
pub mod Feeding
pub mod Reassembly
pub mod Delivery
pub mod Remaining
pub mod Interleaving
pub mod Reception
pub mod Malformed
pub mod CutHeader
pub mod AnyBytes
pub mod Totality
pub mod Processing
use epoll_model.Prelude.{
  ℕ, zero, suc, ◌+◌, ◌-◌, ◌^◌, Option, none, some, List, [], ◌∷◌, ◌++◌, length, take, drop, ltb,
  leb, ◌==◌, if◌then◌else◌, ℤ, pos, minus_one, eq_ℤ, replicate, Outcome, ok, fault, stuck, ◌>>=◌,
  lookup, insert, erase,
}
use epoll_model.Memory.{u32, read_at, write_at, new_char, read_word}

-- `m_databuf` is the object of `m_len` bytes, as far as it is written.
pub record TaskData : Type 0 where
  pub client_id : ℕ
  pub databuf : List ℕ
  pub len : ℕ
  pub cur_len : ℕ

-- `m_recvList`, and the tasks handed to `threadPool::addTask` so far, oldest first.
pub record Controller : Type 0 where
  pub recv_list : List (ℕ × TaskData)
  pub added : List TaskData

pub add_task : Controller → TaskData → Controller
add_task c t = record c { added = c.added ++ t ∷ [] }

-- How a call of makeNewTask ends: it returns, or it calls itself on the rest of the bytes.
pub data Next : Type 0 where
  return : Controller → Next
  again : Controller → List ℕ → ℕ → Next

-- The request is here whole: it becomes a task, and what follows it is received next.
first_whole : Controller → ℕ → List ℕ → ℕ → ℕ → Outcome Next
unfolding add_task
first_whole c client buf len total = do
  bytes ← read_at buf 0 total
  rev ← write_at (new_char total) 0 bytes
  let c' = add_task c (record { client_id = client; databuf = rev; len = total; cur_len = 0 })
  ok (if ltb total len then again c' (drop total buf) (len - total) else return c')

-- It is not: its first bytes wait in the map.
first_part : Controller → ℕ → List ℕ → ℕ → ℕ → Outcome Next
first_part c client buf len total = do
  bytes ← read_at buf 0 len
  rev ← write_at (new_char total) 0 bytes
  let t : TaskData = record {
    client_id = client;
    databuf = rev;
    len = total;
    cur_len = u32 (0 + len);
  }
  ok (return (record c { recv_list = insert client t c.recv_list }))

-- No request of this client is waiting for bytes. `new char[n]` does not return NULL.
first_bytes : Controller → ℕ → List ℕ → ℕ → Outcome Next
unfolding first_whole first_part
first_bytes c client buf len = do
  total ← read_word buf 0
  if leb total len then first_whole c client buf len total else first_part c client buf len total

-- `t` waits for more bytes than came. It is changed in place, so the map sees the change.
append_bytes : Controller → ℕ → TaskData → List ℕ → ℕ → Outcome Next
append_bytes c client t buf len = do
  bytes ← read_at buf 0 len
  rev ← write_at t.databuf t.cur_len bytes
  let t' = record t { databuf = rev; cur_len = u32 (t.cur_len + len) }
  ok (return (record c { recv_list = insert client t' c.recv_list }))

-- The bytes complete `t`.
complete : Controller → ℕ → TaskData → List ℕ → ℕ → Outcome Next
unfolding add_task
complete c client t buf len = do
  let lacking = u32 (t.len + 2 ^ 32 - t.cur_len)
  bytes ← read_at buf 0 lacking
  rev ← write_at t.databuf t.cur_len bytes
  let c' = add_task c (record t { databuf = rev })
  let c'' = record c' { recv_list = erase client c'.recv_list }
  let after = again c'' (drop lacking buf) (u32 (len + 2 ^ 32 - lacking))
  ok (if ltb t.len (u32 (len + t.cur_len)) then after else return c'')

more_bytes : Controller → ℕ → TaskData → List ℕ → ℕ → Outcome Next
unfolding append_bytes complete
more_bytes c client t buf len =
    if ltb (u32 (len + t.cur_len)) t.len
    then append_bytes c client t buf len
    else complete c client t buf len

-- One activation of makeNewTask. `buf` is the memory from the pointer to the end of its object, of
-- which the first `len` bytes are received.
pub receive : Controller → ℕ → List ℕ → ℕ → Outcome Next
unfolding first_bytes more_bytes
receive c client buf len = elim (lookup client c.recv_list) [
  | none ↦ first_bytes c client buf len
  | some t ↦ more_bytes c client t buf len
]

-- makeNewTask, with fuel for the calls to itself.
unfoldable pub make_new_task : ℕ → Controller → ℕ → List ℕ → ℕ → Outcome Controller
unfolding receive
make_new_task zero c client buf len = stuck
make_new_task (suc fuel) c client buf len = do
  n ← receive c client buf len
  elim n [ return c' ↦ ok c' | again c' buf' len' ↦ make_new_task fuel c' client buf' len' ]

-- onRecv. Every call to itself leaves fewer bytes, unless a length of 0 is announced.
unfoldable pub on_recv : Controller → ℕ → List ℕ → ℕ → Outcome Controller
unfolding make_new_task
on_recv c client buf len = make_new_task (suc len) c client buf len

-- The calls of onRecv for the chunks that `recv` returns; behind a chunk `x` the receive buffer holds
-- the bytes `after x`.
unfoldable pub receive_all : (List ℕ → List ℕ) → Controller → ℕ → List (List ℕ) → Outcome Controller
unfolding on_recv
receive_all after c client [] = ok c
receive_all after c client (x ∷ xs) = do
  c' ← on_recv c client (x ++ after x) (length x)
  receive_all after c' client xs

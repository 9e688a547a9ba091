-- ===== src/Socket.antt =====
-- server/socket/socketBase.h and server/socket/socketBase.cpp: the listening socket, the queues of
-- data to send, and what its three threads do with one event of epoll. What the kernel answers is an
-- argument; the calls that are made of it are part of the result, in their order.
pub mod Ops
pub mod Queues
pub mod Events
pub mod Receiving
pub mod Listening
pub mod Loops
pub mod Threads
pub mod Writing
pub mod HangUps
pub mod Addresses
use Prim.Native.Nat.{bit_or}
use epoll_model.Prelude.{
  ℕ, ◌+◌, ◌*◌, ◌≡◌, refl, Bool, true, false, ◌||◌, not, ◌&&◌, Option, none, some, List, [], ◌∷◌,
  ◌++◌, length, ltb, if◌then◌else◌, ℤ, pos, minus_one, is_positive, is_negative, eq_ℤ, Outcome, ok,
  ◌>>=◌, lookup, insert, erase,
}
use epoll_model.Memory.{read_at, write_at, filled}

abbrev pub epoll_event_size : ℕ
epoll_event_size = 1024

abbrev pub socket_recv_buffer_len : ℕ
socket_recv_buffer_len = 32 * 1024

-- Calls of the kernel that change something, with their arguments.
pub data Call : Type 0 where
  listens : (socket backlog : ℤ) → Call
  creates_epoll : (size : ℕ) → Call
  adds : (epfd socket : ℤ) (for_output : Bool) → Call
  removes : (epfd socket : ℤ) → Call
  accepts : (socket : ℤ) → Call
  sets_flags : (socket : ℤ) (flags : ℕ) → Call
  sends : (socket : ℤ) (bytes : List ℕ) → Call
  closes : (socket : ℤ) → Call
  starts_threads joins_threads : Call

-- class sendData
pub record SendData : Type 0 where
  pub client_id : ℤ
  pub databuf : List ℕ
  pub len : ℕ

-- class socketBase. `m_sendDataList` has descriptors for keys, none of which is negative.
pub record Socket : Type 0 where
  pub has_listener : Bool
  pub multi_thread : Bool
  pub socket : ℤ
  pub epfd : ℤ
  pub has_threads : Bool
  pub send_data_list : List (ℕ × List SendData)

-- The constructor. It leaves `m_epfd` unset.
unfoldable pub socket_base : Bool → ℤ → Socket
socket_base multi epfd = record {
  has_listener = false;
  multi_thread = multi;
  socket = minus_one;
  epfd = epfd;
  has_threads = false;
  send_data_list = [];
}

unfoldable pub set_listener : Socket → Socket
set_listener s = record s { has_listener = true }

-- What `::listen`, `epoll_create` and `epoll_ctl` return.
pub record ListenAnswers : Type 0 where
  pub listened : ℤ
  pub created : ℤ
  pub added : ℤ

unfoldable pub listen : ListenAnswers → ℤ → Socket → Socket × ℤ × List Call
listen a backlog s =
    if is_positive s.socket
    then (let first = listens s.socket backlog ∷ creates_epoll epoll_event_size ∷ [] in
        let s' : Socket = record s { epfd = a.created } in
        let calls = first ++ adds a.created s.socket false ∷ [] in
        if eq_ℤ a.listened minus_one
        then (s, minus_one, listens s.socket backlog ∷ [])
        else if eq_ℤ a.created minus_one
        then (s', minus_one, first)
        else if eq_ℤ a.added minus_one
        then (s', minus_one, calls)
        else if s.multi_thread
        then (record s' { has_threads = true }, pos 0, calls ++ starts_threads ∷ [])
        else (s', pos 0, calls))
    else (s, minus_one, [])

-- The entry of a key, where `m[k]` makes an empty one.
abbrev pub entry : ℕ → List (ℕ × List SendData) → List SendData
entry k m = elim (lookup k m) [ none ↦ [] | some ds ↦ ds ]

-- socketBase::send. The lock is held around the change of the list.
unfoldable pub send : Socket → ℤ → List ℕ → ℕ → Outcome (Socket × ℤ)
send s (ℤ.negsuc n) buf len = ok (s, minus_one)
send s (pos client) buf len = if not (ltb 0 client) then ok (s, minus_one) else do
  let send_buf = filled len 0
  bytes ← read_at buf 0 len
  send_buf ← write_at send_buf 0 bytes
  let d : SendData = record { client_id = pos client; databuf = send_buf; len = len }
  let list = insert client (entry client s.send_data_list ++ d ∷ []) s.send_data_list
  ok (record s { send_data_list = list }, minus_one)

-- One `epoll_event`.
pub record Event : Type 0 where
  pub fd : ℕ
  pub err : Bool
  pub hup : Bool
  pub input : Bool
  pub output : Bool

abbrev pub is_own : Socket → Event → Bool
is_own s e = eq_ℤ (pos e.fd) s.socket

-- The client's list, taken with `m[k]`: its front leaves it and is sent.
pub pop_front : Socket → ℕ → List SendData → Socket × List Call
pop_front s fd [] = (record s { send_data_list = insert fd [] s.send_data_list }, [])
pop_front s fd (d ∷ ds) =
    (record s { send_data_list = insert fd ds s.send_data_list }, sends (pos fd) d.databuf ∷ [])

-- Only if the map is not empty.
pub pop_entry : Socket → ℕ → List (ℕ × List SendData) → Socket × List Call
unfolding pop_front
pop_entry s fd [] = (s, [])
pop_entry s fd (_ ∷ _) = pop_front s fd (entry fd s.send_data_list)

-- The body of the loop of threadSendFun. The lock is held from the size test to the pop.
unfoldable pub send_event : Socket → Event → Socket × List Call
unfolding pop_entry
send_event s e =
    if is_own s e
    then (s, [])
    else if not e.output
    then (s, [])
    else pop_entry s e.fd s.send_data_list

-- socketBase::accept, which `accepted` answers.
accept : Socket → ℤ → ℤ × List Call
accept s accepted =
    if is_positive s.socket then (accepted, accepts s.socket ∷ []) else (minus_one, [])

-- What `::accept`, the first `fcntl` and `epoll_ctl` return.
pub record AcceptAnswers : Type 0 where
  pub accepted : ℤ
  pub flags : ℕ
  pub added : ℤ

abbrev pub o_nonblock : ℕ
o_nonblock = 2048

-- The branch of threadListenFun for an event of its own socket.
unfoldable pub accept_event : AcceptAnswers → Socket → Socket × List Call
unfolding accept
accept_event a s =
    let client = (accept s a.accepted).0 in
    let first = (accept s a.accepted).1 in
    let calls =
      first ++ (sets_flags client (bit_or a.flags o_nonblock) ∷ adds s.epfd client true ∷ []) in
    if is_negative client
    then (s, first)
    else if eq_ℤ a.added minus_one
    then (s, calls ++ closes client ∷ [])
    else (s, calls)

-- The branch for an event of a client.
unfoldable pub hangup_event : Socket → Event → Socket × List Call
hangup_event s e =
    if e.err || e.hup
    then (
      record s { send_data_list = erase e.fd s.send_data_list },
      closes (pos e.fd) ∷ removes s.epfd (pos e.fd) ∷ [],
    )
    else (s, [])

-- The body of the loop of threadListenFun.
unfoldable pub listen_event : AcceptAnswers → Socket → Event → Socket × List Call
unfolding accept_event hangup_event
listen_event a s e = if is_own s e then accept_event a s else hangup_event s e

-- socketBase::closeSocket
unfoldable pub close_socket : Socket → ℤ × List Call
close_socket s =
    let calls = closes s.epfd ∷ closes s.socket ∷ [] in
    if s.multi_thread && s.has_threads then (pos 0, calls ++ joins_threads ∷ []) else (pos 0, calls)

-- The body of the destructor, which closes nothing.
pub end_socket_base : Socket → Socket
end_socket_base s = record s { socket = minus_one }

-- The buffer that threadRecvFun hands on: cleared, and then filled by `recv` from its start.
unfoldable pub recv_buffer : List ℕ → Outcome (List ℕ)
recv_buffer bytes = write_at (filled socket_recv_buffer_len 0) 0 bytes

-- ===== src/Server.antt =====
-- main of server/server.cpp.
use epoll_model.Prelude.{
  ℕ, ◌≡◌, refl, Bool, true, false, none, some, List, [], ◌∷◌, ◌++◌, if◌then◌else◌, ℤ, pos, negsuc,
  minus_one, is_positive, eq_ℤ, Outcome, ok, fault, stuck, ◌>>=◌, arith,
}
use epoll_model.Socket.{
  Socket, Call, listens, creates_epoll, adds, starts_threads, ListenAnswers, socket_base,
  set_listener, listen,
}
use epoll_model.Socket.Listening.{all_well}
use epoll_model.Socket.Addresses.{
  AddressCall, makes, unlinks, binds, local_address, af_unix, make_socket, unix_socket, unix_bind,
  c_string,
}
use epoll_model.Socket.Addresses.Agreement.{unix_bind-connect}
use epoll_model.ThreadPool.{ThreadPool}
use epoll_model.ThreadPool.Instance.{task_controller, end_controller}

-- What `socket`, `bind` and the calls of `listen` return.
pub record StartAnswers : Type 0 where
  pub made : ℤ
  pub bound : ℤ
  pub listening : ListenAnswers

-- main returns a value, or it sleeps for ever, or the destructor of `tc` does not end.
pub data End : Type 0 where
  returns : ℤ → End
  sleeps : End
  hangs : End

-- `return r`, which destroys `tc`.
unfoldable pub leave : ThreadPool → ℤ → End
unfolding end_controller
leave pool r = elim (end_controller (some pool)) [
  | ok o ↦ returns r
  | fault ↦ hangs
  | stuck ↦ hangs
]

-- "/tmp/socket_wg_tde_server"
abbrev pub server_socket : List ℕ
server_socket =
    b'/' ∷ b't' ∷ b'm' ∷ b'p' ∷ b'/' ∷ b's' ∷ b'o' ∷ b'c' ∷ b'k' ∷ b'e' ∷ b't' ∷ b'_' ∷ b'w' ∷ b'g'
    ∷ b'_' ∷ b't' ∷ b'd' ∷ b'e' ∷ b'_' ∷ b's' ∷ b'e' ∷ b'r' ∷ b'v' ∷ b'e' ∷ b'r' ∷ []

-- The socket and the pool of threads at the end, and the calls of the kernel. `epfd` is the unset
-- `m_epfd`, and `prompt` says whether the first threads set their states in time.
unfoldable pub main :
    StartAnswers
    → (epfd : ℤ) → (prompt : Bool)
    → Outcome (End × Socket × ThreadPool × List AddressCall × List Call)
unfolding socket_base set_listener make_socket unix_bind listen leave
main a epfd prompt =
    let pool = task_controller none prompt in
    let s = set_listener (socket_base true epfd) in
    let (s', fd, made) = unix_socket a.made s in
    if eq_ℤ fd minus_one then ok (leave pool minus_one, s', pool, made, []) else do
      (r, bound) ← unix_bind a.bound s' server_socket
      let first = made ++ bound
      let (s'', r', calls) = listen a.listening (pos 5) s'
      if eq_ℤ r minus_one
          then ok (leave pool minus_one, s', pool, first, [])
          else if eq_ℤ r' minus_one
          then ok (leave pool minus_one, s'', pool, first, calls)
          else ok (sleeps, s'', pool, first, calls)

-- No call fails, and the descriptor is not 0.
pub record Starts (a : StartAnswers) : Type 0 where
  pub opened : is_positive a.made ≡ true
  pub binding : eq_ℤ a.bound minus_one ≡ false
  pub listening : eq_ℤ a.listening.listened minus_one ≡ false
  pub making : eq_ℤ a.listening.created minus_one ≡ false
  pub adding : eq_ℤ a.listening.added minus_one ≡ false

not_minus_one : (n : ℤ) → is_positive n ≡ true → eq_ℤ n minus_one ≡ false
not_minus_one (pos n) h = refl
not_minus_one (negsuc n) h = cc (h)

-- Where the descriptor is positive and neither `bind` nor a call of `listen` returns -1, main sleeps
-- with a socket that has this descriptor, its listener, its threads and nothing to send, after exactly
-- the calls of a start, in their order.
pub main-serves :
    (a : StartAnswers) (epfd : ℤ) (prompt : Bool)
    → Starts a
    → (s : Socket) × (path : List ℕ) × (main a epfd prompt
        ≡ ok (
          sleeps,
          s,
          task_controller none prompt,
          makes af_unix ∷ unlinks server_socket ∷ binds a.made (local_address path 27) ∷ [],
          listens a.made (pos 5)
              ∷ creates_epoll 1024
              ∷ adds a.listening.created a.made false
              ∷ starts_threads
              ∷ [],
        ))
      × (s.has_listener ≡ true)
      × (s.has_threads ≡ true)
      × (s.socket ≡ a.made)
      × (s.send_data_list ≡ [])
unfolding main make_socket socket_base set_listener listen c_string
main-serves a epfd prompt st =
    let s' : Socket = record (set_listener (socket_base true epfd)) { socket = a.made } in
    let (path, _, bind, _) =
      unix_bind-connect s' a.made a.bound a.bound server_socket 0 st.opened st.opened
        (omega arith) in
    (
      record s' { epfd = a.listening.created; has_threads = true },
      path,
      rw
          (
            not_minus_one a.made st.opened,
            bind,
            st.binding,
            st.opened,
            st.listening,
            st.making,
            st.adding,
          )
          refl,
      refl,
      refl,
      refl,
      refl,
    )

-- Every call succeeds, and the descriptor is not 0.
abbrev pub starts : StartAnswers → Bool
starts a =
    if is_positive a.made
    then (if eq_ℤ a.bound minus_one
        then false
        else all_well a.listening (record (socket_base true (pos 0)) { socket = a.made }))
    else false

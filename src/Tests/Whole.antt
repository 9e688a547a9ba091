-- ===== src/Tests/Whole.antt =====
-- The server and the path of a request at concrete inputs.
use epoll_model.Prelude.{
  ◌<◌, ℕ, ◌+◌, ◌*◌, ◌≡◌, refl, Bool, true, false, none, some, List, [], ◌∷◌, pos, minus_one, ok,
  arith,
}
use epoll_model.Socket.{Socket, Event, AcceptAnswers}
use epoll_model.Socket.Ops.{sent, queued}
use epoll_model.Socket.Addresses.{
  af_inet, internet_address, ipv4_connect, ipv4_bind, unlinks, binds, connects, local_address,
  c_string, unix_bind, unix_connect,
}
use epoll_model.Socket.Addresses.Agreement.{ipv4_connect-bind, unix_bind-connect}
use epoll_model.ThreadPool.Instance.{task_controller}
use epoll_model.Socket.{listens, creates_epoll, adds, starts_threads}
use epoll_model.Socket.Addresses.{makes, af_unix}
use epoll_model.Prelude.{length, lookup}
use epoll_model.Prelude.{Option, ◌⊎◌}
use epoll_model.Socket.{ListenAnswers, listen}
use epoll_model.Socket.Loops.{thread_send_fun, thread_listen_fun}
use epoll_model.Socket.Threads.{until_error}
use epoll_model.Socket.Writing.{servings, thread_send_fun-takes}
use epoll_model.Socket.HangUps.{endings, removed, thread_listen_fun-ends}
use epoll_model.Socket.Events.{outputs}
use epoll_model.Socket.Listening.{all_well, Succeeds, Fails, listen_lem}
use epoll_model.System.Service.{IsFresh}
use epoll_model.System.Startup.{started, main-IsFresh}
use epoll_model.Server.{StartAnswers, sleeps, main, server_socket}

abbrev start_answers : StartAnswers
start_answers = record {
  made = pos 3;
  bound = pos 0;
  listening = record { listened = pos 0; created = pos 4; added = pos 0 };
}

abbrev socket : Socket
socket = record {
  has_listener = true;
  multi_thread = true;
  socket = pos 4;
  epfd = pos 5;
  has_threads = true;
  send_data_list = [];
}

unix_bind-connect_example :
    (path : List ℕ) × (c_string path ≡ 1 ∷ 2 ∷ [])
    × (unix_bind (pos 0) socket (1 ∷ 2 ∷ 0 ∷ 3 ∷ [])
        ≡ ok (pos 0, unlinks (1 ∷ 2 ∷ []) ∷ binds (pos 4) (local_address path 4) ∷ []))
    × (unix_connect (pos 0) (pos 6) (1 ∷ 2 ∷ 0 ∷ 3 ∷ []) 80
        ≡ ok (pos 0, connects (pos 6) (local_address path 4) ∷ []))
unfolding c_string
unix_bind-connect_example =
    unix_bind-connect socket (pos 6) (pos 0) (pos 0) (1 ∷ 2 ∷ 0 ∷ 3 ∷ []) 80 refl refl (omega arith)

ipv4_connect-bind_example :
    (high low : ℕ) × (256 * high + low ≡ 8080)
    × (low < 256)
    × (ipv4_connect (pos 0) (λ x. 7) (pos 6) (49 ∷ 0 ∷ []) (65536 + 8080)
        ≡ (pos 0, connects (pos 6) (internet_address af_inet (high ∷ low ∷ []) 7) ∷ []))
    × (ipv4_bind (pos 0) socket 8080
        ≡ (pos 0, binds (pos 4) (internet_address af_inet (high ∷ low ∷ []) 0) ∷ []))
ipv4_connect-bind_example =
    ipv4_connect-bind socket (pos 0) (pos 0) (pos 6) (λ x. 7) (49 ∷ 0 ∷ []) (65536 + 8080) refl refl

abbrev event : ℕ → (err : Bool) → Event
event fd err = record { fd = fd; err = err; hup = false; input = false; output = true }

abbrev accepts_none : AcceptAnswers
accepts_none = record { accepted = minus_one; flags = 0; added = pos 0 }

-- Two buffers wait for client 3, and one for client 6.
abbrev filled_socket : Socket
filled_socket = record socket {
  send_data_list =
      (
        3,
        record { client_id = pos 3; databuf = 1 ∷ []; len = 1 }
            ∷ record { client_id = pos 3; databuf = 2 ∷ []; len = 1 }
            ∷ [],
      )
      ∷ (6, record { client_id = pos 6; databuf = 9 ∷ []; len = 1 } ∷ [])
      ∷ [];
}

-- The failure of `epoll_wait` comes before a second event of the client.
abbrev writable_batches : List (Option (List Event))
writable_batches = some (event 3 false ∷ event 4 false ∷ []) ∷ none ∷ some (event 3 false ∷ []) ∷ []

thread_send_fun-takes_example :
    (sent 3 (thread_send_fun filled_socket writable_batches).1 ≡ (1 ∷ []) ∷ [])
    × (queued 3 (thread_send_fun filled_socket writable_batches).0 ≡ (2 ∷ []) ∷ [])
unfolding until_error servings lookup
thread_send_fun-takes_example = thread_send_fun-takes 3 filled_socket writable_batches

abbrev listening_batches : List (Option (List (Event × AcceptAnswers)))
listening_batches =
    some ((event 4 false, accepts_none) ∷ []) ∷ some ((event 3 true, accepts_none) ∷ []) ∷ none ∷ []

thread_listen_fun-ends_example :
    let r = thread_listen_fun filled_socket listening_batches in
    (removed 3 r.1 ≡ 1) × (queued 3 r.0 ≡ []) × (outputs r.1 ≡ [])
unfolding until_error endings lookup
thread_listen_fun-ends_example = thread_listen_fun-ends 3 filled_socket listening_batches

abbrev refused : ListenAnswers
refused = record { listened = pos 0; created = pos 9; added = minus_one }

-- `epoll_ctl` fails: the three calls were made, and no threads started.
listen_lem_example :
    ((all_well refused socket ≡ true)
      × Succeeds refused (pos 5) socket (listen refused (pos 5) socket))
    ⊎ ((all_well refused socket ≡ false)
        × Fails refused (pos 5) socket (listen refused (pos 5) socket))
listen_lem_example = listen_lem refused (pos 5) socket

main-IsFresh_example :
    (s : Socket) × (path : List ℕ) × (main start_answers minus_one true
      ≡ ok (
        sleeps,
        s,
        task_controller none true,
        makes af_unix ∷ unlinks server_socket ∷ binds (pos 3) (local_address path 27) ∷ [],
        listens (pos 3) (pos 5)
            ∷ creates_epoll 1024
            ∷ adds (pos 4) (pos 3) false
            ∷ starts_threads
            ∷ [],
      ))
    × (s.has_threads ≡ true)
    × (s.socket ≡ pos 3)
    × (s.send_data_list ≡ [])
    × (length (task_controller none true).threads ≡ 2)
    × IsFresh (started s (task_controller none true))
main-IsFresh_example =
    main-IsFresh start_answers minus_one true
      (record { opened = refl; binding = refl; listening = refl; making = refl; adding = refl })

-- ===== src/System/Startup.antt =====
-- What main of server/server.cpp leaves is a server from which all runs begin.
use epoll_model.Prelude.{
  ◌≡◌, refl, ap, Bool, true, false, ℕ, none, List, [], ◌∷◌, length, ℤ, pos, ok, lookup,
}
use epoll_model.Protocol.{initial}
use epoll_model.Socket.{Socket, listens, creates_epoll, adds, starts_threads}
use epoll_model.Socket.Addresses.{makes, unlinks, binds, local_address, af_unix}
use epoll_model.ThreadPool.{ThreadPool}
use epoll_model.ThreadPool.Totals.{AllThreads}
use epoll_model.ThreadPool.Custody.{IsFree}
use epoll_model.ThreadPool.Instance.{task_controller, task_controller-fresh}
use epoll_model.Server.{StartAnswers, Starts, sleeps, main, main-serves, server_socket}
use epoll_model.System.{System}
use epoll_model.System.Service.{IsFresh}

-- The server that main has started: `tc` has no part of a request, and no task was made.
abbrev pub started : Socket → ThreadPool → System
started s pool = record {
  socket = s;
  controller = record { recv_list = []; added = [] };
  pool = pool;
  statics = initial;
  handed = 0;
}

first_threads : (prompt : Bool) → AllThreads IsFree (task_controller none prompt).threads
first_threads true = rw (task_controller-fresh true).1 (refl, (refl, tt))
first_threads false = rw (task_controller-fresh false).1 (refl, (refl, tt))

-- Where the descriptor is positive and neither `bind` nor a call of `listen` returns -1, main sleeps after
-- exactly the calls of a start, in their order: the old path is unlinked before it is bound, and the threads
-- of the socket are started behind the three calls of listen. The socket has this descriptor, its threads
-- and nothing to send, and the pool has two threads, whether they set their states in time or not. With the
-- map of parts of requests as the constructor of taskController leaves it, this is a server that is ready
-- for any run of its threads: its socket has its listener, no part of a request waits, no task was made or
-- given to the pool, and its threads hold none.
pub main-IsFresh :
    (a : StartAnswers) (epfd : ℤ) (prompt : Bool)
    → Starts a
    → (s : Socket) × (path : List ℕ) × (main a epfd prompt
        ≡ ok (
          sleeps,
          s,
          task_controller none prompt,
          makes af_unix ∷ unlinks server_socket ∷ binds a.made (local_address path 27) ∷ [],
          listens a.made (pos 5)
              ∷ creates_epoll 1024
              ∷ adds a.listening.created a.made false
              ∷ starts_threads
              ∷ [],
        ))
      × (s.has_threads ≡ true)
      × (s.socket ≡ a.made)
      × (s.send_data_list ≡ [])
      × (length (task_controller none prompt).threads ≡ 2)
      × IsFresh (started s (task_controller none prompt))
unfolding lookup
main-IsFresh a epfd prompt st =
    let (s, path, run, listener, threads, socket, nothing) = main-serves a epfd prompt st in
    (
      s,
      path,
      run,
      threads,
      socket,
      nothing,
      ap length (task_controller-fresh prompt).1,
      record {
        listening = listener;
        no_parts = λ k. refl;
        none_made = refl;
        none_given = refl;
        none_waiting = (task_controller-fresh prompt).0;
        free = first_threads prompt;
      },
    )

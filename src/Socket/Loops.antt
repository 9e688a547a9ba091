-- ===== src/Socket/Loops.antt =====
-- The loops of threadListenFun and threadSendFun of server/socket/socketBase.cpp: over the events of
-- one `epoll_wait`, and over what `epoll_wait` returns until it fails.
use epoll_model.Prelude.{
  ℕ, ◌≢◌, true, append-nil, ◌≡◌, refl, ◌||◌, Bool-cases, inl, inr, Option, none, some, List, [],
  ◌∷◌, ◌++◌, pos, eq_ℤ, arith,
}
use epoll_model.Socket.{
  Socket, Call, Event, AcceptAnswers, listen_event, send_event, accept, accept_event, hangup_event,
}
use epoll_model.Socket.Queues.{SameSetup, hangs_up_step}
use epoll_model.Socket.Ops.{queued, sent}

-- The loop over one batch of events.
unfoldable pub listen_events : Socket → List (Event × AcceptAnswers) → Socket × List Call
listen_events s [] = (s, [])
listen_events s ((e, a) ∷ es) =
    let r = listen_events (listen_event a s e).0 es in (r.0, (listen_event a s e).1 ++ r.1)

unfoldable pub send_events : Socket → List Event → Socket × List Call
send_events s [] = (s, [])
send_events s (e ∷ es) =
    let r = send_events (send_event s e).0 es in (r.0, (send_event s e).1 ++ r.1)

-- The outer loops; `none` is an `epoll_wait` that fails, after which the thread ends.
unfoldable pub thread_listen_fun :
    Socket → List (Option (List (Event × AcceptAnswers))) → Socket × List Call
unfolding listen_events
thread_listen_fun s [] = (s, [])
thread_listen_fun s (none ∷ ws) = (s, [])
thread_listen_fun s (some es ∷ ws) =
    let r = thread_listen_fun (listen_events s es).0 ws in (r.0, (listen_events s es).1 ++ r.1)

unfoldable pub thread_send_fun : Socket → List (Option (List Event)) → Socket × List Call
unfolding send_events
thread_send_fun s [] = (s, [])
thread_send_fun s (none ∷ ws) = (s, [])
thread_send_fun s (some es ∷ ws) =
    let r = thread_send_fun (send_events s es).0 ws in (r.0, (send_events s es).1 ++ r.1)

pub accept_event-socket : (s : Socket) (a : AcceptAnswers) → (accept_event a s).0 ≡ s
unfolding accept_event accept
accept_event-socket s a = ground arith

pub accept_event-sent : (k : ℕ) (s : Socket) (a : AcceptAnswers) → sent k (accept_event a s).1 ≡ []
unfolding accept_event accept
accept_event-sent k s a = ground arith

pub hangup_event-socket : (s : Socket) (e : Event) → (hangup_event s e).0.socket ≡ s.socket
unfolding hangup_event
hangup_event-socket s e = elim (Bool-cases (e.err || e.hup)) [
  | inl gone ↦ rw gone refl
  | inr fine ↦ rw fine refl
]

pub listen_event-keeps :
    (a : AcceptAnswers) (s : Socket) (e : Event) → SameSetup s (listen_event a s e).0
unfolding listen_event hangup_event
listen_event-keeps a s e = elim (Bool-cases (eq_ℤ (pos e.fd) s.socket)) [
  | inl own ↦ rw (own, accept_event-socket s a) (refl, refl)
  | inr other ↦ rw other (elim (Bool-cases (e.err || e.hup)) [
    | inl gone ↦ rw gone (refl, refl)
    | inr fine ↦ rw fine (refl, refl)
  ])
]

-- An event of the listening thread and the queue of a client that it does not hang up.
pub listen_event-queue :
    (k : ℕ) (a : AcceptAnswers) (s : Socket) (e : Event)
    → ((e.err || e.hup) ≡ true → e.fd ≢ k)
    → queued k s ++ [] ≡ sent k (listen_event a s e).1 ++ queued k (listen_event a s e).0
unfolding listen_event
listen_event-queue k a s e h = elim (Bool-cases (eq_ℤ (pos e.fd) s.socket)) [
  | inl own ↦ rw (own, accept_event-socket s a, accept_event-sent k s a) (append-nil (queued k s))
  | inr other ↦ rw other (hangs_up_step k s e h)
]

-- ===== src/Socket/Threads.antt =====
-- The three threads of server/socket/socketBase.cpp over all that `epoll_wait` gives them.
use epoll_model.Prelude.{
  ◌≡◌, refl, sym, ap, ◌∙◌, Bool-cases, inl, inr, true, not, Option, none, some, List, [], ◌∷◌, ◌++◌,
  append_assoc, length, Outcome, ok, fault, stuck, ◌>>=◌, ℕ,
}
use epoll_model.Socket.{Socket, Call, Event, AcceptAnswers, send_event, listen_event, is_own}
use epoll_model.Socket.Loops.{listen_events, thread_listen_fun, send_events, thread_send_fun}
use epoll_model.Socket.Receiving.{
  Listener, Received, recv_events, thread_recv_fun, arrived, feed_all, Fits, behind,
  recv_events-feed, same_rest,
}

-- The events of all batches before the first failure of `epoll_wait`.
unfoldable pub until_error : {A : Type 0} → List (Option (List A)) → List A
until_error [] = []
until_error (none ∷ ws) = []
until_error (some es ∷ ws) = es ++ until_error ws

send_events-append :
    (s : Socket) (es fs : List Event)
    → send_events s (es ++ fs)
      ≡ (let r = send_events (send_events s es).0 fs in (r.0, (send_events s es).1 ++ r.1))
unfolding send_events
send_events-append s [] fs = refl
send_events-append s (e ∷ es) fs =
    let r = send_event s e in
    ap (λ (q : Socket × List Call). (q.0, r.1 ++ q.1)) (send_events-append r.0 es fs)
    ∙ ap (λ (c : List Call). ((send_events (send_events r.0 es).0 fs).0, c))
        (sym (append_assoc r.1 (send_events r.0 es).1 (send_events (send_events r.0 es).0 fs).1))

pub thread_send_fun-events :
    (s : Socket) (ws : List (Option (List Event)))
    → send_events s (until_error ws) ≡ thread_send_fun s ws
unfolding thread_send_fun until_error send_events
thread_send_fun-events s [] = refl
thread_send_fun-events s (none ∷ ws) = refl
thread_send_fun-events s (some es ∷ ws) =
    send_events-append s es (until_error ws)
    ∙ ap (λ (q : Socket × List Call). (q.0, (send_events s es).1 ++ q.1))
        (thread_send_fun-events (send_events s es).0 ws)

listen_events-append :
    (s : Socket) (es fs : List (Event × AcceptAnswers))
    → listen_events s (es ++ fs)
      ≡ (let r = listen_events (listen_events s es).0 fs in (r.0, (listen_events s es).1 ++ r.1))
unfolding listen_events
listen_events-append s [] fs = refl
listen_events-append s ((e, a) ∷ es) fs =
    let r = listen_event a s e in
    ap (λ (q : Socket × List Call). (q.0, r.1 ++ q.1)) (listen_events-append r.0 es fs)
    ∙ ap (λ (c : List Call). ((listen_events (listen_events r.0 es).0 fs).0, c))
        (sym
          (append_assoc r.1 (listen_events r.0 es).1 (listen_events (listen_events r.0 es).0 fs).1))

pub thread_listen_fun-events :
    (s : Socket) (ws : List (Option (List (Event × AcceptAnswers))))
    → listen_events s (until_error ws) ≡ thread_listen_fun s ws
unfolding thread_listen_fun until_error listen_events
thread_listen_fun-events s [] = refl
thread_listen_fun-events s (none ∷ ws) = refl
thread_listen_fun-events s (some es ∷ ws) =
    listen_events-append s es (until_error ws)
    ∙ ap (λ (q : Socket × List Call). (q.0, (listen_events s es).1 ++ q.1))
        (thread_listen_fun-events (listen_events s es).0 ws)

arrived-append :
    (s : Socket) (es fs : List (Event × Received))
    → arrived s (es ++ fs) ≡ arrived s es ++ arrived s fs
unfolding arrived
arrived-append s [] fs = refl
arrived-append s ((e, none) ∷ es) fs = arrived-append s es fs
arrived-append s ((e, some []) ∷ es) fs = arrived-append s es fs
arrived-append s ((e, some (b ∷ bs)) ∷ es) fs = elim (Bool-cases (is_own s e)) [
  | inl own ↦ rw own (arrived-append s es fs)
  | inr other ↦ rw other (elim (Bool-cases (not e.input)) [
    | inl quiet ↦ rw quiet (arrived-append s es fs)
    | inr ready ↦ rw ready (ap (◌∷◌ (e.fd, b ∷ bs)) (arrived-append s es fs))
  ])
]

bind_assoc :
    {A B C : Type 0} (o : Outcome A) (f : A → Outcome B) (g : B → Outcome C)
    → ((o >>= f) >>= g) ≡ (o >>= λ a. f a >>= g)
bind_assoc (ok a) f g = refl
bind_assoc fault f g = refl
bind_assoc stuck f g = refl

Fits-split : (es fs : List (Event × Received)) → Fits (es ++ fs) → Fits es × Fits fs
Fits-split [] fs h = (tt, h)
Fits-split ((e, none) ∷ es) fs h = Fits-split es fs h
Fits-split ((e, some bs) ∷ es) fs h = let (a, b) = Fits-split es fs h.1 in ((h.0, a), b)

module _ {S : Type 0} (l : Listener S) where
  feed_all-append :
      (st : S) (cs ds : List (ℕ × List ℕ))
      → feed_all l st (cs ++ ds) ≡ (feed_all l st cs >>= λ st'. feed_all l st' ds)
  unfolding feed_all
  feed_all-append st [] ds = refl
  feed_all-append st ((fd, c) ∷ cs) ds =
      let o = l.on_recv st fd (c ++ behind c) (length c) in
      same_rest o (λ st'. feed_all-append st' cs ds)
      ∙ sym (bind_assoc o (λ st'. feed_all l st' cs) (λ st'. feed_all l st' ds))

  -- threadRecvFun, over any batches of events until `epoll_wait` fails, is to its listener the same as a
  -- loop over the chunks that arrive: the listener gets each of them once, in their order, at the start
  -- of a buffer with zeros behind it, with its length. Events of the listening socket, events without
  -- input, failures of `recv` and ends of connections give it nothing. The socket has a listener, and no
  -- chunk is longer than the buffer.
  pub thread_recv_fun-feed :
      (s : Socket) (st : S) (ws : List (Option (List (Event × Received))))
      → s.has_listener ≡ true
      → Fits (until_error ws)
      → thread_recv_fun l s st ws ≡ feed_all l st (arrived s (until_error ws))
  unfolding thread_recv_fun until_error feed_all arrived
  thread_recv_fun-feed s st [] h fit = refl
  thread_recv_fun-feed s st (none ∷ ws) h fit = refl
  thread_recv_fun-feed s st (some es ∷ ws) h fit =
      let (now, later) = Fits-split es (until_error ws) fit in
      same_rest (recv_events l s st es) (λ st'. thread_recv_fun-feed s st' ws h later)
      ∙ ap (λ (o : Outcome S). o >>= λ st'. feed_all l st' (arrived s (until_error ws)))
          (recv_events-feed l s st es h now)
      ∙ sym (feed_all-append st (arrived s es) (arrived s (until_error ws)))
      ∙ ap (feed_all l st) (sym (arrived-append s es (until_error ws)))

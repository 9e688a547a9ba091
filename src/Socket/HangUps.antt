-- ===== src/Socket/HangUps.antt =====
-- What the listening thread of server/socket/socketBase.cpp does to the queues, and its hang-ups.
use mathlib.Core.Path.{subst}
use native.Mathlib.Numerals.{unary_clauses}
use epoll_model.Prelude.{
  ℕ, zero, suc, ◌+◌, ◌≡◌, ◌≢◌, refl, ap, ◌∙◌, Bool, Bool-cases, inl, inr, not, ◌&&◌, ◌||◌, Option,
  List, [], ◌∷◌, ◌++◌, ◌==◌, if◌then◌else◌, ℤ, pos, eq_ℤ, arith,
}
use epoll_model.Socket.{
  Socket, Call, removes, Event, AcceptAnswers, is_own, listen_event, hangup_event, accept_event,
  accept,
}
use epoll_model.Socket.Ops.{queued}
use epoll_model.Socket.Queues.{==→eq, entry-erase}
use epoll_model.Socket.Loops.{
  listen_events, thread_listen_fun, listen_event-keeps, accept_event-socket,
}
use epoll_model.Socket.Events.{entry-erased, outputs, outputs-append, outputs-listen}
use epoll_model.Socket.Threads.{until_error, thread_listen_fun-events}

-- The event is a hang-up or an error of client `k`; `own` is the listening socket.
abbrev pub ends : (own : ℤ) → ℕ → Event → Bool
ends own k e = not (eq_ℤ (pos e.fd) own) && ((e.err || e.hup) && (e.fd == k))

unfoldable pub endings : (own : ℤ) → ℕ → List (Event × AcceptAnswers) → ℕ
endings own k [] = 0
endings own k ((e, a) ∷ es) = (if ends own k e then 1 else 0) + endings own k es

-- How often the calls take client `k` from epoll.
abbrev pub removed_by : ℕ → Call → ℕ
removed_by k (removes epfd (pos j)) = if j == k then 1 else 0
removed_by k _ = 0

unfoldable pub removed : ℕ → List Call → ℕ
removed k [] = 0
removed k (c ∷ cs) = removed_by k c + removed k cs

removed-append : (k : ℕ) (cs ds : List Call) → removed k (cs ++ ds) ≡ removed k cs + removed k ds
unfolding removed
removed-append k [] ds = omega arith
removed-append k (c ∷ cs) ds = omega (arith, removed-append k cs ds)

-- After `n` hang-ups of client `k` nothing waits for it, and else what waited.
abbrev pub kept : ℕ → List (List ℕ) → List (List ℕ)
kept zero xs = xs
kept (suc n) xs = []

record Ends (k n : ℕ) (s : Socket) (r : Socket × List Call) : Type 0 where
  left : queued k r.0 ≡ kept n (queued k s)
  gone : removed k r.1 ≡ n
  quiet : outputs r.1 ≡ []
  setup : r.0.socket ≡ s.socket

accept_event-Ends : (k : ℕ) (a : AcceptAnswers) (s : Socket) → removed k (accept_event a s).1 ≡ 0
unfolding accept_event accept removed
accept_event-Ends k a s = ground arith

listen_event-left :
    (k : ℕ) (a : AcceptAnswers) (s : Socket) (e : Event)
    → queued k (listen_event a s e).0 ≡ kept (if ends s.socket k e then 1 else 0) (queued k s)
unfolding listen_event hangup_event
listen_event-left k a s e = elim (Bool-cases (is_own s e)) [
  | inl own ↦ rw (own, accept_event-socket s a) refl
  | inr other ↦ rw other (elim (Bool-cases (e.err || e.hup)) [
    | inl over ↦ rw over (elim (Bool-cases (e.fd == k)) [
      | inl same ↦
          let q = ==→eq e.fd k same in rw (same, ← q, entry-erased e.fd s.send_data_list) refl
      | inr ne ↦
          let q : e.fd ≢ k = ground arith in rw (ne, entry-erase e.fd k s.send_data_list q) refl
    ])
    | inr fine ↦ rw fine refl
  ])
]

listen_event-gone :
    (k : ℕ) (a : AcceptAnswers) (s : Socket) (e : Event)
    → removed k (listen_event a s e).1 ≡ (if ends s.socket k e then 1 else 0)
unfolding listen_event hangup_event removed
listen_event-gone k a s e = elim (Bool-cases (is_own s e)) [
  | inl own ↦ rw (own, accept_event-Ends k a s) refl
  | inr other ↦ rw other (elim (Bool-cases (e.err || e.hup)) [
    | inl over ↦ rw over (omega arith)
    | inr fine ↦ rw fine refl
  ])
]

listen_event-Ends :
    (k : ℕ) (a : AcceptAnswers) (s : Socket) (e : Event)
    → Ends k (if ends s.socket k e then 1 else 0) s (listen_event a s e)
listen_event-Ends k a s e = record {
  left = listen_event-left k a s e;
  gone = listen_event-gone k a s e;
  quiet = outputs-listen a s e;
  setup = (listen_event-keeps a s e).1;
}

kept_add : (n m : ℕ) (xs : List (List ℕ)) → kept m (kept n xs) ≡ kept (n + m) xs
kept_add zero m xs = let e : m ≡ 0 + m = omega arith in ap (λ (i : ℕ). kept i xs) e
kept_add (suc n) zero xs = simp unary_clauses refl
kept_add (suc n) (suc m) xs = simp unary_clauses refl

listen_events-Ends :
    (k : ℕ) (s : Socket) (es : List (Event × AcceptAnswers))
    → Ends k (endings s.socket k es) s (listen_events s es)
unfolding listen_events endings removed
listen_events-Ends k s [] = record { left = refl; gone = refl; quiet = refl; setup = refl }
listen_events-Ends k s ((e, a) ∷ es) =
    let r = listen_event a s e in
    let n : ℕ = if ends s.socket k e then 1 else 0 in
    let m = endings s.socket k es in
    let now = listen_event-Ends k a s e in
    let later : Ends k m r.0 (listen_events r.0 es) =
      subst (λ (own : ℤ). Ends k (endings own k es) r.0 (listen_events r.0 es)) now.setup
        (listen_events-Ends k r.0 es) in
    record {
      left = later.left ∙ ap (kept m) now.left ∙ kept_add n m (queued k s);
      gone = removed-append k r.1 (listen_events r.0 es).1 ∙ omega (arith, now.gone, later.gone);
      quiet = outputs-append r.1 (listen_events r.0 es).1 ∙ (rw (now.quiet, later.quiet) refl);
      setup = later.setup ∙ now.setup;
    }

-- threadListenFun, over any batches of events until `epoll_wait` fails, with whatever the kernel answers to
-- accept: for every client, with `n` the number of the events of its descriptor that are an error or a
-- hang-up and are not of the listening socket, the client is taken from epoll exactly `n` times; nothing
-- waits for it any more where `n` is not 0, and else what waited before; and the thread sends nothing.
pub thread_listen_fun-ends :
    (k : ℕ) (s : Socket) (ws : List (Option (List (Event × AcceptAnswers))))
    → let n = endings s.socket k (until_error ws) in
      let r = thread_listen_fun s ws in
      (removed k r.1 ≡ n) × (queued k r.0 ≡ kept n (queued k s)) × (outputs r.1 ≡ [])
thread_listen_fun-ends k s ws =
    let t = listen_events-Ends k s (until_error ws) in
    rw (← thread_listen_fun-events s ws) (t.gone, t.left, t.quiet)

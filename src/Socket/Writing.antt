-- ===== src/Socket/Writing.antt =====
-- What the sending thread of server/socket/socketBase.cpp hands to the kernel, and what it leaves.
use mathlib.Core.Path.{subst}
use native.Mathlib.Numerals.{unary_clauses}
use epoll_model.Prelude.{
  ℕ, zero, suc, ◌+◌, ◌≡◌, refl, sym, ap, ◌∙◌, Bool, Bool-cases, inl, inr, not, ◌&&◌, Option, List,
  [], ◌∷◌, ◌++◌, take, drop, map, lookup, ◌==◌, if◌then◌else◌, arith, ℤ, pos, eq_ℤ,
}
use epoll_model.Socket.{
  Socket, SendData, Call, Event, entry, is_own, send_event, pop_entry, pop_front,
}
use epoll_model.Socket.Ops.{queued, sent}
use epoll_model.Socket.Queues.{==→eq, entry-insert, sent-append}
use epoll_model.Socket.Loops.{send_events, thread_send_fun}
use epoll_model.Socket.Threads.{until_error, thread_send_fun-events}

-- The event says that client `k` can be written to; `own` is the listening socket.
abbrev pub serves : (own : ℤ) → ℕ → Event → Bool
serves own k e = not (eq_ℤ (pos e.fd) own) && (e.output && (e.fd == k))

-- How many of the events say so.
unfoldable pub servings : (own : ℤ) → ℕ → List Event → ℕ
servings own k [] = 0
servings own k (e ∷ es) = (if serves own k e then 1 else 0) + servings own k es

-- The first `n` buffers of client `k` have gone to the kernel, in their order, and the others wait.
record Takes (k n : ℕ) (s : Socket) (r : Socket × List Call) : Type 0 where
  gone : sent k r.1 ≡ take n (queued k s)
  left : queued k r.0 ≡ drop n (queued k s)
  setup : r.0.socket ≡ s.socket

pop_front-Takes :
    (k fd : ℕ) (s : Socket) (ds : List SendData)
    → entry fd s.send_data_list ≡ ds
    → Takes k (if fd == k then 1 else 0) s (pop_front s fd ds)
unfolding pop_front
pop_front-Takes k fd s [] e = elim (Bool-cases (fd == k)) [
  | inl same ↦
      let q = ==→eq fd k same in
      let here : entry k s.send_data_list ≡ [] =
        ap (λ (j : ℕ). entry j s.send_data_list) (sym q) ∙ e in
      rw same (record {
        gone = rw here refl;
        left = rw (entry-insert fd k [] s.send_data_list, same, here) refl;
        setup = refl;
      })
  | inr other ↦ rw other (record {
    gone = refl;
    left = rw (entry-insert fd k [] s.send_data_list, other) refl;
    setup = refl;
  })
]
pop_front-Takes k fd s (d ∷ ds) e = elim (Bool-cases (fd == k)) [
  | inl same ↦
      let q = ==→eq fd k same in
      let here : entry k s.send_data_list ≡ d ∷ ds =
        ap (λ (j : ℕ). entry j s.send_data_list) (sym q) ∙ e in
      rw same (record {
        gone = rw (same, here) refl;
        left = rw (entry-insert fd k ds s.send_data_list, same, here) refl;
        setup = refl;
      })
  | inr other ↦ rw other (record {
    gone = rw other refl;
    left = rw (entry-insert fd k ds s.send_data_list, other) refl;
    setup = refl;
  })
]

none_taken : (k n : ℕ) (s : Socket) → queued k s ≡ [] → Takes k n s (s, [])
none_taken k zero s e = record { gone = refl; left = refl; setup = refl }
none_taken k (suc n) s e = record { gone = rw e refl; left = rw e refl; setup = refl }

pop_entry-Takes :
    (k fd : ℕ) (s : Socket) (m : List (ℕ × List SendData))
    → s.send_data_list ≡ m
    → Takes k (if fd == k then 1 else 0) s (pop_entry s fd m)
unfolding pop_entry lookup
pop_entry-Takes k fd s [] e =
    none_taken k (if fd == k then 1 else 0) s
      (ap (λ (m : List (ℕ × List SendData)). map (λ (d : SendData). d.databuf) (entry k m)) e)
pop_entry-Takes k fd s (x ∷ m) e = pop_front-Takes k fd s (entry fd s.send_data_list) refl

send_event-Takes :
    (k : ℕ) (s : Socket) (e : Event)
    → Takes k (if serves s.socket k e then 1 else 0) s (send_event s e)
unfolding send_event
send_event-Takes k s e = elim (Bool-cases (is_own s e)) [
  | inl own ↦ rw own (record { gone = refl; left = refl; setup = refl })
  | inr other ↦ rw other (elim (Bool-cases e.output) [
    | inl ready ↦ rw ready (pop_entry-Takes k e.fd s s.send_data_list refl)
    | inr quiet ↦ rw quiet (record { gone = refl; left = refl; setup = refl })
  ])
]

take-add : {A : Type 0} (n m : ℕ) (xs : List A) → take n xs ++ take m (drop n xs) ≡ take (n + m) xs
take-add zero m xs = let e : m ≡ 0 + m = omega arith in ap (λ (i : ℕ). take i xs) e
take-add (suc n) zero [] = simp unary_clauses refl
take-add (suc n) (suc m) [] = simp unary_clauses refl
take-add (suc n) m (x ∷ xs) =
    let e : suc (n + m) ≡ suc n + m = omega arith in
    ap (◌∷◌ x) (take-add n m xs) ∙ ap (λ (i : ℕ). take i (x ∷ xs)) e

drop-add : {A : Type 0} (n m : ℕ) (xs : List A) → drop m (drop n xs) ≡ drop (n + m) xs
drop-add zero m xs = let e : m ≡ 0 + m = omega arith in ap (λ (i : ℕ). drop i xs) e
drop-add (suc n) zero [] = simp unary_clauses refl
drop-add (suc n) (suc m) [] = simp unary_clauses refl
drop-add (suc n) m (x ∷ xs) =
    let e : suc (n + m) ≡ suc n + m = omega arith in
    drop-add n m xs ∙ ap (λ (i : ℕ). drop i (x ∷ xs)) e

send_events-Takes :
    (k : ℕ) (s : Socket) (es : List Event) → Takes k (servings s.socket k es) s (send_events s es)
unfolding send_events servings
send_events-Takes k s [] = record { gone = refl; left = refl; setup = refl }
send_events-Takes k s (e ∷ es) =
    let r = send_event s e in
    let n = if serves s.socket k e then 1 else 0 in
    let m = servings s.socket k es in
    let now = send_event-Takes k s e in
    let later : Takes k m r.0 (send_events r.0 es) =
      subst (λ (own : ℤ). Takes k (servings own k es) r.0 (send_events r.0 es)) now.setup
        (send_events-Takes k r.0 es) in
    record {
      gone =
          sent-append k r.1 (send_events r.0 es).1
          ∙ ap (λ (xs : List (List ℕ)). xs ++ sent k (send_events r.0 es).1) now.gone
          ∙ ap (◌++◌ (take n (queued k s))) (later.gone ∙ ap (take m) now.left)
          ∙ take-add n m (queued k s);
      left = later.left ∙ ap (drop m) now.left ∙ drop-add n m (queued k s);
      setup = later.setup ∙ now.setup;
    }

-- threadSendFun, over any batches of events until `epoll_wait` fails: for every client, with `n` the
-- number of the events that say that it can be written to and are not of the listening socket, the kernel
-- gets the first `n` of the buffers that waited for it, or all where fewer waited, in their order, one for
-- each event, and the others still wait in theirs.
pub thread_send_fun-takes :
    (k : ℕ) (s : Socket) (ws : List (Option (List Event)))
    → let n = servings s.socket k (until_error ws) in
      (sent k (thread_send_fun s ws).1 ≡ take n (queued k s))
      × (queued k (thread_send_fun s ws).0 ≡ drop n (queued k s))
thread_send_fun-takes k s ws =
    let t = send_events-Takes k s (until_error ws) in
    rw (← thread_send_fun-events s ws) (t.gone, t.left)

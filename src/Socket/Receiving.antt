-- ===== src/Socket/Receiving.antt =====
-- threadRecvFun of server/socket/socketBase.cpp, and the listener that it calls.
use epoll_model.Prelude.{
  sym, ◌⊎◌, ℕ, zero, suc, ap, ◌∙◌, drop, ◌-◌, ◌≤◌, ◌≡◌, refl, Bool, true, false, Bool-cases, inl,
  inr, not, Option, none, some, List, [], ◌∷◌, ◌++◌, length, if◌then◌else◌, Outcome, ok, fault,
  stuck, ◌>>=◌, arith,
}
use epoll_model.Memory.{filled}
use epoll_model.Memory.Copies.{write_at-next, length-filled}
use epoll_model.Socket.{Socket, Event, is_own, recv_buffer, socket_recv_buffer_len}

-- class socketListener, over the state of the object behind it: the descriptor, the memory from the
-- pointer on, and the length.
pub record Listener (S : Type 0) : Type 0 where
  pub on_recv : S → ℕ → List ℕ → ℕ → Outcome S

-- What `recv` gives for an event: `none` is a failure, and no bytes are the end of the connection.
abbrev pub Received : Type 0
Received = Option (List ℕ)

module _ {S : Type 0} (l : Listener S) (s : Socket) where
  -- What follows `recv`: it returns a positive length, or it does not.
  pub hand_over : S → ℕ → Received → Outcome S
  hand_over st fd none = ok st
  hand_over st fd (some []) = ok st
  hand_over st fd (some (b ∷ bs)) =
      if s.has_listener
      then (recv_buffer (b ∷ bs) >>= λ buf. l.on_recv st fd buf (length (b ∷ bs)))
      else ok st

  -- The body of the inner loop, and the loop over the events of one `epoll_wait`.
  unfoldable pub recv_event : S → Event → Received → Outcome S
  unfolding hand_over
  recv_event st e r =
      if is_own s e then ok st else if not e.input then ok st else hand_over st e.fd r

  unfoldable pub recv_events : S → List (Event × Received) → Outcome S
  unfolding recv_event
  recv_events st [] = ok st
  recv_events st ((e, r) ∷ es) = do st' ← recv_event st e r; recv_events st' es

  -- The outer loop, over what `epoll_wait` returns: `none` is an error and ends the thread.
  unfoldable pub thread_recv_fun : S → List (Option (List (Event × Received))) → Outcome S
  unfolding recv_events
  thread_recv_fun st [] = ok st
  thread_recv_fun st (none ∷ ws) = ok st
  thread_recv_fun st (some es ∷ ws) = do st' ← recv_events st es; thread_recv_fun st' ws

-- The chunks that arrive: those of events for input that are not the listening socket's.
unfoldable pub arrived : Socket → List (Event × Received) → List (ℕ × List ℕ)
arrived s [] = []
arrived s ((e, none) ∷ es) = arrived s es
arrived s ((e, some []) ∷ es) = arrived s es
arrived s ((e, some (b ∷ bs)) ∷ es) =
    let rest = arrived s es in
    if is_own s e then rest else if not e.input then rest else (e.fd, b ∷ bs) ∷ rest

-- What the buffer holds behind a chunk.
abbrev pub behind : List ℕ → List ℕ
behind c = filled (socket_recv_buffer_len - length c) 0

-- A listener that gets each chunk in its order.
unfoldable pub feed_all : {S : Type 0} → Listener S → S → List (ℕ × List ℕ) → Outcome S
feed_all l st [] = ok st
feed_all l st ((fd, c) ∷ cs) = do
  st' ← l.on_recv st fd (c ++ behind c) (length c)
  feed_all l st' cs

-- `recv` gives no more than it is asked for.
abbrev pub Fits : List (Event × Received) → Type 0
Fits [] = Unit {0}
Fits ((e, none) ∷ es) = Fits es
Fits ((e, some bs) ∷ es) = (length bs ≤ socket_recv_buffer_len) × Fits es

drop-filled : (n m b : ℕ) → drop n (filled m b) ≡ filled (m - n) b
unfolding filled
drop-filled zero m b = let m0 : m - 0 ≡ m = omega arith in rw m0 refl
drop-filled (suc n) zero b = let z : 0 - suc n ≡ 0 = omega arith in rw z refl
drop-filled (suc n) (suc m) b =
    let p : suc m - suc n ≡ m - n = omega arith in rw p (drop-filled n m b)

pub recv_buffer_lem :
    (c : List ℕ) → length c ≤ socket_recv_buffer_len → recv_buffer c ≡ ok (c ++ behind c)
unfolding recv_buffer
recv_buffer_lem c h =
    let n = socket_recv_buffer_len in
    write_at-next [] (filled n 0) c 0 refl (omega (arith, length-filled n 0))
    ∙ ap ok (ap (λ (x : List ℕ). c ++ x) (drop-filled (length c) n 0))

pub same_rest :
    {A B : Type 0} {j k : A → Outcome B} (o : Outcome A)
    → ((x : A) → j x ≡ k x)
    → (o >>= j) ≡ (o >>= k)
same_rest (ok x) h = h x
same_rest fault h = refl
same_rest stuck h = refl

same_ends : {A : Type 0} (b c : Bool) (x : A) → (if b then x else if c then x else x) ≡ x
same_ends true c x = refl
same_ends false true x = refl
same_ends false false x = refl

-- However events of all kinds come, the listener gets exactly the chunks that arrive, in their order.
-- Each stands at the start of the buffer, with zeros behind it, and nothing leaves the buffer.
pub recv_events-feed :
    {S : Type 0} (l : Listener S) (s : Socket) (st : S) (es : List (Event × Received))
    → s.has_listener ≡ true
    → Fits es
    → recv_events l s st es ≡ feed_all l st (arrived s es)
unfolding recv_events recv_event hand_over feed_all arrived
recv_events-feed l s st [] h fit = refl
recv_events-feed l s st ((e, none) ∷ es) h fit =
    rw (same_ends (is_own s e) (not e.input) (ok st)) (recv_events-feed l s st es h fit)
recv_events-feed l s st ((e, some []) ∷ es) h fit =
    rw (same_ends (is_own s e) (not e.input) (ok st)) (recv_events-feed l s st es h fit.1)
recv_events-feed l s st ((e, some (b ∷ bs)) ∷ es) h fit = elim (Bool-cases (is_own s e)) [
  | inl own ↦ rw own (recv_events-feed l s st es h fit.1)
  | inr other ↦ rw other (elim (Bool-cases (not e.input)) [
    | inl quiet ↦ rw quiet (recv_events-feed l s st es h fit.1)
    | inr ready ↦
        rw (ready, h, recv_buffer_lem (b ∷ bs) fit.0)
          (same_rest (l.on_recv st e.fd ((b ∷ bs) ++ behind (b ∷ bs)) (length (b ∷ bs)))
            (λ st'. recv_events-feed l s st' es h fit.1))
  ])
]

bind-ok : {A : Type 0} (o : Outcome A) → (o >>= λ a. ok a) ≡ o
bind-ok (ok a) = refl
bind-ok fault = refl
bind-ok stuck = refl

-- One event, of those that come: the listener gets its chunk, if it has one.
pub recv_event-feed :
    {S : Type 0} (l : Listener S) (s : Socket) (st : S) (e : Event) (r : Received)
    (es : List (Event × Received))
    → s.has_listener ≡ true
    → Fits ((e, r) ∷ es)
    → recv_event l s st e r ≡ feed_all l st (arrived s ((e, r) ∷ []))
unfolding recv_events
recv_event-feed l s st e r es h fit =
    sym (bind-ok (recv_event l s st e r)) ∙ recv_events-feed l s st ((e, r) ∷ []) h (alone r fit)
  where
    alone : (r : Received) → Fits ((e, r) ∷ es) → Fits ((e, r) ∷ [])
    alone none f = tt
    alone (some bs) f = (f.0, tt)

-- What arrives with an event, and after it.
pub arrived-split :
    (s : Socket) (e : Event) (r : Received) (es : List (Event × Received))
    → ((arrived s ((e, r) ∷ []) ≡ []) × (arrived s ((e, r) ∷ es) ≡ arrived s es))
      ⊎ ((fd : ℕ) × (c : List ℕ) × (arrived s ((e, r) ∷ []) ≡ (fd, c) ∷ [])
          × (arrived s ((e, r) ∷ es) ≡ (fd, c) ∷ arrived s es))
unfolding arrived
arrived-split s e none es = inl (refl, refl)
arrived-split s e (some []) es = inl (refl, refl)
arrived-split s e (some (b ∷ bs)) es = elim (Bool-cases (is_own s e)) [
  | inl own ↦ rw own (inl (refl, refl))
  | inr other ↦ rw other (elim (Bool-cases (not e.input)) [
    | inl quiet ↦ rw quiet (inl (refl, refl))
    | inr ready ↦ rw ready (inr (e.fd, b ∷ bs, refl, refl))
  ])
]

-- It does not depend on what the threads change.
pub arrived-same :
    (s t : Socket) (es : List (Event × Received))
    → t.socket ≡ s.socket
    → arrived t es ≡ arrived s es
unfolding arrived
arrived-same s t [] h = refl
arrived-same s t ((e, none) ∷ es) h = arrived-same s t es h
arrived-same s t ((e, some []) ∷ es) h = arrived-same s t es h
arrived-same s t ((e, some (b ∷ bs)) ∷ es) h = rw (h, arrived-same s t es h) refl

pub later_Fits :
    (e : Event) (r : Received) (es : List (Event × Received)) → Fits ((e, r) ∷ es) → Fits es
later_Fits e none es f = f
later_Fits e (some bs) es f = f.1

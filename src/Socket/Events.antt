-- ===== src/Socket/Events.antt =====
-- What one event makes threadSendFun and threadListenFun do to the queues.
use epoll_model.Prelude.{
  ℕ, suc, ◌+◌, ◌<◌, ◌≡◌, ◌≢◌, refl, ap, true, false, ◌||◌, not, inl, inr, ◌⊎◌, Bool-cases, List, [],
  ◌∷◌, ◌++◌, map, length, lookup, ==_refl, ℤ, pos, eq_ℤ, erase, lookup-erase, arith,
}
use epoll_model.Socket.{
  Socket, SendData, Call, sends, Event, AcceptAnswers, entry, is_own, send_event, listen_event,
  hangup_event, accept, accept_event, pop_entry, pop_front,
}
use epoll_model.Socket.Queues.{entry-insert, entry-erase}
use epoll_model.Socket.Loops.{accept_event-socket}
use epoll_model.Socket.Ops.{queued}

-- The client's descriptor can be written.
abbrev pub writable_by : ℕ → Event
writable_by k = record { fd = k; err = false; hup = false; input = false; output = true }

pop_front-shorter :
    (s : Socket) (k : ℕ) (ds : List SendData)
    → entry k s.send_data_list ≡ ds
    → 0 < length ds
    → length (queued k (pop_front s k ds).0) + 1 ≡ length (queued k s)
unfolding pop_front
pop_front-shorter s k [] e h = absurd (omega arith)
pop_front-shorter s k (d ∷ ds) e h =
    rw (entry-insert k k ds s.send_data_list, ==_refl k, e) (omega arith)

length-queued : (k : ℕ) (s : Socket) → length (queued k s) ≡ length (entry k s.send_data_list)
length-queued k s = length-data (entry k s.send_data_list)
  where
    length-data : (ds : List SendData) → length (map (λ (d : SendData). d.databuf) ds) ≡ length ds
    length-data [] = refl
    length-data (d ∷ ds) = ap suc (length-data ds)

pop_entry-shorter :
    (s : Socket) (k : ℕ) (m : List (ℕ × List SendData))
    → s.send_data_list ≡ m
    → 0 < length (queued k s)
    → length (queued k (pop_entry s k m).0) + 1 ≡ length (queued k s)
unfolding pop_entry lookup
pop_entry-shorter s k [] e h = absurd (
    omega (
      arith,
      h,
      ap (λ (m : List (ℕ × List SendData)). length (map (λ (d : SendData). d.databuf) (entry k m)))
          e,
    ))
pop_entry-shorter s k (x ∷ m) e h =
    pop_front-shorter s k (entry k s.send_data_list) refl (omega (arith, h, length-queued k s))

eq_ℤ-eq : (a b : ℤ) → eq_ℤ a b ≡ true → b ≡ a
eq_ℤ-eq (pos m) (pos n) e = let q : n ≡ m = ground arith in ap pos q
eq_ℤ-eq (ℤ.negsuc m) (ℤ.negsuc n) e = let q : n ≡ m = ground arith in ap ℤ.negsuc q
eq_ℤ-eq (pos m) (ℤ.negsuc n) e = absurd (cc e)
eq_ℤ-eq (ℤ.negsuc m) (pos n) e = absurd (cc e)

-- An output event for a client that data waits for: one buffer less waits.
pub send_event-shorter :
    (s : Socket) (k : ℕ)
    → s.socket ≢ pos k
    → 0 < length (queued k s)
    → length (queued k (send_event s (writable_by k)).0) + 1 ≡ length (queued k s)
unfolding send_event
send_event-shorter s k ne h = elim (Bool-cases (is_own s (writable_by k))) [
  | inl own ↦ absurd (ne (eq_ℤ-eq (pos k) s.socket own))
  | inr other ↦ rw other (pop_entry-shorter s k s.send_data_list refl h)
]

pop_front-calls :
    (s : Socket) (fd : ℕ) (ds : List SendData)
    → ((pop_front s fd ds).1 ≡ [])
      ⊎ ((bytes : List ℕ) × ((pop_front s fd ds).1 ≡ sends (pos fd) bytes ∷ []))
unfolding pop_front
pop_front-calls s fd [] = inl refl
pop_front-calls s fd (d ∷ ds) = inr (d.databuf, refl)

pop_entry-calls :
    (s : Socket) (fd : ℕ) (m : List (ℕ × List SendData))
    → ((pop_entry s fd m).1 ≡ [])
      ⊎ ((bytes : List ℕ) × ((pop_entry s fd m).1 ≡ sends (pos fd) bytes ∷ []))
unfolding pop_entry
pop_entry-calls s fd [] = inl refl
pop_entry-calls s fd (x ∷ m) = pop_front-calls s fd (entry fd s.send_data_list)

-- The sending thread sends nothing for an event, or one buffer to the event's descriptor.
pub send_event-calls :
    (s : Socket) (e : Event)
    → ((send_event s e).1 ≡ [])
      ⊎ ((bytes : List ℕ) × ((send_event s e).1 ≡ sends (pos e.fd) bytes ∷ []))
unfolding send_event
send_event-calls s e = elim (Bool-cases (is_own s e)) [
  | inl own ↦ rw own (inl refl)
  | inr other ↦ rw other (elim (Bool-cases (not e.output)) [
    | inl quiet ↦ rw quiet (inl refl)
    | inr ready ↦ rw ready (pop_entry-calls s e.fd s.send_data_list)
  ])
]

pub entry-erased : (k : ℕ) (m : List (ℕ × List SendData)) → entry k (erase k m) ≡ []
entry-erased k m = ground (arith, lookup-erase {V = List SendData} k k m, ==_refl k)

-- What the listening thread does to the queues: nothing, or it empties that of a client that hung up.
pub listen_event-effect :
    (a : AcceptAnswers) (s : Socket) (e : Event)
    → ((k : ℕ) → queued k (listen_event a s e).0 ≡ queued k s)
      ⊎ (((k : ℕ) → e.fd ≢ k → queued k (listen_event a s e).0 ≡ queued k s)
          × (queued e.fd (listen_event a s e).0 ≡ []))
unfolding listen_event hangup_event
listen_event-effect a s e = elim (Bool-cases (is_own s e)) [
  | inl own ↦ rw (own, accept_event-socket s a) (inl (λ k. refl))
  | inr other ↦ rw other (elim (Bool-cases (e.err || e.hup)) [
    | inl gone ↦ rw gone (
        inr (
          λ k ne. rw (entry-erase e.fd k s.send_data_list ne) refl,
          rw (entry-erased e.fd s.send_data_list) refl,
        ))
    | inr fine ↦ rw fine (inl (λ k. refl))
  ])
]

-- The calls of the kernel that send: to whom, and which bytes.
abbrev pub outputs : List Call → List (ℕ × List ℕ)
outputs [] = []
outputs (sends (pos k) bytes ∷ cs) = (k, bytes) ∷ outputs cs
outputs (_ ∷ cs) = outputs cs

pub outputs-append : (cs ds : List Call) → outputs (cs ++ ds) ≡ outputs cs ++ outputs ds
outputs-append [] ds = refl
outputs-append (sends (pos k) bytes ∷ cs) ds = ap (◌∷◌ (k, bytes)) (outputs-append cs ds)
outputs-append (_ ∷ cs) ds = outputs-append cs ds

-- The listening thread sends nothing.
pub outputs-listen :
    (a : AcceptAnswers) (s : Socket) (e : Event) → outputs (listen_event a s e).1 ≡ []
unfolding listen_event accept_event hangup_event accept
outputs-listen a s e = ground arith

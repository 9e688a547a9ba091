-- ===== src/Socket/Queues.antt =====
-- The lists of data to send as queues, one for each client.
use epoll_model.Prelude.{
  ℕ, zero, suc, ◌≡◌, ◌≢◌, refl, sym, ap, ◌∙◌, true, ◌||◌, not, inl, inr, Bool-cases, List, [], ◌∷◌,
  ◌++◌, append_assoc, append-nil, map-append, length, take-all, drop-all, lt→ltb, ◌==◌,
  if◌then◌else◌, pos, minus_one, ok, insert, erase, lookup-insert, lookup-erase, arith,
}
use epoll_model.Memory.{read_at, write_at, filled}
use epoll_model.Memory.Copies.{read_at-prefix, write_at-next, length-filled}
use epoll_model.Socket.Ops.{
  Op, step, run, queued, sent_by, sent, given_by, given, KeepsClient, KeepClient, sending, writable,
  hangs_up,
}
use epoll_model.Socket.{
  Socket, SendData, Call, Event, entry, is_own, send, send_event, pop_front, pop_entry,
  hangup_event,
}

-- A new entry, as the queue of `k` sees it.
pub entry-insert :
    (j k : ℕ) (ds : List SendData) (m : List (ℕ × List SendData))
    → entry k (insert j ds m) ≡ (if j == k then ds else entry k m)
entry-insert j k ds m = ground (arith, lookup-insert j k ds m)

pub entry-erase : (j k : ℕ) (m : List (ℕ × List SendData)) → j ≢ k → entry k (erase j m) ≡ entry k m
entry-erase j k m h = ground (arith, lookup-erase {V = List SendData} j k m)

copies :
    (buf : List ℕ)
    → (read_at buf 0 (length buf) ≡ ok buf) × (write_at (filled (length buf) 0) 0 buf ≡ ok buf)
copies buf =
    let n = length buf in
    (
      read_at-prefix buf n (omega arith) ∙ ap ok (take-all n buf refl),
      write_at-next [] (filled n 0) buf 0 refl (omega (arith, length-filled n 0))
          ∙ ap ok
              (ap (◌++◌ buf) (drop-all n (filled n 0) (sym (length-filled n 0))) ∙ append-nil buf),
    )

pub ==→eq : (a b : ℕ) → (a == b) ≡ true → a ≡ b
==→eq a b h = ground arith

abbrev pub Balanced : ℕ → Socket → Op → Socket → List Call → Type 0
Balanced k s o s' calls = queued k s ++ given_by k o ≡ sent k calls ++ queued k s'

-- What the threads leave as it is.
abbrev pub SameSetup : Socket → Socket → Type 0
SameSetup s s' = (s'.has_listener ≡ s.has_listener) × (s'.socket ≡ s.socket)

pub send-keeps :
    (s : Socket) (client : ℕ) (buf : List ℕ)
    → (s' : Socket) × (send s (pos client) buf (length buf) ≡ ok (s', minus_one))
      × SameSetup s s'
      × ((k : ℕ) → queued k s' ≡ queued k s ++ given_by k (sending client buf))
unfolding send
send-keeps s zero buf = (s, refl, (refl, refl), λ k. sym (append-nil (queued k s)))
send-keeps s (suc c) buf =
    let client = suc c in
    let (r, w) = copies buf in
    let d : SendData = record { client_id = pos client; databuf = buf; len = length buf } in
    let list = entry client s.send_data_list ++ d ∷ [] in
    let s' : Socket = record s { send_data_list = insert client list s.send_data_list } in
    (
      s',
      rw (lt→ltb 0 client (omega arith), r, w) refl,
      (refl, refl),
      λ k.
          rw (lt→ltb 0 client (omega arith), entry-insert client k list s.send_data_list)
            (elim (Bool-cases (client == k)) [
              | inl same ↦
                  let q = ==→eq client k same in
                  rw (same, ← q)
                    (map-append (λ (d : SendData). d.databuf) (entry client s.send_data_list)
                      (d ∷ []))
              | inr other ↦ rw other (sym (append-nil (queued k s)))
            ]),
    )

-- socketBase::send copies the buffer to the end of the client's queue, and to no other; it returns
-- -1, also where it has queued the data.
pub send-queued :
    (s : Socket) (client : ℕ) (buf : List ℕ)
    → (s' : Socket) × (send s (pos client) buf (length buf) ≡ ok (s', minus_one))
      × ((k : ℕ) → queued k s' ≡ queued k s ++ given_by k (sending client buf))
send-queued s client buf = let (s', e, _, q) = send-keeps s client buf in (s', e, q)

sending_step :
    (k : ℕ) (s : Socket) (client : ℕ) (buf : List ℕ)
    → (s' : Socket) × (step s (sending client buf) ≡ ok (s', []))
      × Balanced k s (sending client buf) s' []
unfolding step
sending_step k s client buf =
    let (s', e, q) = send-queued s client buf in (s', rw e refl, sym (q k))

pop_front_step :
    (k : ℕ) (s : Socket) (fd : ℕ) (ds : List SendData)
    → entry fd s.send_data_list ≡ ds
    → queued k s ++ [] ≡ sent k (pop_front s fd ds).1 ++ queued k (pop_front s fd ds).0
unfolding pop_front
pop_front_step k s fd [] e =
    append-nil (queued k s)
    ∙ rw (entry-insert fd k [] s.send_data_list) (elim (Bool-cases (fd == k)) [
      | inl same ↦ let q = ==→eq fd k same in rw (same, ← q, e) refl
      | inr other ↦ rw other refl
    ])
pop_front_step k s fd (d ∷ ds) e =
    append-nil (queued k s)
    ∙ rw (entry-insert fd k ds s.send_data_list) (elim (Bool-cases (fd == k)) [
      | inl same ↦ let q = ==→eq fd k same in rw (same, ← q, e) refl
      | inr other ↦ rw other refl
    ])

pop_entry_step :
    (k : ℕ) (s : Socket) (fd : ℕ) (m : List (ℕ × List SendData))
    → queued k s ++ [] ≡ sent k (pop_entry s fd m).1 ++ queued k (pop_entry s fd m).0
unfolding pop_entry
pop_entry_step k s fd [] = append-nil (queued k s)
pop_entry_step k s fd (x ∷ m) = pop_front_step k s fd (entry fd s.send_data_list) refl

pub writable_step :
    (k : ℕ) (s : Socket) (e : Event)
    → Balanced k s (writable e) (send_event s e).0 (send_event s e).1
unfolding send_event
writable_step k s e = elim (Bool-cases (is_own s e)) [
  | inl own ↦ rw own (append-nil (queued k s))
  | inr other ↦ rw other (elim (Bool-cases (not e.output)) [
    | inl quiet ↦ rw quiet (append-nil (queued k s))
    | inr ready ↦ rw ready (pop_entry_step k s e.fd s.send_data_list)
  ])
]

pop_entry-keeps :
    (s : Socket) (fd : ℕ) (m : List (ℕ × List SendData)) (ds : List SendData)
    → entry fd s.send_data_list ≡ ds
    → SameSetup s (pop_entry s fd m).0
unfolding pop_entry pop_front
pop_entry-keeps s fd [] ds e = (refl, refl)
pop_entry-keeps s fd (x ∷ m) [] e = rw (e, pop_front) (refl, refl)
pop_entry-keeps s fd (x ∷ m) (d ∷ ds) e = rw (e, pop_front) (refl, refl)

pub send_event-keeps : (s : Socket) (e : Event) → SameSetup s (send_event s e).0
unfolding send_event
send_event-keeps s e = elim (Bool-cases (is_own s e)) [
  | inl own ↦ rw own (refl, refl)
  | inr other ↦ rw other (elim (Bool-cases (not e.output)) [
    | inl quiet ↦ rw quiet (refl, refl)
    | inr ready ↦
        rw ready (pop_entry-keeps s e.fd s.send_data_list (entry e.fd s.send_data_list) refl)
  ])
]

pub hangs_up_step :
    (k : ℕ) (s : Socket) (e : Event)
    → ((e.err || e.hup) ≡ true → e.fd ≢ k)
    → Balanced k s (hangs_up e) (hangup_event s e).0 (hangup_event s e).1
unfolding hangup_event
hangs_up_step k s e h = elim (Bool-cases (e.err || e.hup)) [
  | inl gone ↦
      rw gone (append-nil (queued k s) ∙ rw (entry-erase e.fd k s.send_data_list (h gone)) refl)
  | inr fine ↦ rw fine (append-nil (queued k s))
]

step-Balanced :
    (k : ℕ) (s : Socket) (o : Op)
    → KeepsClient k o
    → (s' : Socket) × (calls : List Call) × (step s o ≡ ok (s', calls)) × Balanced k s o s' calls
unfolding step
step-Balanced k s (sending client buf) h =
    let (s', e, b) = sending_step k s client buf in (s', [], e, b)
step-Balanced k s (writable e) h = (_, _, refl, writable_step k s e)
step-Balanced k s (hangs_up e) h = (_, _, refl, hangs_up_step k s e h)

pub sent-append : (k : ℕ) (cs ds : List Call) → sent k (cs ++ ds) ≡ sent k cs ++ sent k ds
sent-append k [] ds = refl
sent-append k (c ∷ cs) ds = rw (sent-append k cs ds) (sym (append_assoc (sent_by k c) _ _))

-- In any order of sends, output events and hang-ups of other clients: nothing faults, and what was
-- waiting for a client and then given to `send` for it is what the kernel got for it, in that order
-- and once each, followed by what still waits.
pub run_queue :
    (k : ℕ) (s : Socket) (os : List Op)
    → KeepClient k os
    → (s' : Socket) × (calls : List Call) × (run s os ≡ ok (s', calls))
      × (queued k s ++ given k os ≡ sent k calls ++ queued k s')
unfolding run
run_queue k s [] h = (s, [], refl, append-nil (queued k s))
run_queue k s (o ∷ os) h =
    let (s1, first, e1, b1) = step-Balanced k s o h.0 in
    let (s2, rest, e2, b2) = run_queue k s1 os h.1 in
    (
      s2,
      first ++ rest,
      rw (e1, e2) refl,
      sym (append_assoc (queued k s) (given_by k o) (given k os))
          ∙ ap (λ (q : List (List ℕ)). q ++ given k os) b1
          ∙ append_assoc (sent k first) (queued k s1) (given k os)
          ∙ ap (◌++◌ (sent k first)) b2
          ∙ sym (append_assoc (sent k first) (sent k rest) (queued k s2))
          ∙ ap (λ (q : List (List ℕ)). q ++ queued k s2) (sym (sent-append k first rest)),
    )

-- ===== src/Socket/Ops.antt =====
-- What changes the lists of data to send, in any order, and what a client's queue is.
use epoll_model.Prelude.{
  ℕ, ◌≡◌, ◌≢◌, true, ◌||◌, List, [], ◌∷◌, ◌++◌, map, length, ltb, ◌==◌, if◌then◌else◌, pos, Outcome,
  ok, ◌>>=◌,
}
use epoll_model.Socket.{Socket, SendData, Call, sends, Event, entry, send, send_event, hangup_event}

-- What changes or uses the lists, each under the lock: a worker's `send` of a whole buffer, an event
-- in the thread that sends, an event of a client in the thread that listens.
pub data Op : Type 0 where
  sending : (client : ℕ) (buf : List ℕ) → Op
  writable : Event → Op
  hangs_up : Event → Op

unfoldable pub step : Socket → Op → Outcome (Socket × List Call)
unfolding send send_event hangup_event
step s (sending client buf) = do (s', _) ← send s (pos client) buf (length buf); ok (s', [])
step s (writable e) = ok (send_event s e)
step s (hangs_up e) = ok (hangup_event s e)

unfoldable pub run : Socket → List Op → Outcome (Socket × List Call)
unfolding step
run s [] = ok (s, [])
run s (o ∷ os) = do (s', first) ← step s o; (s'', rest) ← run s' os; ok (s'', first ++ rest)

-- The buffers that wait for client `k`, those that were handed to the kernel for it, and those that
-- were given to `send` for it. Descriptor 0 is refused by `send`.
abbrev pub queued : ℕ → Socket → List (List ℕ)
queued k s = map (λ (d : SendData). d.databuf) (entry k s.send_data_list)

abbrev pub sent_by : ℕ → Call → List (List ℕ)
sent_by k (sends (pos j) bytes) = if j == k then bytes ∷ [] else []
sent_by k _ = []

abbrev pub sent : ℕ → List Call → List (List ℕ)
sent k [] = []
sent k (c ∷ cs) = sent_by k c ++ sent k cs

abbrev pub given_by : ℕ → Op → List (List ℕ)
given_by k (sending client buf) =
    if ltb 0 client then (if client == k then buf ∷ [] else []) else []
given_by k _ = []

abbrev pub given : ℕ → List Op → List (List ℕ)
given k [] = []
given k (o ∷ os) = given_by k o ++ given k os

-- The op is no hang-up of client `k`.
abbrev pub KeepsClient : ℕ → Op → Type 0
KeepsClient k (hangs_up e) = (e.err || e.hup) ≡ true → e.fd ≢ k
KeepsClient k _ = Unit {0}

abbrev pub KeepClient : ℕ → List Op → Type 0
KeepClient k [] = Unit {0}
KeepClient k (o ∷ os) = KeepsClient k o × KeepClient k os

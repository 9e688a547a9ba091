-- ===== src/Client/Fleet.antt =====
-- main of client/clientMain.cpp: clients in threads of their own, which run at the same time. They share
-- only the counter of message ids, so a run is an interleaving of the steps in which they count, and behind
-- it each client goes on alone with the id that it copied.
use epoll_model.Prelude.{
  ℕ, suc, ◌+◌, ◌-◌, ◌*◌, ◌≤◌, ◌<◌, ◌^◌, ◌≡◌, refl, ap, true, Option, some, List, [], ◌∷◌, ◌++◌, map,
  length, Outcome, ok, stuck, ◌>>=◌, arith,
}
use epoll_model.Memory.{u32, filled}
use epoll_model.Protocol.{Statics}
use epoll_model.Protocol.Frames.{request_frame, response_frame}
use epoll_model.TaskController.Stream.{concat}
use epoll_model.Client.{ConnectAnswers, ClientCall, Report, api1_result, create_client}
use epoll_model.Client.Collect.{AllFit}
use epoll_model.Client.Connection.{Connects, whole_connection, create_client-frame}
use epoll_model.Client.Counting.{Stage, begins, loaded, stored, copied, waiting_clients, count_run}
use epoll_model.Client.Counting.Bounds.{ids, AllBetween, count_run-Between}
use epoll_model.Client.Counting.Fair.{turns_of, AllCopied, run-AllCopied}

-- createClient with the id that it copied: it runs as it would alone, on a counter that stands one below.
unfoldable pub client_with_id :
    ℕ → ConnectAnswers → List (Option (List ℕ)) → Outcome (Report × List ClientCall)
client_with_id id a rs = do
  let p : Statics = record { has_instance = true; msg_id = u32 (id + 2 ^ 32 - 1) }
  (said, _, calls) ← create_client p a rs
  ok (said, calls)

-- The loop that joins the clients. It waits for one that has not counted.
unfoldable pub join_clients :
    List Stage
    → List (ConnectAnswers × List (Option (List ℕ)))
    → Outcome (List (Report × List ClientCall))
unfolding client_with_id
join_clients [] [] = ok []
join_clients (copied id ∷ ts) ((a, rs) ∷ ws) = do
  r ← client_with_id id a rs
  more ← join_clients ts ws
  ok (r ∷ more)
join_clients _ _ = stuck

-- The loops that start the clients and join them, from a counter at `start`: over what the kernel answers
-- to each, and the order in which they have their turns at the counter. The counter at the end, and what
-- the clients log and call.
unfoldable pub start_clients :
    ℕ
    → List (ConnectAnswers × List (Option (List ℕ)))
    → List ℕ
    → Outcome (ℕ × List (Report × List ClientCall))
unfolding count_run join_clients
start_clients start ws turns =
    let y = count_run (record { msg_id = start; clients = waiting_clients (length ws) }) turns in
    join_clients y.clients ws >>= λ more. ok (y.msg_id, more)

-- A response and the pieces in which it comes.
pub record Peer : Type 0 where
  pub answers : ConnectAnswers
  pub id : ℕ
  pub cmd : ℕ
  pub payload : List ℕ
  pub first : List ℕ
  pub others : List (List ℕ)

abbrev pub world : Peer → ConnectAnswers × List (Option (List ℕ))
world q = (q.answers, map some (q.first ∷ q.others))

-- Every call succeeds, and the pieces make a response frame.
pub record Responds (q : Peer) : Type 0 where
  pub connects : Connects q.answers
  pub small : (q.id < 2 ^ 32) × (q.cmd < 2 ^ 32) × (20 + length q.payload < 2 ^ 31)
  pub pieces : q.first ++ concat q.others ≡ response_frame q.id q.cmd q.payload
  pub header : 4 ≤ length q.first
  pub fit : AllFit (q.first ∷ q.others)

abbrev pub AllRespond : List Peer → Type 0
AllRespond [] = Unit {0}
AllRespond (q ∷ qs) = Responds q × AllRespond qs

-- The reports and calls that are due, for clients with these ids.
unfoldable pub due : List ℕ → List Peer → List (Report × List ClientCall)
due (id ∷ ids) (q ∷ qs) =
    (api1_result 0 q.payload, whole_connection (request_frame id 0 (filled (1024 * 1024) b'A')))
    ∷ due ids qs
due _ _ = []

client_with_id-due :
    (id : ℕ) (q : Peer)
    → 0 < id
    → id < 2 ^ 32
    → Responds q
    → client_with_id id q.answers (map some (q.first ∷ q.others))
      ≡ ok (
        api1_result 0 q.payload,
        whole_connection (request_frame id 0 (filled (1024 * 1024) b'A')),
      )
unfolding client_with_id
client_with_id-due id q some_id small r =
    let p : Statics = record { has_instance = true; msg_id = u32 (id + 2 ^ 32 - 1) } in
    let next : u32 (u32 (id + 2 ^ 32 - 1) + 1) ≡ id = omega arith in
    let run =
      create_client-frame p q.answers q.id q.cmd q.payload q.first q.others r.connects r.small.0
        r.small.1 r.small.2 r.pieces r.header r.fit in
    rw (run, next) refl

join_clients-due :
    (low high : ℕ) (ts : List Stage) (qs : List Peer)
    → high < 2 ^ 32
    → length ts ≡ length qs
    → AllCopied ts
    → AllBetween low high (ids ts)
    → AllRespond qs
    → (join_clients ts (map world qs) ≡ ok (due (ids ts) qs)) × (length (ids ts) ≡ length qs)
unfolding join_clients due
join_clients-due low high [] [] room n all b r = (refl, refl)
join_clients-due low high [] (q ∷ qs) room n all b r = absurd (omega arith)
join_clients-due low high (t ∷ ts) [] room n all b r = absurd (omega arith)
join_clients-due low high (copied id ∷ ts) (q ∷ qs) room n all b r =
    let (run, len) = join_clients-due low high ts qs room (omega arith) all.1 b.2 r.1 in
    let one = client_with_id-due id q (omega (arith, b.0)) (omega (arith, b.1)) r.0 in
    (rw (one, run) refl, omega (arith, len))
join_clients-due low high (begins ∷ ts) (q ∷ qs) room n ((id, e), all) b r = cc
join_clients-due low high (loaded value ∷ ts) (q ∷ qs) room n ((id, e), all) b r = cc
join_clients-due low high (stored ∷ ts) (q ∷ qs) room n ((id, e), all) b r = cc

length-worlds : (qs : List Peer) → length (map world qs) ≡ length qs
length-worlds [] = refl
length-worlds (q ∷ qs) = ap suc (length-worlds qs)

-- Any number of clients, each answered with a response frame in pieces of at most one buffer, the first
-- with the length field, from a counter that leaves room for them below 2^32: in every interleaving of the
-- steps in which they count that gives each of them three turns or more, all are joined. Each logs the data
-- of its own response, and has sent the request with the id that it copied; there is one id for each client,
-- above the start and at most as many above it as there are clients. That the ids differ is not said.
pub start_clients-due :
    (start : ℕ) (qs : List Peer) (turns : List ℕ)
    → start + length qs < 2 ^ 32
    → AllRespond qs
    → ((i : ℕ) → i < length qs → 3 ≤ turns_of i turns)
    → (n : ℕ) × (got : List ℕ) × (start_clients start (map world qs) turns ≡ ok (n, due got qs))
      × (length got ≡ length qs)
      × AllBetween start (start + length qs) got
unfolding start_clients
start_clients-due start qs turns room r fair =
    let m = length qs in
    let y = count_run (record { msg_id = start; clients = waiting_clients m }) turns in
    let same : length (map world qs) ≡ m = length-worlds qs in
    let (b, _, _) = count_run-Between start m turns room in
    let (all, len) = run-AllCopied start m turns fair in
    let (run, n) = join_clients-due start (start + m) y.clients qs room len all b r in
    (y.msg_id, ids y.clients, rw (same, run) refl, n, b)

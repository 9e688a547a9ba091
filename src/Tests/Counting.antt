-- ===== src/Tests/Counting.antt =====
-- Clients that count their message ids at the same time, in concrete orders.
use epoll_model.Prelude.{◌≤◌, ◌≡◌, refl, [], ◌∷◌, arith}
use epoll_model.Client.Counting.{begins, Counting, count_run, waiting_clients}
use epoll_model.Client.Counting.Bounds.{ids, AllBetween, count_run-Between}

abbrev two_clients : Counting
two_clients = record { msg_id = 7; clients = begins ∷ begins ∷ [] }

-- One behind the other.
test_in_turn : ids (count_run two_clients (0 ∷ 0 ∷ 0 ∷ 1 ∷ 1 ∷ 1 ∷ [])).clients ≡ 8 ∷ 9 ∷ []
unfolding count_run
test_in_turn = refl

-- A copy behind the other's store: both get the higher id.
test_late_copy : ids (count_run two_clients (0 ∷ 0 ∷ 1 ∷ 1 ∷ 0 ∷ 1 ∷ [])).clients ≡ 9 ∷ 9 ∷ []
unfolding count_run
test_late_copy = refl

count_run-Between_example :
    let y =
      count_run (record { msg_id = 7; clients = waiting_clients 3 }) (0 ∷ 1 ∷ 0 ∷ 2 ∷ 1 ∷ 0 ∷ []) in
    AllBetween 7 10 (ids y.clients) × (7 ≤ y.msg_id) × (y.msg_id ≤ 10)
count_run-Between_example = count_run-Between 7 3 (0 ∷ 1 ∷ 0 ∷ 2 ∷ 1 ∷ 0 ∷ []) (omega arith)

-- A third client that stores between the copies of two that loaded the same: their ids differ.
test_third_client :
    let three : Counting = record { msg_id = 7; clients = waiting_clients 3 } in
    ids (count_run three (0 ∷ 1 ∷ 0 ∷ 0 ∷ 2 ∷ 1 ∷ 2 ∷ 1 ∷ [])).clients ≡ 8 ∷ 9 ∷ []
unfolding count_run
test_third_client = refl

-- ===== src/Tests/Sockets.antt =====
-- server/socket/socketBase.cpp at concrete inputs.
use epoll_model.Prelude.{ℕ, ◌≡◌, Bool, true, false, List, [], ◌∷◌, ◌++◌, pos, ok, lookup, arith}
use epoll_model.Socket.{Socket, socket_base, Call, Event}
use epoll_model.Socket.Queues.{run_queue}
use epoll_model.Socket.Ops.{Op, sending, writable, hangs_up, run, queued, sent}

abbrev socket : Socket
socket = socket_base true (pos 4)

abbrev event : ℕ → (err output : Bool) → Event
event fd err output = record { fd = fd; err = err; hup = false; input = false; output = output }

-- Two messages for client 3 and one for client 5, which hangs up; client 3 gets its first.
abbrev ops : List Op
ops =
    sending 3 (1 ∷ 2 ∷ [])
    ∷ sending 5 (9 ∷ [])
    ∷ sending 3 (3 ∷ [])
    ∷ writable (event 3 false true)
    ∷ hangs_up (event 5 true false)
    ∷ writable (event 5 false true)
    ∷ []

run_queue_example :
    (s' : Socket) × (calls : List Call) × (run socket ops ≡ ok (s', calls))
    × ([] ++ (1 ∷ 2 ∷ []) ∷ (3 ∷ []) ∷ [] ≡ sent 3 calls ++ queued 3 s')
unfolding socket_base lookup
run_queue_example = run_queue 3 socket ops (tt, (tt, (tt, (tt, ((λ e h. omega arith), (tt, tt))))))

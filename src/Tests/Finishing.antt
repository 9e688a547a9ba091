-- ===== src/Tests/Finishing.antt =====
-- The server that finishes, from a concrete state.
use epoll_model.Prelude.{
  ℕ, ◌+◌, length, ◌≡◌, refl, true, some, List, [], ◌∷◌, ◌++◌, ok, lookup, insert, erase, arith,
  Perm,
}
use epoll_model.Memory.{of_le, write_at, filled, read_word, read_at, new_char}
use epoll_model.Socket.{Call, recv_buffer}
use epoll_model.Socket.Ops.{queued, sent}
use epoll_model.Socket.Receiving.{recv_event}
use epoll_model.TaskController.{on_recv}
use epoll_model.ThreadPool
use epoll_model.ThreadPool.{fetching}
use epoll_model.ThreadPool.Draining.{IsAlive}
use epoll_model.System.{System, Move, receives, hands_over, works, move, run, process_all}
use epoll_model.System.Serving.{incoming}
use epoll_model.System.Answered.{IsQuiet, replies}
use epoll_model.System.Finished.{run-finishes}
use epoll_model.Socket.Events.{outputs}
use epoll_model.System.Changes.{once}
use epoll_model.System.Desk.{Reach}
use epoll_model.System.Desk.Account.{times_answered, occurrences}
use epoll_model.System.Desk.Safety.{AllOutputs}
use epoll_model.System.Refinement.{desk}
use epoll_model.System.Refined.{run-refines, IsReply, run-answers_own}
use epoll_model.Tests.Serving.{
  start, schedule, ready, chunk, more, streams, one_task, start-IsFresh, streams-AllFrames,
  schedule-Fits, chunks-streams, chunks-IsSafe,
}

-- The request of client 3 for API 1 has come in and was given to the pool; no worker has seen it yet.
abbrev arrivals : List Move
arrivals =
    receives ready (some chunk) ∷ works 0 ∷ receives ready (some (more 0)) ∷ hands_over true ∷ []

abbrev arrived_end : System
arrived_end = record start {
  controller = record {
    recv_list = [];
    added = record { client_id = 3; databuf = chunk ++ more 0; len = 17; cur_len = 6 } ∷ [];
  };
  pool = record start.pool {
    tasks = some one_task ∷ [];
    threads = record { state = 1; pc = fetching; free_time = 0 } ∷ [];
  };
  handed = 1;
}

run-arrivals : run start arrivals ≡ ok (arrived_end, [], [])
unfolding run move process_all recv_event on_recv ThreadPool.act recv_buffer write_at filled lookup
    read_word read_at of_le new_char insert erase
run-arrivals = refl

arrived_end-IsAlive : IsAlive 0 arrived_end.pool
arrived_end-IsAlive = record {
  thread = record { state = 1; pc = fetching; free_time = 0 };
  there = refl;
  active = record { looping = refl; recent = omega arith };
  open_pool = refl;
}

run-finishes_example :
    (more : List Move) × (y2 : System) × (all_calls : List Call) × (all_events : List
      ThreadPool.Event)
    × (incoming more ≡ [])
    × (run start (arrivals ++ more) ≡ ok (y2, all_calls, all_events))
    × IsQuiet y2
    × (queued 3 y2.socket ≡ [])
    × Perm (sent 3 all_calls) (queued 3 start.socket ++ replies (streams 0 3))
run-finishes_example =
    run-finishes start arrived_end [] [] (streams 0) arrivals 0 3 start-IsFresh
      (streams-AllFrames 0) (schedule-Fits 0) (chunks-streams 0) (chunks-IsSafe 0) (omega arith)
      (tt, (tt, (tt, (tt, tt)))) run-arrivals arrived_end-IsAlive (λ e. cc)

run-refines_example :
    (y' : System) × (calls : List Call) × (events : List ThreadPool.Event) × (run start (schedule 0)
      ≡ ok (y', calls, events))
    × (r : Reach (desk start) (outputs calls) (desk y')) × ((j : ℕ)
        → times_answered j r + occurrences j (desk y').pending
          ≡ once j (length y'.controller.added))
run-refines_example =
    run-refines start (streams 0) (schedule 0) start-IsFresh (streams-AllFrames 0) (schedule-Fits 0)
      (chunks-streams 0) (chunks-IsSafe 0)

run-answers_own_example :
    (y' : System) × (calls : List Call) × (events : List ThreadPool.Event) × (run start (schedule 0)
      ≡ ok (y', calls, events))
    × AllOutputs (IsReply (streams 0)) (outputs calls)
unfolding lookup
run-answers_own_example =
    run-answers_own start (streams 0) (schedule 0) start-IsFresh (λ k. refl) (streams-AllFrames 0)
      (schedule-Fits 0) (chunks-streams 0) (chunks-IsSafe 0)

-- ===== src/TaskController/Reception.antt =====
-- From the events of epoll to the tasks: threadRecvFun with taskController as its listener.
use epoll_model.Prelude.{ℕ, ◌≡◌, ◌∙◌, true, none, List, ◌++◌, map, ok, lookup}
use epoll_model.Socket.{Socket, Event}
use epoll_model.Socket.Receiving.{Received, recv_events, arrived, Fits, recv_events-feed}
use epoll_model.TaskController.{Controller}
use epoll_model.TaskController.Stream.{AllFrames, concat, view, frame_view}
use epoll_model.TaskController.Delivery.{IsSafe}
use epoll_model.TaskController.Interleaving.{listener, chunks_of, views_of, feed_all-frames}

-- A socket with a listener gets any sequence of events, of any clients, with what `recv` returns for
-- each, never more than the buffer holds. Every client's bytes, taken together, are its stream of
-- frames, cut nowhere inside the first four bytes of a frame, and no bytes of any client wait at the
-- start. Then the loop over the events ends without fault; the tasks added for each client are exactly
-- its frames, once each and in order; and no bytes of any client wait at the end.
pub recv_events-frames :
    (s : Socket) (streams : ℕ → List (List ℕ)) (es : List (Event × Received)) (ctl : Controller)
    → s.has_listener ≡ true
    → Fits es
    → ((k : ℕ) → AllFrames (streams k))
    → ((k : ℕ) → concat (chunks_of k (arrived s es)) ≡ concat (streams k))
    → ((k : ℕ) → IsSafe (streams k) 0 (chunks_of k (arrived s es)))
    → ((k : ℕ) → lookup k ctl.recv_list ≡ none)
    → (ctl' : Controller) × (recv_events listener s ctl es ≡ ok ctl')
      × ((k : ℕ)
          → views_of k (map view ctl'.added)
            ≡ views_of k (map view ctl.added) ++ map (frame_view k) (streams k))
      × ((k : ℕ) → lookup k ctl'.recv_list ≡ none)
recv_events-frames s streams es ctl l fit frames all cuts free =
    let (ctl', run, tasks, waits) =
      feed_all-frames streams frames (arrived s es) ctl all cuts free in
    (ctl', recv_events-feed listener s ctl es l fit ∙ run, tasks, waits)

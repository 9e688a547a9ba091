-- ===== src/Tests/Mixing.antt =====
-- Two clients of the whole server, one behind the other, at one descriptor.
use epoll_model.Prelude.{◌≡◌, refl, true, List, [], ◌∷◌, map, some, pos, ok, lookup, arith}
use epoll_model.Memory.{of_le}
use epoll_model.Socket.{closes, removes, accepts, sets_flags, adds}
use epoll_model.TaskController.Stream.{AllFrames, view}
use epoll_model.System.{System, Move, receives, listens_for, run}
use epoll_model.System.Stale.{input_of, hang_up_of, accepting, run-mixes}
use epoll_model.Tests.Serving.{start}

-- Client 3 sends five of six bytes and hangs up. The next client with this descriptor sends a message of
-- five bytes, whose first is taken for the sixth; then the four others are a message that announces 4.
abbrev mixing : List Move
mixing =
    receives (input_of 3) (some (6 ∷ 0 ∷ 0 ∷ 0 ∷ 1 ∷ []))
    ∷ listens_for (hang_up_of 3) (accepting 9)
    ∷ listens_for (input_of 4) (accepting 3)
    ∷ receives (input_of 3) (some (5 ∷ 4 ∷ 0 ∷ 0 ∷ 0 ∷ []))
    ∷ []

mixed-AllFrames : AllFrames ((6 ∷ 0 ∷ 0 ∷ 0 ∷ 1 ∷ 5 ∷ []) ∷ (4 ∷ 0 ∷ 0 ∷ 0 ∷ []) ∷ [])
unfolding of_le
mixed-AllFrames = (
  record { header = omega arith; announced = refl; small = omega arith },
  (record { header = omega arith; announced = refl; small = omega arith }, tt),
)

run-mixes_example :
    (y' : System) × (run start mixing
      ≡ ok (
        y',
        closes (pos 3)
            ∷ removes (pos 5) (pos 3)
            ∷ accepts (pos 4)
            ∷ sets_flags (pos 3) 2048
            ∷ adds (pos 5) (pos 3) true
            ∷ [],
        [],
      ))
    × (map view y'.controller.added
        ≡ (3, 6 ∷ 0 ∷ 0 ∷ 0 ∷ 1 ∷ 5 ∷ [], 6) ∷ (3, 4 ∷ 0 ∷ 0 ∷ 0 ∷ [], 4) ∷ [])
unfolding lookup
run-mixes_example =
    run-mixes start 3 3 (6 ∷ 0 ∷ 0 ∷ 0 ∷ 1 ∷ []) (5 ∷ []) ((4 ∷ 0 ∷ 0 ∷ 0 ∷ []) ∷ []) (accepting 9)
      refl refl (λ e. omega arith) refl mixed-AllFrames (omega arith) (omega arith) (omega arith)
      (omega arith)

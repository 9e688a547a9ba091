-- ===== src/System/Refinement.antt =====
-- The server's state as the state of the abstract desk, and its moves as the desk's steps.
use mathlib.Core.Quot
use epoll_model.Prelude.{
  ℕ, zero, suc, ◌+◌, ◌-◌, ◌≡◌, List, [], ◌∷◌, ◌++◌, map, length, ltb, if◌then◌else◌, arith,
}
use epoll_model.Prelude.Multisets.{count, count-append}
use epoll_model.Socket.Ops.{queued}
use epoll_model.TaskController.Stream.{view}
use epoll_model.ThreadPool.Custody.{held}
use epoll_model.ThreadPool.Numbers.{queue_numbers, hand_numbers, count-queue, count-hands}
use epoll_model.System.{System}
use epoll_model.System.Desk.{Desk}

-- The numbers from `first` on, of which there are `n`.
abbrev pub from_to : ℕ → ℕ → List ℕ
from_to first zero = []
from_to first (suc n) = first ∷ from_to (first + 1) n

abbrev pub to_do : System → List ℕ
to_do y =
    queue_numbers y.pool.tasks
    ++ (hand_numbers y.pool.threads ++ from_to y.handed (length y.controller.added - y.handed))

-- What the abstract view keeps of the server: not the order of the tasks, nor where they are.
abbrev pub desk : System → Desk
desk y = record {
  requests = map view y.controller.added;
  pending = Quot.mk (to_do y);
  boxes = λ k. queued k y.socket;
}

-- 1 for the numbers from `first` on, of which there are `n`.
abbrev pub between : ℕ → ℕ → ℕ → ℕ
between j first n = if ltb j first then 0 else if ltb j (first + n) then 1 else 0

count-from_to : (j first n : ℕ) → count j (from_to first n) ≡ between j first n
count-from_to j first zero = ground arith
count-from_to j first (suc n) = ground (arith, count-from_to j (first + 1) n)

pub count-to_do :
    (j : ℕ) (y : System)
    → count j (to_do y) ≡ held j y.pool + between j y.handed (length y.controller.added - y.handed)
count-to_do j y =
    let q = queue_numbers y.pool.tasks in
    let h = hand_numbers y.pool.threads in
    let f = from_to y.handed (length y.controller.added - y.handed) in
    omega (
      arith,
      count-append j q (h ++ f),
      count-append j h f,
      count-queue j y.pool.tasks,
      count-hands j y.pool.threads,
      count-from_to j y.handed (length y.controller.added - y.handed),
    )

-- ===== src/Tests/Bytes.antt =====
-- server/taskController.cpp at chunks that are no frames, or end where a buffer ends.
use epoll_model.Prelude.{
  ℕ, ◌+◌, ◌≡◌, ◌⊎◌, ◌∙◌, ap, Bool-cases, inl, inr, ◌==◌, refl, none, some, List, [], ◌∷◌, ◌++◌,
  length, ok, fault, stuck, lookup, arith,
}
use epoll_model.Memory.{le_bytes, filled}
use epoll_model.Memory.Copies.{length-filled}
use epoll_model.Memory.Words.{of_le-le_bytes}
use epoll_model.TaskController.{TaskData, Controller, on_recv}
use epoll_model.TaskController.Stream.{IsFrame}
use epoll_model.TaskController.CutHeader.{on_recv-overread}
use epoll_model.TaskController.AnyBytes.{AllPending}
use epoll_model.TaskController.Totality.{MeetsZero, on_recv-total}

abbrev idle : Controller
idle = record { recv_list = []; added = [] }

-- A frame that fills the buffer of 32768 bytes up to its last byte, in which the next frame begins.
abbrev large : List ℕ
large = le_bytes 32767 ++ filled 32763 0

large-IsFrame : IsFrame large
unfolding le_bytes
large-IsFrame =
    let n = length-filled 32763 0 in
    record {
      header = omega arith;
      announced = of_le-le_bytes 32767 (filled 32763 0) (omega arith) ∙ omega arith;
      small = omega arith;
    }

on_recv-overread_example : on_recv idle 3 (large ++ (9 ∷ [])) (length large + 1) ≡ fault
unfolding lookup
on_recv-overread_example =
    on_recv-overread idle 3 large (9 ∷ []) [] refl large-IsFrame (omega arith) (omega arith)

-- Five bytes of a request of six have come.
abbrev waits : TaskData
waits = record { client_id = 3; databuf = 6 ∷ 0 ∷ 0 ∷ 0 ∷ 1 ∷ 0 ∷ []; len = 6; cur_len = 5 }

abbrev waiting : Controller
waiting = record { recv_list = (3, waits) ∷ []; added = [] }

only_waits : (k : ℕ) (t : TaskData) → lookup k waiting.recv_list ≡ some t → waits ≡ t
unfolding lookup
only_waits k t e = elim (Bool-cases (3 == k)) [
  | inl same ↦ let q : some waits ≡ some t = rw same at e in cc
  | inr other ↦ let q : none ≡ some t = rw other at e in absurd (cc (q))
]

waiting-AllPending : AllPending waiting.recv_list
waiting-AllPending k t e =
    rw (← only_waits k t e) (record { lacks = omega arith; room = refl; small = omega arith })

on_recv-total_example :
    ((ctl' : Controller) × (on_recv waiting 3 (7 ∷ 1 ∷ 2 ∷ 0 ∷ 0 ∷ 0 ∷ []) 3 ≡ ok ctl')
      × AllPending ctl'.recv_list)
    ⊎ (MeetsZero (7 ∷ 1 ∷ 2 ∷ 0 ∷ 0 ∷ 0 ∷ []) 3
        × (on_recv waiting 3 (7 ∷ 1 ∷ 2 ∷ 0 ∷ 0 ∷ 0 ∷ []) 3 ≡ stuck))
on_recv-total_example =
    on_recv-total waiting 3 (7 ∷ 1 ∷ 2 ∷ []) (0 ∷ 0 ∷ 0 ∷ []) waiting-AllPending
      (omega arith, (omega arith, (omega arith, (omega arith, (omega arith, (omega arith, tt))))))
      (omega arith) (omega arith) (omega arith)
      (λ t e. let q = ap (λ (u : TaskData). u.len) (only_waits 3 t e) in omega arith)

-- ===== src/TaskController/Feeding.antt =====
-- What it means that makeNewTask is fed with a chunk of a stream, and what one activation leaves.
use epoll_model.Prelude.{
  ℕ, suc, ◌+◌, ◌<◌, ◌^◌, ◌≡◌, refl, ◌∙◌, none, some, List, [], ◌∷◌, ◌++◌, map, map-append, length,
  drop, ok, lookup, insert, erase, lookup-insert, lookup-erase, ==_refl, arith,
}
use epoll_model.TaskController.{
  TaskData, Controller, return, again, add_task, receive, make_new_task,
}
use epoll_model.TaskController.Stream.{concat, IsSafeCut, View, view, frame_view, At, Untouched}

pub runs_return :
    (fuel : ℕ) (c : Controller) (client : ℕ) (buf : List ℕ) (len : ℕ) {c' : Controller}
    → receive c client buf len ≡ ok (return c')
    → make_new_task (suc fuel) c client buf len ≡ ok c'
unfolding make_new_task
runs_return fuel c client buf len e = rw e refl

pub runs_again :
    (fuel : ℕ) (c : Controller) (client : ℕ) (buf : List ℕ) (len : ℕ) {c' : Controller}
    {buf' : List ℕ} {len' : ℕ}
    → receive c client buf len ≡ ok (again c' buf' len')
    → make_new_task (suc fuel) c client buf len ≡ make_new_task fuel c' client buf' len'
unfolding make_new_task
runs_again fuel c client buf len e = rw e refl

-- From position `n` of the stream `fs`, a chunk `c` that leads to position `m` is received.
abbrev pub Feeds : ℕ → List (List ℕ) → Type 0
Feeds client fs =
    (old : List View) (n m : ℕ) (c rest junk : List ℕ) (ctl : Controller) (fuel : ℕ)
    → m ≡ n + length c
    → 0 < length c
    → length c < 2 ^ 31
    → drop n (concat fs) ≡ c ++ rest
    → IsSafeCut fs n
    → IsSafeCut fs m
    → At client old fs n ctl
    → length c < fuel
    → (ctl' : Controller) × (make_new_task fuel ctl client (c ++ junk) (length c) ≡ ok ctl')
      × At client old fs m ctl'
      × Untouched client ctl ctl'

-- The map after a write at this client's key.
pub Untouched-insert :
    (client : ℕ) (t : TaskData) (ctl : Controller) (added : List TaskData)
    → Untouched client ctl (record { recv_list = insert client t ctl.recv_list; added = added })
Untouched-insert client t ctl added k ne = ground (arith, lookup-insert client k t ctl.recv_list)

pub Untouched-erase :
    (client : ℕ) (ctl : Controller) (added : List TaskData)
    → Untouched client ctl (record { recv_list = erase client ctl.recv_list; added = added })
Untouched-erase client ctl added k ne =
    ground (arith, lookup-erase {V = TaskData} client k ctl.recv_list)

pub lookup-insert_self :
    (k : ℕ) (t : TaskData) (m : List (ℕ × TaskData)) → lookup k (insert k t m) ≡ some t
lookup-insert_self k t m = rw (lookup-insert k k t m, ==_refl k) refl

pub lookup-erase_self : (k : ℕ) (m : List (ℕ × TaskData)) → lookup k (erase k m) ≡ none
lookup-erase_self k m = rw (lookup-erase k k m, ==_refl k) refl

pub added_view :
    (ctl : Controller) (t : TaskData) (client : ℕ) (f : List ℕ) (old : List View)
    → map view ctl.added ≡ old
    → view t ≡ frame_view client f
    → map view (add_task ctl t).added ≡ old ++ frame_view client f ∷ []
unfolding add_task
added_view ctl t client f old e v = map-append view ctl.added (t ∷ []) ∙ rw (e, v) refl

pub add_task-keeps : (ctl : Controller) (t : TaskData) → (add_task ctl t).recv_list ≡ ctl.recv_list
unfolding add_task
add_task-keeps ctl t = refl

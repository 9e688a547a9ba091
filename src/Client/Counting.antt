-- ===== src/Client/Counting.antt =====
-- The counter of message ids in makeAPIRequest, `memcpy(…, &(++m_msgId), …)`, when clients count at the
-- same time: no lock is held, so that the load, the store and the copy from the counter's address are
-- steps of their own. Each of them is taken to be whole, which C++ does not promise.
pub mod Within
pub mod Bounds
pub mod Same
pub mod Fair
use epoll_model.Prelude.{
  ℕ, zero, suc, ◌+◌, ◌≤◌, ◌<◌, ◌^◌, ◌≡◌, ◌≢◌, refl, sym, ap, ◌∙◌, Option, none, some, Option-cases,
  inl, inr, ◌⊎◌, List, [], ◌∷◌, length, get_elem?, arith,
}
use epoll_model.Memory.{u32}

-- Where a client stands: before the load, before the store, before the copy, and behind it.
pub data Stage : Type 0 where
  begins : Stage
  loaded : (value : ℕ) → Stage
  stored : Stage
  copied : (id : ℕ) → Stage

-- `m_msgId`, and the clients.
pub record Counting : Type 0 where
  pub msg_id : ℕ
  pub clients : List Stage

-- The next step of a client: what `m_msgId` is then, and where the client stands.
unfoldable pub count_step : Stage → ℕ → ℕ × Stage
count_step begins n = (n, loaded n)
count_step (loaded value) n = (u32 (value + 1), stored)
count_step stored n = (n, copied n)
count_step (copied id) n = (n, copied id)

pub set_stage : ℕ → Stage → List Stage → List Stage
set_stage i t [] = []
set_stage zero t (x ∷ xs) = t ∷ xs
set_stage (suc i) t (x ∷ xs) = x ∷ set_stage i t xs

unfoldable pub count_turn : Counting → ℕ → Counting
unfolding count_step set_stage
count_turn y i = elim (get_elem? y.clients i) [
  | none ↦ y
  | some t ↦
      let r = count_step t y.msg_id in record { msg_id = r.0; clients = set_stage i r.1 y.clients }
]

unfoldable pub count_run : Counting → List ℕ → Counting
unfolding count_turn
count_run y [] = y
count_run y (i ∷ is) = count_run (count_turn y i) is

-- So many clients, none of which has begun to count.
abbrev pub waiting_clients : ℕ → List Stage
waiting_clients zero = []
waiting_clients (suc n) = begins ∷ waiting_clients n

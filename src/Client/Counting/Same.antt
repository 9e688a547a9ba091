-- ===== src/Client/Counting/Same.antt =====
-- Clients that count at the same time: two that load the same value of m_msgId.
use epoll_model.Prelude.{ℕ, ◌+◌, ◌≡◌, ◌⊎◌, true, false, some, List, [], ◌∷◌, get_elem?}
use epoll_model.Memory.{u32}
use epoll_model.Client.Counting.{
  Stage, begins, loaded, stored, copied, Counting, count_step, count_turn,
}

-- What a turn of client `i` changes, where it stands at `t`, and what client `j` keeps.
record Turned (y : Counting) (i j : ℕ) (t u : Stage) : Type 0 where
  mine : get_elem? (count_turn y i).clients i ≡ some (count_step t y.msg_id).1
  counter : (count_turn y i).msg_id ≡ (count_step t y.msg_id).0
  other : get_elem? (count_turn y i).clients j ≡ some u

-- What a client has, of two that both loaded `n`, with `id` one above it and the counter at `m`.
abbrev Shares : (n id m : ℕ) → Stage → Type 0
Shares n id m begins = true ≡ false
Shares n id m (loaded value) = value ≡ n
Shares n id m stored = m ≡ id
Shares n id m (copied got) = got ≡ id

record Both (y : Counting) (i j n : ℕ) : Type 0 where
  one : Stage
  other : Stage
  here : get_elem? y.clients i ≡ some one
  there : get_elem? y.clients j ≡ some other
  one_shares : Shares n (u32 (n + 1)) y.msg_id one
  other_shares : Shares n (u32 (n + 1)) y.msg_id other

-- The turns are of these two clients alone.
abbrev pub AllOfTwo : (i j : ℕ) → List ℕ → Type 0
AllOfTwo i j [] = Unit {0}
AllOfTwo i j (k ∷ ks) = ((k ≡ i) ⊎ (k ≡ j)) × AllOfTwo i j ks

-- ===== src/Client/Counting/Fair.antt =====
-- Clients that count at the same time: three turns are enough for each of them.
use epoll_model.Prelude.{
  ℕ, zero, suc, ◌+◌, ◌-◌, ◌≤◌, ◌<◌, ◌≡◌, ◌≢◌, refl, ap, ◌∙◌, Option-cases, Bool-cases, inl, inr,
  some, List, [], ◌∷◌, length, get_elem?, ◌==◌, if◌then◌else◌, arith,
}
use epoll_model.Client.Counting.{
  Stage, begins, loaded, stored, copied, Counting, count_step, count_turn, count_run,
  waiting_clients,
}
use epoll_model.Client.Counting.Bounds.{run-length}
use epoll_model.Client.Counting.Within.{get-set_stage}

-- How many of the turns are those of client `i`.
unfoldable pub turns_of : ℕ → List ℕ → ℕ
turns_of i [] = 0
turns_of i (j ∷ js) = (if j == i then 1 else 0) + turns_of i js

-- The turns that a client still needs.
abbrev needs : Stage → ℕ
needs begins = 3
needs (loaded value) = 2
needs stored = 1
needs (copied id) = 0

step-needs : (t : Stage) (n : ℕ) → needs (count_step t n).1 ≤ needs t - 1
unfolding count_step
step-needs begins n = omega arith
step-needs (loaded value) n = omega arith
step-needs stored n = omega arith
step-needs (copied id) n = omega arith

-- A turn of client `j` brings it one turn further, and leaves the others where they are.
turn-needs :
    (y : Counting) (i j : ℕ) (t : Stage)
    → get_elem? y.clients i ≡ some t
    → (u : Stage) × (get_elem? (count_turn y j).clients i ≡ some u)
      × (needs u ≤ needs t - (if j == i then 1 else 0))
unfolding count_turn
turn-needs y i j t e = elim (Bool-cases (j == i)) [
  | inl same ↦
      let q : j ≡ i = ground arith in
      let e' : get_elem? y.clients j ≡ some t = ap (get_elem? y.clients) q ∙ e in
      let r = count_step t y.msg_id in
      let here = (get-set_stage j j r.1 t y.clients e').0 in
      rw (same, ← q) (rw (e', count_turn) (r.1, here, step-needs t y.msg_id))
  | inr other ↦ rw other (elim (Option-cases (get_elem? y.clients j)) [
    | inl out ↦ rw (out, count_turn) (t, e, omega arith)
    | inr (v, f) ↦
        let ne : j ≢ i = ground arith in
        let there = (get-set_stage j i (count_step v y.msg_id).1 v y.clients f).1 ne in
        rw (f, count_turn) (t, there ∙ e, omega arith)
  ])
]

pub run-copied :
    (js : List ℕ) (y : Counting) (i : ℕ) (t : Stage)
    → get_elem? y.clients i ≡ some t
    → needs t ≤ turns_of i js
    → (id : ℕ) × (get_elem? (count_run y js).clients i ≡ some (copied id))
unfolding count_run turns_of
run-copied [] y i (copied id) e h = (id, e)
run-copied [] y i begins e h = absurd (omega arith)
run-copied [] y i (loaded value) e h = absurd (omega arith)
run-copied [] y i stored e h = absurd (omega arith)
run-copied (j ∷ js) y i t e h =
    let (u, f, less) = turn-needs y i j t e in
    run-copied js (count_turn y j) i u f (omega (arith, h, less))

get-waiting_clients : (n i : ℕ) → i < n → get_elem? (waiting_clients n) i ≡ some begins
get-waiting_clients zero i h = absurd (omega arith)
get-waiting_clients (suc n) zero h = refl
get-waiting_clients (suc n) (suc i) h = get-waiting_clients n i (omega arith)

length-waiting_clients : (n : ℕ) → length (waiting_clients n) ≡ n
length-waiting_clients zero = refl
length-waiting_clients (suc n) = ap suc (length-waiting_clients n)

abbrev pub AllCopied : List Stage → Type 0
AllCopied [] = Unit {0}
AllCopied (t ∷ ts) = ((id : ℕ) × (t ≡ copied id)) × AllCopied ts

all_copied :
    (ts : List Stage)
    → ((i : ℕ) → i < length ts → (id : ℕ) × (get_elem? ts i ≡ some (copied id)))
    → AllCopied ts
all_copied [] h = tt
all_copied (t ∷ ts) h =
    let (id, e) = h 0 (omega arith) in
    let q : t ≡ copied id = cc in ((id, q), all_copied ts (λ i l. h (suc i) (omega arith)))

-- Where each of `n` clients has three turns or more, all of them have got their ids.
pub run-AllCopied :
    (start n : ℕ) (js : List ℕ)
    → ((i : ℕ) → i < n → 3 ≤ turns_of i js)
    → let y = count_run (record { msg_id = start; clients = waiting_clients n }) js in
      AllCopied y.clients × (length y.clients ≡ n)
run-AllCopied start n js fair =
    let y : Counting = record { msg_id = start; clients = waiting_clients n } in
    let len = run-length js y ∙ length-waiting_clients n in
    (
      all_copied (count_run y js).clients (λ i l.
          let small : i < n = omega (arith, len, l) in
          run-copied js y i begins (get-waiting_clients n i small) (fair i small)),
      len,
    )

-- ===== src/Client/Counting/Bounds.antt =====
-- Clients that count at the same time: the message ids stay in their range.
use epoll_model.Prelude.{
  ℕ, zero, suc, ◌+◌, ◌≤◌, ◌<◌, ◌^◌, ◌≡◌, refl, ap, ◌∙◌, Option-cases, inl, inr, ◌⊎◌, List, [], ◌∷◌,
  length, get_elem?, arith,
}
use epoll_model.Memory.{u32}
use epoll_model.Client.Counting.{
  Stage, begins, loaded, stored, copied, Counting, count_step, set_stage, count_turn, count_run,
  waiting_clients,
}
use epoll_model.Client.Counting.Within.{
  has_stored, stores, Within, AllWithin, AllWithin-mono, AllWithin-set, AllWithin-get, stores-set,
  stores-le-length,
}

-- The counter lies between the start and the number of stores behind it, and above the start when one
-- has been made.
record IsCounted (start : ℕ) (y : Counting) : Type 0 where
  low : start ≤ y.msg_id
  high : y.msg_id ≤ start + stores y.clients
  raised : (stores y.clients ≡ 0) ⊎ (start < y.msg_id)
  within : AllWithin start (stores y.clients) y.clients
  room : start + length y.clients < 2 ^ 32

-- A step of a client, with `k` stores before it and `m` after it.
record Counts (start k m : ℕ) (r : ℕ × Stage) : Type 0 where
  low : start ≤ r.0
  high : r.0 ≤ start + m
  raised : (m ≡ 0) ⊎ (start < r.0)
  within : Within start m r.1
  grows : k ≤ m

as_before : (k m n start : ℕ) → m ≡ k → (k ≡ 0) ⊎ (start < n) → (m ≡ 0) ⊎ (start < n)
as_before k m n start e (inl z) = inl (e ∙ z)
as_before k m n start e (inr h) = inr h

is_raised : (k n start : ℕ) → 1 ≤ k → (k ≡ 0) ⊎ (start < n) → start < n
is_raised k n start h (inl z) = absurd (omega arith)
is_raised k n start h (inr l) = l

step-Counts :
    (start k m : ℕ) (t : Stage) (n : ℕ)
    → start ≤ n
    → n ≤ start + k
    → (k ≡ 0) ⊎ (start < n)
    → has_stored t ≤ k
    → m + has_stored t ≡ k + has_stored (count_step t n).1
    → start + m < 2 ^ 32
    → Within start k t
    → Counts start k m (count_step t n)
unfolding count_step
step-Counts start k m begins n l h r c e room w = record {
  low = l;
  high = omega (arith, h, e);
  raised = as_before k m n start (omega (arith, e)) r;
  within = (l, omega (arith, h, e));
  grows = omega (arith, e);
}
step-Counts start k m (loaded value) n l h r c e room w =
    let q : u32 (value + 1) ≡ value + 1 = omega (arith, w.1, e, room) in
    record {
      low = omega (arith, w.0, q);
      high = omega (arith, w.1, q, e);
      raised = inr (omega (arith, w.0, q));
      within = tt;
      grows = omega (arith, e);
    }
step-Counts start k m stored n l h r c e room w =
    let up = is_raised k n start c r in
    record {
      low = l;
      high = omega (arith, h, e);
      raised = inr up;
      within = (up, omega (arith, h, e));
      grows = omega (arith, e);
    }
step-Counts start k m (copied id) n l h r c e room w = record {
  low = l;
  high = omega (arith, h, e);
  raised = as_before k m n start (omega (arith, e)) r;
  within = (w.0, omega (arith, w.1, e));
  grows = omega (arith, e);
}

turn-IsCounted :
    (start : ℕ) (y : Counting) (i : ℕ) → IsCounted start y → IsCounted start (count_turn y i)
unfolding count_turn
turn-IsCounted start y i c = elim (Option-cases (get_elem? y.clients i)) [
  | inl e ↦ rw (e, count_turn) c
  | inr (t, e) ↦
      let r = count_step t y.msg_id in
      let ts = set_stage i r.1 y.clients in
      let (count, n, one) = stores-set i r.1 t y.clients e in
      let s =
        step-Counts start (stores y.clients) (stores ts) t y.msg_id c.low c.high c.raised one count
          (omega (arith, c.room, stores-le-length ts, n))
          (AllWithin-get start (stores y.clients) i y.clients t c.within e) in
      rw (e, count_turn)
        (record {
          low = s.low;
          high = s.high;
          raised = s.raised;
          within =
              AllWithin-set start (stores ts) i r.1 y.clients
                (AllWithin-mono start (stores y.clients) (stores ts) y.clients s.grows c.within)
                s.within;
          room = omega (arith, c.room, n);
        })
]

pub turn-length : (y : Counting) (i : ℕ) → length (count_turn y i).clients ≡ length y.clients
unfolding count_turn
turn-length y i = elim (Option-cases (get_elem? y.clients i)) [
  | inl e ↦ rw (e, count_turn) refl
  | inr (t, e) ↦ rw (e, count_turn) (stores-set i (count_step t y.msg_id).1 t y.clients e).1
]

run-IsCounted :
    (start : ℕ) (is : List ℕ) (y : Counting) → IsCounted start y → IsCounted start (count_run y is)
unfolding count_run
run-IsCounted start [] y c = c
run-IsCounted start (i ∷ is) y c =
    run-IsCounted start is (count_turn y i) (turn-IsCounted start y i c)

pub run-length : (is : List ℕ) (y : Counting) → length (count_run y is).clients ≡ length y.clients
unfolding count_run
run-length [] y = refl
run-length (i ∷ is) y = run-length is (count_turn y i) ∙ turn-length y i

waiting-Within :
    (start n : ℕ)
    → (stores (waiting_clients n) ≡ 0)
      × AllWithin start 0 (waiting_clients n)
      × (length (waiting_clients n) ≡ n)
waiting-Within start zero = (refl, tt, refl)
waiting-Within start (suc n) =
    let (a, b, c) = waiting-Within start n in (omega (arith, a), (tt, b), ap suc c)

-- The message ids that clients have got.
abbrev pub ids : List Stage → List ℕ
ids [] = []
ids (begins ∷ ts) = ids ts
ids (loaded value ∷ ts) = ids ts
ids (stored ∷ ts) = ids ts
ids (copied id ∷ ts) = id ∷ ids ts

abbrev pub AllBetween : (low high : ℕ) → List ℕ → Type 0
AllBetween low high [] = Unit {0}
AllBetween low high (x ∷ xs) = (low < x) × (x ≤ high) × AllBetween low high xs

ids-Between :
    (start k n : ℕ) (ts : List Stage)
    → k ≤ n
    → AllWithin start k ts
    → AllBetween start (start + n) (ids ts)
ids-Between start k n [] h a = tt
ids-Between start k n (begins ∷ ts) h a = ids-Between start k n ts h a.1
ids-Between start k n (loaded value ∷ ts) h a = ids-Between start k n ts h a.1
ids-Between start k n (stored ∷ ts) h a = ids-Between start k n ts h a.1
ids-Between start k n (copied id ∷ ts) h a =
    (a.0.0, omega (arith, a.0.1), ids-Between start k n ts h a.1)

-- `n` clients that count at the same time, from a counter that leaves room for them below 2^32: in every
-- interleaving of their loads, stores and copies, however many of them are done, the counter and all
-- message ids that clients have got are at most `n` above the start, and the ids are above the start.
pub count_run-Between :
    (start n : ℕ) (is : List ℕ)
    → start + n < 2 ^ 32
    → let y = count_run (record { msg_id = start; clients = waiting_clients n }) is in
      AllBetween start (start + n) (ids y.clients) × (start ≤ y.msg_id) × (y.msg_id ≤ start + n)
count_run-Between start n is room =
    let y : Counting = record { msg_id = start; clients = waiting_clients n } in
    let (none_stored, within, len) = waiting-Within start n in
    let first : IsCounted start y = record {
      low = omega arith;
      high = omega arith;
      raised = inl none_stored;
      within = rw none_stored within;
      room = omega (arith, room, len);
    } in
    let c = run-IsCounted start is y first in
    let few : stores (count_run y is).clients ≤ n =
      omega (arith, stores-le-length (count_run y is).clients, run-length is y, len) in
    (
      ids-Between start (stores (count_run y is).clients) n (count_run y is).clients few c.within,
      c.low,
      omega (arith, c.high, few),
    )

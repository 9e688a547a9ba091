-- ===== src/System/Desk/Account.antt =====
-- What every run of the abstract desk keeps to, by induction on the relation.
use mathlib.Core.Quot
use native.Mathlib.Nat.{ℕ_set}
use epoll_model.Prelude.{
  ℕ, ◌+◌, ◌≡◌, refl, List, [], ◌∷◌, length, length-append, ◌==◌, if◌then◌else◌, arith,
}
use epoll_model.Prelude.Multisets.{count}
use epoll_model.System.Changes.{once}
use epoll_model.System.Desk.{
  Bag, put, Desk, Output, Step, rests, accepts, answers_one, delivers, forgets, Reach, here, next,
}

-- How often request `j` waits for its answer.
abbrev pub occurrences : ℕ → Bag → ℕ
occurrences j = Quot.lift ℕ_set (count j) (λ xs ys h. h j)

occurrences-put :
    (j x : ℕ) (b : Bag) → occurrences j (put x b) ≡ (if x == j then 1 else 0) + occurrences j b
unfolding put
occurrences-put j x = Quot.ind (λ b. ℕ_set _ _) (λ xs. refl)

-- How often a step, and a run, answers request `j`.
abbrev pub answered_in : {a b : Desk} {out : List Output} → ℕ → Step a b out → ℕ
answered_in j (answers_one i v e r p q) = if i == j then 1 else 0
answered_in j _ = 0

abbrev pub times_answered : {a b : Desk} {os : List Output} → ℕ → Reach a os b → ℕ
times_answered j here = 0
times_answered j (next r s) = times_answered j r + answered_in j s

Step-account :
    {a b : Desk} {out : List Output} (j : ℕ) (s : Step a b out)
    → answered_in j s + occurrences j b.pending + once j (length a.requests)
      ≡ occurrences j a.pending + once j (length b.requests)
Step-account {a} {b} j (rests w q) = rw (w.requests, w.pending) (omega arith)
Step-account {a} {b} j (accepts v r p q) =
    let n = length-append a.requests (v ∷ []) in
    rw (r, p, occurrences-put j (length a.requests) a.pending, n) (ground arith)
Step-account {a} {b} j (answers_one i v e r p q) =
    rw (r, p, occurrences-put j i b.pending) (omega arith)
Step-account {a} {b} j (delivers k bytes w q) = rw (w.requests, w.pending) (omega arith)
Step-account {a} {b} j (forgets k w q z) = rw (w.requests, w.pending) (omega arith)

-- In every run of the desk, each request that was accepted waits once or was answered once, and what
-- waited before was answered or waits.
pub Reach-account :
    {a b : Desk} {os : List Output} (j : ℕ) (r : Reach a os b)
    → times_answered j r + occurrences j b.pending + once j (length a.requests)
      ≡ occurrences j a.pending + once j (length b.requests)
Reach-account j here = omega arith
Reach-account j (next r s) = omega (arith, Reach-account j r, Step-account j s)

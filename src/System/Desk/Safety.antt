-- ===== src/System/Desk/Safety.antt =====
-- Only answers to a client's own requests are delivered to it, by induction on the relation.
use epoll_model.Prelude.{
  ℕ, zero, suc, ◌≡◌, ◌≢◌, refl, sym, ◌∙◌, inl, inr, ◌⊎◌, Bool-cases, some, List, [], ◌∷◌, ◌++◌,
  append-nil, get_elem?, ltb, ◌==◌, ==_refl, arith,
}
use epoll_model.TaskController.Stream.{View}
use epoll_model.TaskController.Processing.Answers.{reply_to, answer_of}
use epoll_model.System.Desk.{
  Desk, SameWork, Output, Step, rests, accepts, answers_one, delivers, forgets, Reach, here, next,
}

-- The bytes answer one of these requests, which client `k` made.
pub record IsAnswer (vs : List View) (k : ℕ) (bytes : List ℕ) : Type 0 where
  pub number : ℕ
  pub request : View
  pub made : get_elem? vs number ≡ some request
  pub answer : answer_of k request ≡ bytes ∷ []

abbrev pub AllAnswers : List View → ℕ → List (List ℕ) → Type 0
AllAnswers vs k [] = Unit {0}
AllAnswers vs k (x ∷ xs) = IsAnswer vs k x × AllAnswers vs k xs

abbrev pub AllOutputs : (ℕ → List ℕ → Type 0) → List Output → Type 0
AllOutputs P [] = Unit {0}
AllOutputs P ((k, bytes) ∷ os) = P k bytes × AllOutputs P os

AllOutputs-append :
    (P : ℕ → List ℕ → Type 0) (os out : List Output)
    → AllOutputs P os
    → AllOutputs P out
    → AllOutputs P (os ++ out)
AllOutputs-append P [] out a b = b
AllOutputs-append P (o ∷ os) out a b = (a.0, AllOutputs-append P os out a.1 b)

pub AllOutputs-map :
    {P Q : ℕ → List ℕ → Type 0} (os : List Output)
    → ((k : ℕ) (bytes : List ℕ) → P k bytes → Q k bytes)
    → AllOutputs P os
    → AllOutputs Q os
AllOutputs-map [] f a = tt
AllOutputs-map ((k, bytes) ∷ os) f a = (f k bytes a.0, AllOutputs-map os f a.1)

get-longer :
    (vs more : List View) (i : ℕ) (v : View)
    → get_elem? vs i ≡ some v
    → get_elem? (vs ++ more) i ≡ some v
get-longer [] more i v e = cc
get-longer (u ∷ vs) more zero v e = e
get-longer (u ∷ vs) more (suc i) v e = get-longer vs more i v e

IsAnswer-later :
    (vs more : List View) (k : ℕ) (bytes : List ℕ)
    → IsAnswer vs k bytes
    → IsAnswer (vs ++ more) k bytes
IsAnswer-later vs more k bytes a = record {
  number = a.number;
  request = a.request;
  made = get-longer vs more a.number a.request a.made;
  answer = a.answer;
}

AllAnswers-later :
    (vs more : List View) (k : ℕ) (xs : List (List ℕ))
    → AllAnswers vs k xs
    → AllAnswers (vs ++ more) k xs
AllAnswers-later vs more k [] a = tt
AllAnswers-later vs more k (x ∷ xs) a =
    (IsAnswer-later vs more k x a.0, AllAnswers-later vs more k xs a.1)

AllAnswers-append :
    (vs : List View) (k : ℕ) (xs ys : List (List ℕ))
    → AllAnswers vs k xs
    → AllAnswers vs k ys
    → AllAnswers vs k (xs ++ ys)
AllAnswers-append vs k [] ys a b = b
AllAnswers-append vs k (x ∷ xs) ys a b = (a.0, AllAnswers-append vs k xs ys a.1 b)

AllAnswers-back :
    (vs : List View) (k : ℕ) (xs ys : List (List ℕ))
    → AllAnswers vs k (xs ++ ys)
    → AllAnswers vs k ys
AllAnswers-back vs k [] ys a = a
AllAnswers-back vs k (x ∷ xs) ys a = AllAnswers-back vs k xs ys a.1

answer_of-cases :
    (k : ℕ) (v : View) → (answer_of k v ≡ []) ⊎ ((x : List ℕ) × (answer_of k v ≡ x ∷ []))
answer_of-cases k v = elim (Bool-cases (ltb v.2 16)) [
  | inl short ↦ inl (rw short refl)
  | inr whole ↦ elim (Bool-cases (ltb 0 v.0)) [
    | inr none_there ↦ inl (rw (whole, none_there) refl)
    | inl there ↦ elim (Bool-cases (v.0 == k)) [
      | inl mine ↦ inr (reply_to v.1, rw (whole, there, mine) refl)
      | inr other ↦ inl (rw (whole, there, other) refl)
    ]
  ]
]

AllAnswers-answer_of :
    (vs : List View) (k j : ℕ) (v : View)
    → get_elem? vs j ≡ some v
    → AllAnswers vs k (answer_of k v)
AllAnswers-answer_of vs k j v e = elim (answer_of-cases k v) [
  | inl nothing ↦ rw nothing tt
  | inr (x, one) ↦ rw one (record { number = j; request = v; made = e; answer = one }, tt)
]

-- Each box holds answers to requests of its client.
abbrev pub IsFilled : Desk → Type 0
IsFilled a = (k : ℕ) → AllAnswers a.requests k (a.boxes k)

-- What a step makes of filled boxes, and what it delivers of them.
record StaysFilled (a b : Desk) (out : List Output) : Type 0 where
  filled : IsFilled b
  own : AllOutputs (IsAnswer b.requests) out
  more : List View
  grows : b.requests ≡ a.requests ++ more

same_work :
    (a b : Desk) (out : List Output)
    → SameWork a b
    → IsFilled b
    → AllOutputs (IsAnswer a.requests) out
    → StaysFilled a b out
same_work a b out w f o = record {
  filled = f;
  own = rw w.requests o;
  more = [];
  grows = w.requests ∙ sym (append-nil a.requests);
}

Step-IsFilled : {a b : Desk} {out : List Output} → Step a b out → IsFilled a → StaysFilled a b out
Step-IsFilled {a} {b} (rests w q) f = same_work a b [] w (λ k. rw (w.requests, q k) (f k)) tt
Step-IsFilled {a} {b} (accepts v r p q) f = record {
  filled = λ k. rw (r, q k) (AllAnswers-later a.requests (v ∷ []) k (a.boxes k) (f k));
  own = tt;
  more = v ∷ [];
  grows = r;
}
Step-IsFilled {a} {b} (answers_one j v e r p q) f = record {
  filled = λ k.
      rw (r, q k)
        (AllAnswers-append a.requests k (a.boxes k) (answer_of k v) (f k)
          (AllAnswers-answer_of a.requests k j v e));
  own = tt;
  more = [];
  grows = r ∙ sym (append-nil a.requests);
}
Step-IsFilled {a} {b} (delivers k bytes w q) f =
    same_work a b ((k, bytes) ∷ []) w
      (λ j. rw w.requests (AllAnswers-back a.requests j _ (b.boxes j) (rw (q j) at (f j))))
      ((rw (q k, ==_refl k) at (f k)).0, tt)
Step-IsFilled {a} {b} (forgets k w q z) f =
    same_work a b [] w
      (λ j. elim (Bool-cases (k == j)) [
        | inl mine ↦ let same : k ≡ j = ground arith in rw (← same, z) tt
        | inr other ↦ let ne : k ≢ j = ground arith in rw (w.requests, q j ne) (f j)
      ])
      tt

pub record RunFilled (a b : Desk) (os : List Output) : Type 0 where
  pub filled : IsFilled b
  pub own : AllOutputs (IsAnswer b.requests) os

-- In every run of the desk from filled boxes, what is delivered to a client answers one of its requests.
pub Reach-IsFilled : {a b : Desk} {os : List Output} → Reach a os b → IsFilled a → RunFilled a b os
Reach-IsFilled here f = record { filled = f; own = tt }
Reach-IsFilled {a} (next {os} {out} {b} {c} r s) f =
    let before = Reach-IsFilled r f in
    let after = Step-IsFilled s before.filled in
    record {
      filled = after.filled;
      own =
          AllOutputs-append (IsAnswer c.requests) os out
            (rw after.grows (AllOutputs-map os (IsAnswer-later b.requests after.more) before.own))
            after.own;
    }

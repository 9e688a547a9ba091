-- ===== src/System/Desk.antt =====
-- What the server promises, without its queues, threads and buffers: it accepts requests, owes each an
-- answer, in no order, and puts the answers into a box for each client, from which they are delivered.
pub mod Account
pub mod Safety
use mathlib.Core.Quot
use mathlib.Core.Quot.{Quot, Quot-set}
use epoll_model.Prelude.{
  ℕ, ◌+◌, ◌≤◌, ◌≡◌, ◌≢◌, refl, sym, ap, ◌∙◌, some, List, [], ◌∷◌, ◌++◌, append-nil, append_assoc,
  length, get_elem?, ◌==◌, if◌then◌else◌, arith,
}
use epoll_model.Prelude.Multisets.{count}
use epoll_model.TaskController.Stream.{View}
use epoll_model.TaskController.Processing.Answers.{answer_of}

-- Numbers of requests, as a multiset: two lists with the same members, as often, are one.
abbrev pub SameItems : List ℕ → List ℕ → Type 0
SameItems xs ys = (j : ℕ) → count j xs ≡ count j ys

abbrev pub Bag : Type 0
Bag = Quot SameItems

-- One more number.
abbrev pub with_one : ℕ → List ℕ → Bag
with_one x xs = Quot.mk (x ∷ xs)

pub with_one-respects : (x : ℕ) (xs ys : List ℕ) → SameItems xs ys → with_one x xs ≡ with_one x ys
with_one-respects x xs ys h = Quot.sound (λ j. omega (arith, h j))

unfoldable pub put : ℕ → Bag → Bag
put x = Quot.lift Quot-set (with_one x) (with_one-respects x)

-- The requests that were accepted, the numbers of those that wait for an answer, and the boxes.
pub record Desk : Type 0 where
  pub requests : List View
  pub pending : Bag
  pub boxes : ℕ → List (List ℕ)

-- What does not change where only the boxes do.
pub record SameWork (a b : Desk) : Type 0 where
  pub requests : b.requests ≡ a.requests
  pub pending : b.pending ≡ a.pending

abbrev pub SameBoxes : Desk → Desk → Type 0
SameBoxes a b = (k : ℕ) → b.boxes k ≡ a.boxes k

-- What is delivered: to whom, and which bytes.
abbrev pub Output : Type 0
Output = ℕ × List ℕ

-- The steps, each with what it delivers: nothing that shows; a request comes in; any of those that wait
-- is answered; the front of a box is delivered; a client has hung up, and its box is emptied.
pub data Step (a b : Desk) : List Output → Type 0 where
  rests : SameWork a b → SameBoxes a b → Step a b []
  accepts :
      (v : View)
      → b.requests ≡ a.requests ++ v ∷ []
      → b.pending ≡ put (length a.requests) a.pending
      → SameBoxes a b
      → Step a b []
  answers_one :
      (j : ℕ) (v : View)
      → get_elem? a.requests j ≡ some v
      → b.requests ≡ a.requests
      → a.pending ≡ put j b.pending
      → ((k : ℕ) → b.boxes k ≡ a.boxes k ++ answer_of k v)
      → Step a b []
  delivers :
      (k : ℕ) (bytes : List ℕ)
      → SameWork a b
      → ((j : ℕ) → a.boxes j ≡ (if k == j then bytes ∷ [] else []) ++ b.boxes j)
      → Step a b ((k, bytes) ∷ [])
  forgets :
      (k : ℕ)
      → SameWork a b
      → ((j : ℕ) → k ≢ j → b.boxes j ≡ a.boxes j)
      → b.boxes k ≡ []
      → Step a b []

pub data Reach (a : Desk) : List Output → Desk → Type 0 where
  here : Reach a [] a
  next : {os out : List Output} {b c : Desk} → Reach a os b → Step b c out → Reach a (os ++ out) c

pub one-Step : {a b : Desk} {out : List Output} → Step a b out → Reach a out b
one-Step s = next here s

pub Reach-trans :
    {a b c : Desk} {os out : List Output} → Reach a os b → Reach b out c → Reach a (os ++ out) c
Reach-trans {os} r here = rw append-nil r
Reach-trans {os} r (next {os = os'} {out} q s) =
    rw (← append_assoc os os' out) (next (Reach-trans r q) s)

-- ===== src/System/Batches.antt =====
-- Runs of the desk of many steps: requests that are accepted, or answered, one after the other.
use mathlib.Core.Quot
use epoll_model.Prelude.{
  ℕ, zero, suc, ◌+◌, ◌≤◌, ◌<◌, ◌≡◌, refl, sym, ap, ◌∙◌, some, List, [], ◌∷◌, ◌++◌, append-nil,
  append_assoc, length, length-append, get_elem?, arith,
}
use epoll_model.Prelude.Multisets.{count}
use epoll_model.TaskController.Stream.{View}
use epoll_model.ThreadPool
use epoll_model.ThreadPool.{pops, processes, turn}
use epoll_model.ThreadPool.Given.{EventsGiven}
use epoll_model.ThreadPool.Numbers.{done}
use epoll_model.System.Process.{answer_at, answers}
use epoll_model.System.Desk.{
  put, Desk, SameBoxes, Step, rests, accepts, answers_one, Reach, one-Step, Reach-trans,
}
use epoll_model.System.Refinement.{between}

get-below : {A : Type 0} (xs : List A) (i : ℕ) → i < length xs → (a : A) × (get_elem? xs i ≡ some a)
get-below [] i h = absurd (omega arith)
get-below (x ∷ xs) zero h = (x, refl)
get-below (x ∷ xs) (suc i) h = get-below xs i (omega arith)

-- What the pool processes is answered, one request after the other.
pub answers_Reach :
    (es : List ThreadPool.Event) (n : ℕ) (a b : Desk) (ns : List ℕ)
    → EventsGiven n es
    → n ≤ length a.requests
    → b.requests ≡ a.requests
    → a.pending ≡ Quot.mk (done es ++ ns)
    → b.pending ≡ Quot.mk ns
    → ((k : ℕ) → b.boxes k ≡ a.boxes k ++ answers k a.requests es)
    → Reach a [] b
unfolding put
answers_Reach [] n a b ns g h same pa pb q =
    one-Step (
      rests (record { requests = same; pending = pb ∙ sym pa }) (λ k. q k ∙ append-nil (a.boxes k)))
answers_Reach (pops task ∷ es) n a b ns g h same pa pb q =
    answers_Reach es n a b ns g h same pa pb q
answers_Reach (processes task ∷ es) n a b ns g h same pa pb q =
    let known = g.0.known in
    let (v, e) = get-below a.requests task.param (omega arith) in
    let c : Desk = record {
      requests = a.requests;
      pending = Quot.mk (done es ++ ns);
      boxes = λ k. a.boxes k ++ answer_at k (get_elem? a.requests task.param);
    } in
    let first : Step a c [] = answers_one task.param v e refl pa (λ k. rw e refl) in
    Reach-trans (one-Step first) (
      answers_Reach es n c b ns g.1 h same refl pb (λ k.
        q k
        ∙ sym (
            append_assoc (a.boxes k) (answer_at k (get_elem? a.requests task.param))
              (answers k a.requests es))))

-- Requests that come in are accepted, one after the other.
pub accepts_Reach :
    (more : List View) (a b : Desk) (ns ms : List ℕ)
    → b.requests ≡ a.requests ++ more
    → a.pending ≡ Quot.mk ns
    → b.pending ≡ Quot.mk ms
    → ((j : ℕ) → count j ms ≡ count j ns + between j (length a.requests) (length more))
    → SameBoxes a b
    → Reach a [] b
unfolding put
accepts_Reach [] a b ns ms grown pa pb c same =
    let none_more : (j : ℕ) → count j ms ≡ count j ns = λ j. ground (arith, c j) in
    one-Step (
      rests
        (record {
          requests = grown ∙ append-nil a.requests;
          pending = pb ∙ Quot.sound none_more ∙ sym pa;
        })
        same)
accepts_Reach (v ∷ more) a b ns ms grown pa pb c same =
    let first = length a.requests in
    let d : Desk = record {
      requests = a.requests ++ v ∷ [];
      pending = Quot.mk (first ∷ ns);
      boxes = a.boxes;
    } in
    let one : Step a d [] = accepts v refl (ap (put first) (sym pa)) (λ k. refl) in
    let n : length (a.requests ++ v ∷ []) ≡ first + 1 = length-append a.requests (v ∷ []) in
    Reach-trans (one-Step one) (
      accepts_Reach more d b (first ∷ ns) ms (grown ∙ sym (append_assoc a.requests (v ∷ []) more))
        refl pb (λ j. rw n (ground (arith, c j))) same)

-- ===== src/Tests/Pieces.antt =====
-- A frame that comes in in pieces of a whole buffer.
use epoll_model.Prelude.{
  ℕ, zero, suc, ◌+◌, ◌*◌, ◌≤◌, ◌≡◌, refl, ap, ◌∙◌, inl, inr, Bool-cases, some, List, [], ◌∷◌, ◌++◌,
  map, length, take, drop, length-append, length-take, length-drop, take-append-drop, le→leb,
  lt→leb_false, ◌==◌, if◌then◌else◌, arith,
}
use native.Mathlib.Decide.{dec_le}
use epoll_model.Socket.Receiving.{Fits, arrived}
use epoll_model.TaskController.Stream.{offset, concat}
use epoll_model.TaskController.Delivery.{IsSafe}
use epoll_model.TaskController.Interleaving.{chunks_of}
use epoll_model.System.{Move, receives}
use epoll_model.System.Changes.{KeepsAll}
use epoll_model.System.Serving.{incoming, from_client}
use epoll_model.Tests.Serving.{start, ready}

-- `n` pieces of a buffer's length.
abbrev pub pieces : ℕ → List ℕ → List (List ℕ)
pieces zero xs = []
pieces (suc n) xs = take 32768 xs ∷ pieces n (drop 32768 xs)

abbrev pub AllPieces : List (List ℕ) → Type 0
AllPieces [] = Unit {0}
AllPieces (c ∷ cs) = (4 ≤ length c) × (length c ≤ 32768) × AllPieces cs

pub concat-pieces : (n : ℕ) (xs : List ℕ) → length xs ≤ 32768 * n → concat (pieces n xs) ≡ xs
concat-pieces zero [] h = refl
concat-pieces zero (x ∷ xs) h = absurd (omega arith)
concat-pieces (suc n) xs h =
    ap (◌++◌ (take 32768 xs))
      (concat-pieces n (drop 32768 xs) (omega (arith, length-drop 32768 xs)))
    ∙ take-append-drop 32768 xs

take_short : (n : ℕ) (xs : List ℕ) → length xs ≤ n → take n xs ≡ xs
take_short zero [] h = refl
take_short zero (x ∷ xs) h = absurd (omega arith)
take_short (suc n) [] h = refl
take_short (suc n) (x ∷ xs) h = ap (◌∷◌ x) (take_short n xs (omega arith))

pub pieces-AllPieces :
    (n : ℕ) (xs : List ℕ)
    → length xs ≤ 32768 * n
    → 32768 * n + 4 ≤ length xs + 32768
    → AllPieces (pieces n xs)
pieces-AllPieces zero xs h k = tt
pieces-AllPieces (suc n) xs h k = elim (dec_le 32768 (length xs)) [
  | yes long ↦
      let len = length-take 32768 xs long in
      (
        omega (arith, len),
        omega (arith, len),
        pieces-AllPieces n (drop 32768 xs) (omega (arith, length-drop 32768 xs))
            (omega (arith, length-drop 32768 xs)),
      )
  | no short ↦
      let last : n ≡ 0 = omega arith in
      let all = take_short 32768 xs (omega arith) in rw (all, last) (omega arith, omega arith, tt)
]

-- Each piece comes in for client 3.
abbrev pub arrivals : List (List ℕ) → List Move
arrivals cs = map (λ (c : List ℕ). receives ready (some c)) cs

pub arrivals-Fits : (cs : List (List ℕ)) → AllPieces cs → Fits (incoming (arrivals cs))
arrivals-Fits [] a = tt
arrivals-Fits (c ∷ cs) a = (omega (arith, a.1), arrivals-Fits cs a.2)

pub arrivals-KeepsAll : (cs : List (List ℕ)) → KeepsAll 3 (arrivals cs)
arrivals-KeepsAll [] = tt
arrivals-KeepsAll (c ∷ cs) = (tt, arrivals-KeepsAll cs)

pub from-arrivals :
    (k : ℕ) (cs : List (List ℕ))
    → AllPieces cs
    → from_client k start (arrivals cs) ≡ (if 3 == k then cs else [])
unfolding chunks_of arrived
from-arrivals k [] a = ground arith
from-arrivals k ([] ∷ cs) a = absurd (omega (arith, a.0))
from-arrivals k ((b ∷ bs) ∷ cs) a =
    let rest = from-arrivals k cs a.2 in
    elim (Bool-cases (3 == k)) [
      | inl mine ↦ rw mine (ap (◌∷◌ (b ∷ bs)) (rw mine at rest))
      | inr other ↦ rw other (rw other at rest)
    ]

pub pieces-IsSafe :
    (f : List ℕ) (m : ℕ) (cs : List (List ℕ))
    → AllPieces cs
    → m + length (concat cs) ≡ length f
    → IsSafe (f ∷ []) m cs
unfolding offset
pieces-IsSafe f m [] a e = tt
pieces-IsSafe f m (c ∷ cs) a e =
    let n = length-append c (concat cs) in
    (
      omega (arith, a.0),
      omega (arith, a.1),
      elim (dec_le (length f) (m + length c)) [
        | yes whole ↦ inl (rw (le→leb (length f) (m + length c) whole) (omega (arith, n)))
        | no part ↦
            inr (rw (lt→leb_false (length f) (m + length c) (omega arith)) (omega (arith, a.0)))
      ],
      pieces-IsSafe f (m + length c) cs a.2 (omega (arith, n)),
    )

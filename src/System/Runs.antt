-- ===== src/System/Runs.antt =====
-- Runs of the server, one behind the other.
use epoll_model.Prelude.{
  ◌≡◌, refl, ap, List, [], ◌∷◌, ◌++◌, append_assoc, ok, ℕ, ok_injective, first_ok,
}
use mathlib.Core.Path.{subst}
use epoll_model.Socket.{Call}
use epoll_model.ThreadPool
use epoll_model.System.{
  System, Move, After, receives, hands_over, works, sends_for, listens_for, move, run,
}
use epoll_model.System.Changes.{KeepsAll}
use epoll_model.System.Serving.{incoming}

pub incoming-append : (ms ns : List Move) → incoming (ms ++ ns) ≡ incoming ms ++ incoming ns
incoming-append [] ns = refl
incoming-append (receives e r ∷ ms) ns = ap (◌∷◌ (e, r)) (incoming-append ms ns)
incoming-append (hands_over prompt ∷ ms) ns = incoming-append ms ns
incoming-append (works i ∷ ms) ns = incoming-append ms ns
incoming-append (sends_for e ∷ ms) ns = incoming-append ms ns
incoming-append (listens_for e a ∷ ms) ns = incoming-append ms ns

pub KeepsAll-append :
    (k : ℕ) (ms ns : List Move) → KeepsAll k ms → KeepsAll k ns → KeepsAll k (ms ++ ns)
KeepsAll-append k [] ns a b = b
KeepsAll-append k (m ∷ ms) ns a b = (a.0, KeepsAll-append k ms ns a.1 b)

pub run-append :
    (ms ns : List Move) (y y1 y2 : System) (c1 c2 : List Call) (e1 e2 : List ThreadPool.Event)
    → run y ms ≡ ok (y1, c1, e1)
    → run y1 ns ≡ ok (y2, c2, e2)
    → run y (ms ++ ns) ≡ ok (y2, c1 ++ c2, e1 ++ e2)
unfolding run
run-append [] ns y y1 y2 c1 c2 e1 e2 a b =
    subst (λ (r : After). run r.0 ns ≡ ok (y2, c2, e2) → run y ns ≡ ok (y2, r.1 ++ c2, r.2 ++ e2))
      (ok_injective (y, [], []) (y1, c1, e1) a) (λ b'. b') b
run-append (m ∷ ms) ns y y1 y2 c1 c2 e1 e2 a b =
    let ((y', c, e), first, more) = first_ok (move y m) _ _ a in
    let ((y'', c', e'), rest, last) = first_ok (run y' ms) _ _ more in
    subst
      (λ (r : After).
        run r.0 ns ≡ ok (y2, c2, e2) → run y (m ∷ (ms ++ ns)) ≡ ok (y2, r.1 ++ c2, r.2 ++ e2))
      (ok_injective (y'', c ++ c', e ++ e') (y1, c1, e1) last)
      (λ b'.
        rw (first, run-append ms ns y' y'' y2 c' c2 e' e2 rest b')
          (rw (append_assoc c c' c2, append_assoc e e' e2) refl))
      b

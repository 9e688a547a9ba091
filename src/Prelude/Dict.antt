-- ===== src/Prelude/Dict.antt =====
-- A `std::unordered_map` with descriptors for keys, as an association list.
use Prim.Native.Nat.{ℕ}
use mathlib.Core.Path.{◌≡◌}
use mathlib.Core.List.{List, [], ◌∷◌}
use mathlib.Core.Option.{Option, none, some}
use native.Mathlib.Omega.{arith}
use epoll_model.Prelude.Tests.{◌==◌, if◌then◌else◌}

module _ {ℓ} {V : Type ℓ} where
  unfoldable pub lookup : ℕ → List (ℕ × V) → Option V
  lookup fd [] = none
  lookup fd ((key, found) ∷ rest) = if key == fd then some found else lookup fd rest

  unfoldable pub erase : ℕ → List (ℕ × V) → List (ℕ × V)
  erase fd [] = []
  erase fd ((key, found) ∷ rest) =
      let rest' = erase fd rest in if key == fd then rest' else (key, found) ∷ rest'

  -- `m[k] = v`, and `insert` where the key is missing. The order of the keys is unspecified.
  unfoldable pub insert : ℕ → V → List (ℕ × V) → List (ℕ × V)
  insert fd given entries = (fd, given) ∷ erase fd entries

  pub lookup-erase :
      (fd asked : ℕ) (entries : List (ℕ × V))
      → lookup asked (erase fd entries) ≡ (if fd == asked then none else lookup asked entries)
  unfolding lookup erase
  lookup-erase fd asked [] = ground arith
  lookup-erase fd asked ((key, found) ∷ rest) = ground (arith, lookup-erase fd asked rest)

  pub lookup-insert :
      (fd asked : ℕ) (given : V) (entries : List (ℕ × V))
      → lookup asked (insert fd given entries)
        ≡ (if fd == asked then some given else lookup asked entries)
  unfolding lookup insert
  lookup-insert fd asked given entries = ground (arith, lookup-erase fd asked entries)

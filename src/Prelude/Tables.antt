-- ===== src/Prelude/Tables.antt =====
-- Facts about all numbers below a bound, by evaluation.
use Prim.Native.Nat.{ℕ, zero, suc, ◌<◌}
use mathlib.Core.Path.{◌≡◌}
use mathlib.Core.Bool.{Bool, true, ◌&&◌}
use native.Mathlib.Omega.{arith}
use epoll_model.Prelude.Tests.{◌==◌}

module _ (f g : ℕ → ℕ) where
  unfoldable pub equal_below : ℕ → Bool
  equal_below zero = true
  equal_below (suc n) = (f n == g n) && equal_below n

  pub equal_below_sound : (n : ℕ) → equal_below n ≡ true → (i : ℕ) → i < n → f i ≡ g i
  unfolding equal_below
  equal_below_sound zero e i h = absurd (omega arith)
  equal_below_sound (suc n) e i h = ground (arith, equal_below_sound n (ground arith) i)

-- ===== src/Prelude/Faults.antt =====
-- The outcome of code that may leave the bounds of an object, or loop.
use mathlib.Core.Path.{◌≡◌, refl}

-- `fault` is an access outside the bounds of an object, which C++ leaves undefined; `stuck` is a
-- loop or a recursion that has used up the fuel it was given.
pub data Outcome {ℓ} (A : Type ℓ) : Type ℓ where
  ok : A → Outcome A
  fault : Outcome A
  stuck : Outcome A

infixl 5 ◌>>=◌
abbrev pub ◌>>=◌ {ℓ κ} : {A : Type ℓ} {B : Type κ} → Outcome A → (A → Outcome B) → Outcome B
ok a >>= f = f a
fault >>= f = fault
stuck >>= f = stuck

pub ok_injective : {A : Type 0} (a b : A) → ok a ≡ ok b → a ≡ b
ok_injective a b e = cc

-- The first of two steps has returned, if both have.
pub first_ok :
    {A B : Type 0} (o : Outcome A) (f : A → Outcome B) (b : B)
    → (o >>= f) ≡ ok b
    → (a : A) × (o ≡ ok a) × (f a ≡ ok b)
first_ok (ok a) f b e = (a, refl, e)
first_ok fault f b e = absurd (cc e)
first_ok stuck f b e = absurd (cc e)

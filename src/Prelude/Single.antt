-- ===== src/Prelude/Single.antt =====
-- A list that has the members of a list of one is that list.
use mathlib.Core.Path.{◌≡◌, refl}
use mathlib.Core.Logic.{∥∥₁_elim}
use mathlib.Core.List.{List, [], ◌∷◌, Perm, Permᴰ, is_set}
use mathlib.Core.List.Permᴰ.{nil, cons, swap, trans}

module _ {A : Type 0} where
  few_only :
      {xs ys : List A} → Permᴰ xs ys → (ys ≡ [] → xs ≡ []) × ((x : A) → ys ≡ x ∷ [] → xs ≡ x ∷ [])
  few_only nil = (λ e. e, λ x e. e)
  few_only (cons {a} {b} {l₁} {l₂} same p) =
      let (none_left, _) = few_only p in
      (
        λ e. absurd (cc e),
        λ x e.
            let tail : l₂ ≡ [] = cc e in
            let head : b ≡ x = cc e in rw (same, head, none_left tail) refl,
      )
  few_only (swap p q) = (λ e. absurd (cc e), λ x e. absurd (cc e))
  few_only (trans p q) =
      let (a, b) = few_only p in let (c, d) = few_only q in (λ e. a (c e), λ x e. b x (d x e))

  pub Perm-single : {xs : List A} (x : A) → IsSet A → Perm xs (x ∷ []) → xs ≡ x ∷ []
  Perm-single x set p = ∥∥₁_elim p (is_set set _ _) (λ d. (few_only d).1 x refl)

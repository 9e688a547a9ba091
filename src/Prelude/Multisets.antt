-- ===== src/Prelude/Multisets.antt =====
-- Lists of numbers as multisets, and what comes of each of their members.
use mathlib.Core.List.{Perm, perm_middle, append_assoc}
use mathlib.Core.List.Perm
use Prim.Native.Nat.{ℕ, ◌+◌, ◌<◌}
use mathlib.Core.Path.{◌≡◌, refl, sym, ap}
use mathlib.Core.Logic.{inl, inr, ◌≢◌}
use mathlib.Core.List.{List, [], ◌∷◌, ◌++◌}
use native.Mathlib.Omega.{arith}
use epoll_model.Prelude.Tests.{◌==◌, ==_refl, Bool-cases, if◌then◌else◌}

abbrev pub count : ℕ → List ℕ → ℕ
count j [] = 0
count j (x ∷ xs) = (if x == j then 1 else 0) + count j xs

pub count-append : (j : ℕ) (xs ys : List ℕ) → count j (xs ++ ys) ≡ count j xs + count j ys
count-append j [] ys = omega arith
count-append j (x ∷ xs) ys = omega (arith, count-append j xs ys)

-- Where a member stands.
split_count :
    (x : ℕ) (ys : List ℕ) → 0 < count x ys → (us : List ℕ) × (vs : List ℕ) × (ys ≡ us ++ x ∷ vs)
split_count x [] h = absurd (omega arith)
split_count x (y ∷ ys) h = elim (Bool-cases (y == x)) [
  | inl same ↦ let e : y ≡ x = ground arith in ([], ys, rw e refl)
  | inr other ↦ let (us, vs, e) = split_count x ys (ground arith) in (y ∷ us, vs, ap (◌∷◌ y) e)
]

no_more : (y : ℕ) (ys : List ℕ) → 0 ≢ count y (y ∷ ys)
no_more y ys e = let q = ==_refl y in ground arith

module _ {A : Type 0} where
  abbrev pub flat : (ℕ → List A) → List ℕ → List A
  flat f [] = []
  flat f (x ∷ xs) = f x ++ flat f xs

  flat-append : (f : ℕ → List A) (xs ys : List ℕ) → flat f (xs ++ ys) ≡ flat f xs ++ flat f ys
  flat-append f [] ys = refl
  flat-append f (x ∷ xs) ys = rw (flat-append f xs ys) (sym (append_assoc (f x) _ _))

  shuffle : (ws us vs : List A) → Perm (ws ++ (us ++ vs)) (us ++ (ws ++ vs))
  shuffle [] us vs = Perm.refl (us ++ vs)
  shuffle (w ∷ ws) us vs =
      Perm.trans (Perm.cons w (shuffle ws us vs)) (Perm.symm (perm_middle us (ws ++ vs)))

  -- The same members, as often, in another order: what comes of them is the same in another order.
  pub flat-Perm :
      (f : ℕ → List A) (xs ys : List ℕ)
      → ((j : ℕ) → count j xs ≡ count j ys)
      → Perm (flat f xs) (flat f ys)
  flat-Perm f [] [] h = Perm.nil
  flat-Perm f [] (y ∷ ys) h = absurd (no_more y ys (h y))
  flat-Perm f (x ∷ xs) ys h =
      let there : 0 < count x ys = let q = ==_refl x in ground (arith, h x) in
      let (us, vs, e) = split_count x ys there in
      let fewer : (j : ℕ) → count j xs ≡ count j (us ++ vs) =
        λ j. omega (arith, h j, ap (count j) e, count-append j us (x ∷ vs), count-append j us vs) in
      rw (e, flat-append f us (x ∷ vs))
        (Perm.trans (Perm.append_left (f x) (rw flat-append at (flat-Perm f xs (us ++ vs) fewer)))
          (shuffle (f x) (flat f us) (flat f vs)))

-- ===== src/ThreadPool/Totals.antt =====
-- Sums over the threads of the pool.
use epoll_model.Prelude.{ℕ, zero, suc, ◌+◌, ◌≤◌, ◌≡◌, List, [], ◌∷◌, ◌++◌, get_elem?, some, arith}
use epoll_model.ThreadPool.{WgThread, replace}

unfoldable pub total : (WgThread → ℕ) → List WgThread → ℕ
total w [] = 0
total w (t ∷ ts) = w t + total w ts

module _ (w : WgThread → ℕ) where
  pub total-replace :
      (i : ℕ) (ts : List WgThread) (t t' : WgThread)
      → get_elem? ts i ≡ some t
      → total w (replace i t' ts) + w t ≡ total w ts + w t'
  unfolding total replace
  total-replace i [] t t' e = cc
  total-replace zero (x ∷ ts) t t' e = let q : x ≡ t = cc in rw q (omega arith)
  total-replace (suc i) (x ∷ ts) t t' e = omega (arith, total-replace i ts t t' e)

  pub le-total :
      (i : ℕ) (ts : List WgThread) (t : WgThread) → get_elem? ts i ≡ some t → w t ≤ total w ts
  unfolding total
  le-total i [] t e = cc
  le-total zero (x ∷ ts) t e = let q : x ≡ t = cc in rw q (omega arith)
  le-total (suc i) (x ∷ ts) t e = omega (arith, le-total i ts t e)

  pub total-snoc : (ts : List WgThread) (t : WgThread) → total w (ts ++ t ∷ []) ≡ total w ts + w t
  unfolding total
  total-snoc [] t = omega arith
  total-snoc (x ∷ ts) t = omega (arith, total-snoc ts t)

abbrev pub AllThreads : (WgThread → Type 0) → List WgThread → Type 0
AllThreads P [] = Unit {0}
AllThreads P (t ∷ ts) = P t × AllThreads P ts

module _ (P : WgThread → Type 0) where
  pub AllThreads-replace :
      (i : ℕ) (ts : List WgThread) (t' : WgThread)
      → AllThreads P ts
      → P t'
      → AllThreads P (replace i t' ts)
  unfolding replace
  AllThreads-replace i [] t' a p = tt
  AllThreads-replace zero (x ∷ ts) t' a p = (p, a.1)
  AllThreads-replace (suc i) (x ∷ ts) t' a p = (a.0, AllThreads-replace i ts t' a.1 p)

  pub AllThreads-get :
      (i : ℕ) (ts : List WgThread) {t : WgThread} → AllThreads P ts → get_elem? ts i ≡ some t → P t
  AllThreads-get i [] a e = cc
  AllThreads-get zero (x ∷ ts) {t} a e = let q : x ≡ t = cc in rw q at a.0
  AllThreads-get (suc i) (x ∷ ts) a e = AllThreads-get i ts a.1 e

  pub AllThreads-snoc :
      (ts : List WgThread) (t : WgThread) → AllThreads P ts → P t → AllThreads P (ts ++ t ∷ [])
  AllThreads-snoc [] t a p = (p, tt)
  AllThreads-snoc (x ∷ ts) t a p = (a.0, AllThreads-snoc ts t a.1 p)

-- ===== src/Client/Counting/Within.antt =====
-- What clients that count can know of the counter.
use epoll_model.Prelude.{
  ℕ, zero, suc, ◌+◌, ◌≤◌, ◌<◌, ◌≡◌, ◌≢◌, refl, ap, some, List, [], ◌∷◌, length, get_elem?, arith,
}
use epoll_model.Client.Counting.{Stage, begins, loaded, stored, copied, set_stage}

-- The clients that have stored.
abbrev pub has_stored : Stage → ℕ
has_stored stored = 1
has_stored (copied id) = 1
has_stored _ = 0

abbrev pub stores : List Stage → ℕ
stores [] = 0
stores (t ∷ ts) = has_stored t + stores ts

-- What a client knows lies between the start and what `k` stores can have made of it.
abbrev pub Within : (start k : ℕ) → Stage → Type 0
Within start k begins = Unit {0}
Within start k (loaded value) = (start ≤ value) × (value ≤ start + k)
Within start k stored = Unit {0}
Within start k (copied id) = (start < id) × (id ≤ start + k)

abbrev pub AllWithin : (start k : ℕ) → List Stage → Type 0
AllWithin start k [] = Unit {0}
AllWithin start k (t ∷ ts) = Within start k t × AllWithin start k ts

pub Within-mono : (start k m : ℕ) (t : Stage) → k ≤ m → Within start k t → Within start m t
Within-mono start k m begins h w = tt
Within-mono start k m (loaded value) h w = (w.0, omega (arith, w.1))
Within-mono start k m stored h w = tt
Within-mono start k m (copied id) h w = (w.0, omega (arith, w.1))

pub AllWithin-mono :
    (start k m : ℕ) (ts : List Stage) → k ≤ m → AllWithin start k ts → AllWithin start m ts
AllWithin-mono start k m [] h a = tt
AllWithin-mono start k m (t ∷ ts) h a =
    (Within-mono start k m t h a.0, AllWithin-mono start k m ts h a.1)

pub AllWithin-set :
    (start k i : ℕ) (t : Stage) (ts : List Stage)
    → AllWithin start k ts
    → Within start k t
    → AllWithin start k (set_stage i t ts)
unfolding set_stage
AllWithin-set start k i t [] a w = tt
AllWithin-set start k zero t (x ∷ xs) a w = (w, a.1)
AllWithin-set start k (suc i) t (x ∷ xs) a w = (a.0, AllWithin-set start k i t xs a.1 w)

pub AllWithin-get :
    (start k i : ℕ) (ts : List Stage) (t : Stage)
    → AllWithin start k ts
    → get_elem? ts i ≡ some t
    → Within start k t
AllWithin-get start k i [] t a e = cc
AllWithin-get start k zero (x ∷ xs) t a e = let q : x ≡ t = cc in rw q at a.0
AllWithin-get start k (suc i) (x ∷ xs) t a e = AllWithin-get start k i xs t a.1 e

pub stores-set :
    (i : ℕ) (t u : Stage) (ts : List Stage)
    → get_elem? ts i ≡ some u
    → (stores (set_stage i t ts) + has_stored u ≡ stores ts + has_stored t)
      × (length (set_stage i t ts) ≡ length ts)
      × (has_stored u ≤ stores ts)
unfolding set_stage
stores-set i t u [] e = cc
stores-set zero t u (x ∷ xs) e = let q : x ≡ u = cc in rw q (omega arith)
stores-set (suc i) t u (x ∷ xs) e =
    let (a, b, c) = stores-set i t u xs e in (omega (arith, a), omega (arith, b), omega (arith, c))

pub stores-le-length : (ts : List Stage) → stores ts ≤ length ts
stores-le-length [] = omega arith
stores-le-length (begins ∷ ts) = omega (arith, stores-le-length ts)
stores-le-length (loaded value ∷ ts) = omega (arith, stores-le-length ts)
stores-le-length (stored ∷ ts) = omega (arith, stores-le-length ts)
stores-le-length (copied id ∷ ts) = omega (arith, stores-le-length ts)

pub get-set_stage :
    (i j : ℕ) (t u : Stage) (ts : List Stage)
    → get_elem? ts i ≡ some u
    → (get_elem? (set_stage i t ts) i ≡ some t)
      × (i ≢ j → get_elem? (set_stage i t ts) j ≡ get_elem? ts j)
unfolding set_stage
get-set_stage i j t u [] e = cc
get-set_stage zero zero t u (x ∷ xs) e = (refl, λ ne. absurd (ne refl))
get-set_stage zero (suc j) t u (x ∷ xs) e = (refl, λ ne. refl)
get-set_stage (suc i) zero t u (x ∷ xs) e = ((get-set_stage i zero t u xs e).0, λ ne. refl)
get-set_stage (suc i) (suc j) t u (x ∷ xs) e =
    let (here, there) = get-set_stage i j t u xs e in (here, λ ne. there (λ q. ne (ap suc q)))

-- ===== src/Protocol/Header.antt =====
-- The four words with which every message begins, written one behind the other.
use epoll_model.Prelude.{
  ℕ, ◌+◌, ◌<◌, ◌^◌, ◌≡◌, refl, false, ◌==◌, List, [], ◌++◌, length, Outcome, ◌>>=◌, arith,
  length-append,
}
use epoll_model.Memory.{u32, write_at}
use epoll_model.Protocol.{ApiCommand, api1, api2, command_code}
use epoll_model.Memory.Copies.{write_at-fill}

pub positive-ne : (n : ℕ) → 0 < n → (n == 0) ≡ false
positive-ne n h = ground arith

pub u32-small : (n : ℕ) → n < 2 ^ 32 → u32 n ≡ n
u32-small n h = omega arith

pub write_header :
    {B : Type 0} (k : List ℕ → Outcome B) (r w x y z : List ℕ) (m : ℕ)
    → length w ≡ 4
    → length x ≡ 4
    → length y ≡ 4
    → length z ≡ 4
    → length r ≡ 16 + m
    → (back : List ℕ) × (length back ≡ m)
      × ((write_at r 0 w >>= λ r.
            write_at r 4 x >>= λ r. write_at r 8 y >>= λ r. write_at r 12 z >>= k)
          ≡ k ((((w ++ x) ++ y) ++ z) ++ back))
write_header k r w x y z m hw hx hy hz hr =
    let (a, la, ea) = write_at-fill [] r w 0 (12 + m) refl (omega arith) in
    let (b, lb, eb) = write_at-fill w a x 4 (8 + m) (omega arith) (omega arith) in
    let (c, lc, ec) =
      write_at-fill (w ++ x) b y 8 (4 + m) (omega (arith, length-append w x)) (omega arith) in
    let (d, ld, ed) =
      write_at-fill ((w ++ x) ++ y) c z 12 m
        (omega (arith, length-append w x, length-append (w ++ x) y)) (omega arith) in
    (d, ld, rw (ea, eb, ec, ed) refl)

pub length-header :
    (w x y z : List ℕ)
    → length w ≡ 4
    → length x ≡ 4
    → length y ≡ 4
    → length z ≡ 4
    → 16 ≡ length (((w ++ x) ++ y) ++ z)
length-header w x y z hw hx hy hz =
    omega (arith, length-append w x, length-append (w ++ x) y, length-append ((w ++ x) ++ y) z)

pub command_code-lt : (c : ApiCommand) → command_code c < 2 ^ 32
command_code-lt api1 = omega arith
command_code-lt api2 = omega arith

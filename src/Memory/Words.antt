-- ===== src/Memory/Words.antt =====
-- A 32-bit word and its bytes.
use epoll_model.Prelude.{
  ℕ, ◌+◌, ◌^◌, ◌≤◌, ◌<◌, ◌≡◌, refl, ap, List, [], ◌∷◌, ◌++◌, length, append-nil, ok, fault, arith,
}
use epoll_model.Memory.{le_bytes, of_le, read_word}
use epoll_model.Memory.Copies.{read_at-mid, read_at-fault, read_at-prefix}

pub length-le_bytes : (w : ℕ) → length (le_bytes w) ≡ 4
unfolding le_bytes
length-le_bytes w = refl

pub of_le-le_bytes : (w : ℕ) (rest : List ℕ) → w < 2 ^ 32 → of_le (le_bytes w ++ rest) ≡ w
unfolding of_le le_bytes
of_le-le_bytes w rest h = omega arith

pub read_word-mid :
    (pre post : List ℕ) (w off : ℕ)
    → off ≡ length pre
    → w < 2 ^ 32
    → read_word (pre ++ (le_bytes w ++ post)) off ≡ ok w
unfolding read_word le_bytes
read_word-mid pre post w off p h =
    rw (read_at-mid pre (le_bytes w) post off 4 p (length-le_bytes w))
      (ap ok (rw append-nil at (of_le-le_bytes w [] h)))

pub read_word-fault : (buf : List ℕ) (off : ℕ) → length buf < off + 4 → read_word buf off ≡ fault
unfolding read_word le_bytes
read_word-fault buf off h = rw (read_at-fault buf off 4 h)

pub of_le-append : (xs ys : List ℕ) → 4 ≤ length xs → of_le (xs ++ ys) ≡ of_le xs
unfolding of_le
of_le-append (a ∷ b ∷ c ∷ d ∷ xs) ys h = refl
of_le-append (a ∷ b ∷ c ∷ []) ys h = absurd (omega arith)
of_le-append (a ∷ b ∷ []) ys h = absurd (omega arith)
of_le-append (a ∷ []) ys h = absurd (omega arith)
of_le-append [] ys h = absurd (omega arith)

-- The first word of what is received.
pub read_word-front : (c junk : List ℕ) → 4 ≤ length c → read_word (c ++ junk) 0 ≡ ok (of_le c)
unfolding read_word of_le
read_word-front (a ∷ b ∷ c ∷ d ∷ xs) junk h =
    rw (read_at-prefix (a ∷ b ∷ c ∷ d ∷ (xs ++ junk)) 4 (omega arith)) refl
read_word-front (a ∷ b ∷ c ∷ []) ys h = absurd (omega arith)
read_word-front (a ∷ b ∷ []) ys h = absurd (omega arith)
read_word-front (a ∷ []) ys h = absurd (omega arith)
read_word-front [] ys h = absurd (omega arith)

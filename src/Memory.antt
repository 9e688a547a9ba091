-- ===== src/Memory.antt =====
-- Objects in memory as lists of bytes: `memcpy`, `memset`, `new char[n]`, `std::string::resize` and
-- the bytes of a 32-bit word, lowest first (x86-64). Copies check the bounds of both objects.
pub mod Copies
pub mod Words
use epoll_model.Prelude.{
  ℕ, ◌+◌, ◌-◌, ◌*◌, ◌/◌, ◌%◌, ◌^◌, ◌≡◌, List, [], ◌∷◌, ◌++◌, length, take, drop, replicate, leb,
  if◌then◌else◌, Outcome, ok, fault, ◌>>=◌,
}

abbrev pub u32 : ℕ → ℕ
u32 n = n % 2 ^ 32

-- The bytes of `n` objects of one byte from `off` on.
unfoldable pub read_at : List ℕ → ℕ → ℕ → Outcome (List ℕ)
read_at buf off n = if leb (off + n) (length buf) then ok (take n (drop off buf)) else fault

-- `memcpy(dst + off, src, length src)`
unfoldable pub write_at : List ℕ → ℕ → List ℕ → Outcome (List ℕ)
write_at dst off src =
    if leb (off + length src) (length dst)
    then ok (take off dst ++ (src ++ drop (off + length src) dst))
    else fault

-- `n` bytes after `memset(p, b, n)`.
unfoldable pub filled : ℕ → ℕ → List ℕ
filled n b = replicate n b

-- `new char[n]`. The contents are unspecified in C++; no theorem speaks of bytes not yet written.
unfoldable pub new_char : ℕ → List ℕ
new_char n = replicate n 0

-- `s.resize(n)`
unfoldable pub resize : ℕ → List ℕ → List ℕ
resize n s = take n s ++ replicate (n - length s) 0

-- The bytes of an `unsigned int`.
unfoldable pub le_bytes : ℕ → List ℕ
le_bytes w = (w % 256) ∷ (w / 256 % 256) ∷ (w / 65536 % 256) ∷ (w / 16777216 % 256) ∷ []

unfoldable pub of_le : List ℕ → ℕ
of_le (a ∷ b ∷ c ∷ d ∷ rest) = a + 256 * b + 65536 * c + 16777216 * d
of_le _ = 0

-- `memcpy(&w, buf + off, sizeof(unsigned int))`
unfoldable pub read_word : List ℕ → ℕ → Outcome ℕ
read_word buf off = do bytes ← read_at buf off 4; ok (of_le bytes)

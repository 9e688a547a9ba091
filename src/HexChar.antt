-- ===== src/HexChar.antt =====
-- utility/hexChar.h and utility/hexChar.c: bytes as hexadecimal digits, and back. An `int` is its
-- 32-bit pattern where it can be negative.
pub mod Encode
pub mod Decode
pub mod Inverse
use Prim.Native.Nat.{bit_and}
use epoll_model.Prelude.{
  ℕ, zero, suc, ◌+◌, ◌-◌, ◌*◌, ◌/◌, ◌%◌, ◌^◌, ◌≡◌, refl, Bool, true, false, ◌&&◌, Option, none,
  some, List, [], ◌∷◌, ◌++◌, length, get_elem?, ltb, leb, ◌==◌, if◌then◌else◌, ℤ, pos, negsuc,
  is_negative, Outcome, ok, fault, stuck, ◌>>=◌,
}
use epoll_model.Memory.{u32, write_at}

-- A `char` by its byte. Those from 128 on are negative, or above every letter; both tests fail.
unfoldable pub supper_to_lower : ℕ → ℕ
supper_to_lower c = if leb 65 c && leb c 90 then c + 32 else c

unfoldable pub lower_to_supper : ℕ → ℕ
lower_to_supper c = if leb 97 c && leb c 122 then c - 32 else c

-- "0123456789ABCDEF"
abbrev pub tohex : List ℕ
tohex = 48 ∷ 49 ∷ 50 ∷ 51 ∷ 52 ∷ 53 ∷ 54 ∷ 55 ∷ 56 ∷ 57 ∷ 65 ∷ 66 ∷ 67 ∷ 68 ∷ 69 ∷ 70 ∷ []

-- An element of an array; out of bounds it is a fault.
abbrev pub at : List ℕ → ℕ → Outcome ℕ
at xs i = elim (get_elem? xs i) [ none ↦ fault | some x ↦ ok x ]

-- The loop of CharToHex with `rounds` rounds left: `out` is the object behind `pchOut`, which has
-- come to its byte `o`.
pub char_to_hex_loop : ℕ → ℕ → List ℕ → ℕ → List ℕ → Outcome (List ℕ)
char_to_hex_loop zero i out o inp = ok out
char_to_hex_loop (suc rounds) i out o inp = do
  b ← at inp i
  high ← at tohex (b / 2 ^ 4)
  out ← write_at out o (high ∷ [])
  b' ← at inp i
  low ← at tohex (bit_and b' 0x0f)
  out ← write_at out (o + 1) (low ∷ [])
  char_to_hex_loop rounds (i + 1) out (o + 2) inp

-- A negative `nLen` makes no round.
unfoldable pub char_to_hex : List ℕ → List ℕ → ℤ → Outcome (List ℕ)
unfolding char_to_hex_loop
char_to_hex out inp (pos n) = char_to_hex_loop n 0 out 0 inp
char_to_hex out inp (negsuc n) = ok out

-- The variables of HexToChar that live from one round to the next, and the output.
pub record Hex : Type 0 where
  pub out : List ℕ
  pub an : ℕ
  pub num : ℕ
  pub st : ℤ
  pub q : ℤ
  pub kk : ℕ

-- `pchIn[q]`, where `pchIn` points to the byte `base` of the object `mem`.
pub peek : List ℕ → ℕ → ℤ → Outcome ℕ
peek mem base (pos k) = at mem (base + k)
peek mem base (negsuc k) = if leb (suc k) base then at mem (base - suc k) else fault

pub poke : List ℕ → ℤ → ℕ → Outcome (List ℕ)
poke out (pos k) b = write_at out k (b ∷ [])
poke out (negsuc k) b = fault

abbrev pub pred_ℤ : ℤ → ℤ
pred_ℤ (pos zero) = negsuc 0
pred_ℤ (pos (suc n)) = pos n
pred_ℤ (negsuc n) = negsuc (suc n)

-- What a digit counts for: the distance from 'A' or from '0', as an `int`.
unfoldable pub digit_value : ℕ → ℕ
unfolding lower_to_supper
digit_value c =
    if leb 65 (lower_to_supper c) && leb (lower_to_supper c) 70
    then u32 (c + 2 ^ 32 - 65 + 10)
    else u32 (c + 2 ^ 32 - 48)

-- `if(kk==2) { … }`
pub flush : Hex → Outcome Hex
unfolding poke
flush s =
    if s.kk == 2
    then (poke s.out s.st (s.num % 256) >>= λ out.
        ok (record { out = out; an = 1; num = 0; st = pred_ℤ s.st; q = s.q; kk = 0 }))
    else ok s

pub hex_round : List ℕ → ℕ → Hex → Outcome Hex
unfolding flush peek digit_value
hex_round mem base s = do
  s ← flush s
  c ← peek mem base s.q
  ok (record s {
    num = u32 (s.num + s.an * digit_value c);
    an = u32 (s.an * 16);
    q = pred_ℤ s.q;
    kk = s.kk + 1;
  })

-- The comma in the loop's condition drops `q >= 0`; the loop runs while `st >= 0`.
pub hex_loop : ℕ → List ℕ → ℕ → Hex → Outcome (List ℕ)
unfolding hex_round
hex_loop zero mem base s = stuck
hex_loop (suc fuel) mem base s =
    let rest = hex_round mem base s >>= λ s'. hex_loop fuel mem base s' in
    if is_negative s.st then ok s.out else rest

-- Two rounds for each byte of output, and one to write the last; one more to see the end.
unfoldable pub hex_to_char : List ℕ → List ℕ → ℕ → ℕ → Outcome (List ℕ)
unfolding hex_loop
hex_to_char out mem base n =
    hex_loop (n + 3) mem base
      (record { out = out; an = 1; num = 0; st = pred_ℤ (pos (n / 2)); q = pred_ℤ (pos n); kk = 0 })

-- ===== src/HexChar/Decode.antt =====
-- The rounds of HexToChar, which reads its digits from the last to the first.
use epoll_model.Prelude.{
  ℕ, zero, suc, ◌+◌, ◌-◌, ◌*◌, ◌/◌, ◌%◌, ◌≤◌, ◌<◌, ◌≡◌, refl, ◌∙◌, List, [], ◌∷◌, ◌++◌, length,
  length-append, take, take-append_le, drop-append, length-take, le→leb, pos, ok, equal_below,
  equal_below_sound, arith,
}
use epoll_model.Memory.{u32, write_at}
use epoll_model.HexChar.{at, Hex, peek, poke, pred_ℤ, digit_value, flush, hex_round, hex_loop}
use epoll_model.HexChar.Encode.{digit}

digit_value-digit : (v : ℕ) → v < 16 → digit_value (digit v) ≡ v
unfolding digit_value digit equal_below
digit_value-digit v h = equal_below_sound (λ v. digit_value (digit v)) (λ v. v) 16 refl v h

abbrev pub twice : ℕ → ℕ
twice zero = zero
twice (suc n) = suc (suc (twice n))

-- The state in which the byte `j` is read next, and the one in which it is read and not yet written.
abbrev pub clean : List ℕ → ℕ → Hex
clean out j = record { out = out; an = 1; num = 0; st = pos j; q = pos (suc (twice j)); kk = 0 }

abbrev read_byte : List ℕ → ℕ → ℕ → Hex
read_byte out j b = record {
  out = out;
  an = 256;
  num = b;
  st = pos j;
  q = pred_ℤ (pos (twice j));
  kk = 2;
}

two_rounds :
    (fuel j b base : ℕ) (mem out : List ℕ)
    → b < 256
    → at mem (base + suc (twice j)) ≡ ok (digit (b % 16))
    → at mem (base + twice j) ≡ ok (digit (b / 16))
    → hex_loop (suc (suc fuel)) mem base (clean out j) ≡ hex_loop fuel mem base (read_byte out j b)
unfolding hex_loop hex_round flush peek
two_rounds fuel j b base mem out small low high =
    let v = digit_value-digit (b % 16) (omega arith) in
    let v' = digit_value-digit (b / 16) (omega arith) in
    let one : u32 (0 + 1 * (b % 16)) ≡ b % 16 = omega arith in
    let two : u32 (b % 16 + 16 * (b / 16)) ≡ b = omega arith in rw (low, v, one, high, v', two) refl

next_byte :
    (fuel i b base : ℕ) (mem out out' : List ℕ)
    → b < 256
    → write_at out (suc i) (b ∷ []) ≡ ok out'
    → hex_loop (suc fuel) mem base (read_byte out (suc i) b)
      ≡ hex_loop (suc fuel) mem base (clean out' i)
unfolding hex_loop hex_round flush poke
next_byte fuel i b base mem out out' small written =
    let e : b % 256 ≡ b = omega arith in rw (e, written) refl

last_byte :
    (fuel b base x : ℕ) (mem out out' : List ℕ)
    → b < 256
    → write_at out 0 (b ∷ []) ≡ ok out'
    → 1 ≤ base
    → at mem (base - 1) ≡ ok x
    → hex_loop (suc (suc fuel)) mem base (read_byte out 0 b) ≡ ok out'
unfolding hex_loop hex_round flush poke peek
last_byte fuel b base x mem out out' small written h before =
    let e : b % 256 ≡ b = omega arith in rw (e, written, le→leb 1 base h, before) refl

-- The bytes from the last to the first, put before others.
abbrev pub rev_onto : List ℕ → List ℕ → List ℕ
rev_onto [] t = t
rev_onto (b ∷ rs) t = rev_onto rs (b ∷ t)

abbrev pub fuel_for : List ℕ → ℕ
fuel_for [] = 3
fuel_for (b ∷ rs) = suc (suc (fuel_for rs))

fuel_pos : (rs : List ℕ) → (n : ℕ) × (fuel_for rs ≡ suc n)
fuel_pos [] = (2, refl)
fuel_pos (b ∷ rs) = (suc (fuel_for rs), refl)

-- The digits of these bytes stand at their places behind `base`.
abbrev pub Holds : List ℕ → ℕ → List ℕ → Type 0
Holds mem base [] = Unit {0}
Holds mem base (b ∷ rs) =
    (b < 256)
    × (at mem (base + suc (twice (length rs))) ≡ ok (digit (b % 16)))
    × (at mem (base + twice (length rs)) ≡ ok (digit (b / 16)))
    × Holds mem base rs

write_last :
    (front tail : List ℕ) (j b : ℕ)
    → length front ≡ suc j
    → write_at (front ++ tail) j (b ∷ []) ≡ ok (take j front ++ (b ∷ tail))
unfolding write_at
write_last front tail j b e =
    let lt = length-append front tail in
    rw
      (
        le→leb (j + 1) (length (front ++ tail)) (omega arith),
        take-append_le j front tail (omega arith),
        drop-append (j + 1) front tail (omega arith),
      )
      refl

pub decode_lem :
    (rs : List ℕ) (b base x : ℕ) (mem front tail : List ℕ)
    → length front ≡ suc (length rs)
    → 1 ≤ base
    → at mem (base - 1) ≡ ok x
    → Holds mem base (b ∷ rs)
    → hex_loop (fuel_for (b ∷ rs)) mem base (clean (front ++ tail) (length rs))
      ≡ ok (rev_onto (b ∷ rs) tail)
decode_lem [] b base x mem front tail e h before (small, low, high, more) =
    two_rounds 3 0 b base mem (front ++ tail) small low high
    ∙ last_byte 1 b base x mem (front ++ tail) (b ∷ tail) small (write_last front tail 0 b e) h
        before
decode_lem (r ∷ rs) b base x mem front tail e h before (small, low, high, more) =
    let j = length rs in
    let front' = take (suc j) front in
    let (n, en) = fuel_pos (r ∷ rs) in
    two_rounds (fuel_for (r ∷ rs)) (suc j) b base mem (front ++ tail) small low high
    ∙ next_byte (suc (fuel_for rs)) j b base mem (front ++ tail) (front' ++ (b ∷ tail)) small
        (write_last front tail (suc j) b e)
    ∙ decode_lem rs r base x mem front' (b ∷ tail) (length-take (suc j) front (omega arith)) h
        before more

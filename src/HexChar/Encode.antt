-- ===== src/HexChar/Encode.antt =====
-- CharToHex writes two digits for each byte and nothing else.
use Prim.Native.Nat.{bit_and}
use epoll_model.Prelude.{
  ℕ, zero, suc, ◌+◌, ◌*◌, ◌/◌, ◌%◌, ◌≤◌, ◌<◌, ◌≡◌, refl, sym, ap, ◌∙◌, List, [], ◌∷◌, ◌++◌,
  append_assoc, append-nil, length, length-append, drop, length-drop, ltb, if◌then◌else◌, pos,
  Outcome, ok, fault, stuck, ◌>>=◌, equal_below, equal_below_sound, arith,
}
use epoll_model.Memory.{write_at, le_bytes, filled}
use epoll_model.Memory.Copies.{write_at-next}
use epoll_model.HexChar.{at, tohex, char_to_hex_loop, char_to_hex}

abbrev pub AllBytes : List ℕ → Type 0
AllBytes [] = Unit {0}
AllBytes (b ∷ bs) = (b < 256) × AllBytes bs

pub AllBytes-append : (xs ys : List ℕ) → AllBytes xs → AllBytes ys → AllBytes (xs ++ ys)
AllBytes-append [] ys a b = b
AllBytes-append (x ∷ xs) ys a b = (a.0, AllBytes-append xs ys a.1 b)

pub AllBytes-le_bytes : (w : ℕ) → AllBytes (le_bytes w)
AllBytes-le_bytes w = unfold le_bytes in omega arith

pub AllBytes-filled : (n b : ℕ) → b < 256 → AllBytes (filled n b)
unfolding filled
AllBytes-filled zero b h = tt
AllBytes-filled (suc n) b h = (h, AllBytes-filled n b h)

-- The digit of a number below 16.
unfoldable pub digit : ℕ → ℕ
digit v = if ltb v 10 then 48 + v else 55 + v

unfoldable pub hex_digits : List ℕ → List ℕ
hex_digits [] = []
hex_digits (b ∷ bs) = digit (b / 16) ∷ digit (b % 16) ∷ hex_digits bs

pub length-hex_digits : (bs : List ℕ) → length (hex_digits bs) ≡ 2 * length bs
unfolding hex_digits
length-hex_digits [] = refl
length-hex_digits (b ∷ bs) = omega (arith, length-hex_digits bs)

pub low_nibble : (b : ℕ) → b < 256 → bit_and b 0x0f ≡ b % 16
unfolding equal_below
low_nibble b h = equal_below_sound (λ b. bit_and b 0x0f) (λ b. b % 16) 256 refl b h

-- A result as a number, so that a table can compare it.
code : Outcome ℕ → ℕ
code (ok x) = suc x
code fault = 0
code stuck = 0

ok_of_code : (o : Outcome ℕ) (x : ℕ) → code o ≡ suc x → o ≡ ok x
unfolding code
ok_of_code (ok y) x e = ap ok (omega arith)
ok_of_code fault x e = absurd (omega arith)
ok_of_code stuck x e = absurd (omega arith)

pub tohex-digit : (v : ℕ) → v < 16 → at tohex v ≡ ok (digit v)
unfolding equal_below code digit
tohex-digit v h =
    ok_of_code (at tohex v) (digit v)
      (equal_below_sound (λ v. code (at tohex v)) (λ v. suc (digit v)) 16 refl v h)

pub at-mid :
    (pre : List ℕ) (b : ℕ) (rest : List ℕ) (i : ℕ) → i ≡ length pre → at (pre ++ b ∷ rest) i ≡ ok b
at-mid [] b rest zero e = refl
at-mid [] b rest (suc i) e = absurd (omega arith)
at-mid (x ∷ pre) b rest zero e = absurd (omega arith)
at-mid (x ∷ pre) b rest (suc i) e = at-mid pre b rest i (omega arith)

-- The two writes of one round.
two_writes :
    (k : List ℕ → Outcome (List ℕ)) (front back : List ℕ) (high low o : ℕ)
    → o ≡ length front
    → 2 ≤ length back
    → (write_at (front ++ back) o (high ∷ []) >>= λ out. write_at out (o + 1) (low ∷ []) >>= k)
      ≡ k ((front ++ high ∷ low ∷ []) ++ drop 2 back)
two_writes k front [] high low o eo h = absurd (omega arith)
two_writes k front (x ∷ []) high low o eo h = absurd (omega arith)
two_writes k front (x ∷ y ∷ back) high low o eo h =
    let one = high ∷ [] in
    let first = write_at-next front (x ∷ y ∷ back) one o eo (omega arith) in
    let apart = sym (append_assoc front one (y ∷ back)) in
    let second =
      write_at-next (front ++ one) (y ∷ back) (low ∷ []) (o + 1)
        (omega (arith, length-append front one)) (omega arith) in
    let shape : (front ++ one) ++ (low ∷ back) ≡ (front ++ high ∷ low ∷ []) ++ back =
      append_assoc front one (low ∷ back) ∙ sym (append_assoc front (high ∷ low ∷ []) back) in
    rw (first, apart, second) (ap k shape)

drop_two : (n : ℕ) (back : List ℕ) → drop n (drop 2 back) ≡ drop (suc (suc n)) back
drop_two zero [] = refl
drop_two (suc n) [] = refl
drop_two zero (x ∷ []) = refl
drop_two (suc n) (x ∷ []) = refl
drop_two n (x ∷ y ∷ back) = refl

loop_lem :
    (bs pre post front back : List ℕ) (i o : ℕ)
    → i ≡ length pre
    → o ≡ length front
    → AllBytes bs
    → 2 * length bs ≤ length back
    → char_to_hex_loop (length bs) i (front ++ back) o (pre ++ (bs ++ post))
      ≡ ok ((front ++ hex_digits bs) ++ drop (2 * length bs) back)
unfolding char_to_hex_loop hex_digits
loop_lem [] pre post front back i o ei eo all h =
    ap ok (ap (λ (x : List ℕ). x ++ back) (sym (append-nil front)))
loop_lem (b ∷ bs) pre post front back i o ei eo (small, all) h =
    let high = digit (b / 16) in
    let low = digit (b % 16) in
    let two = high ∷ low ∷ [] in
    let n = 2 * length bs in
    let next : List ℕ → Outcome (List ℕ) =
      λ out. char_to_hex_loop (length bs) (i + 1) out (o + 2) (pre ++ b ∷ (bs ++ post)) in
    let writes = two_writes next front back high low o eo (omega arith) in
    let run =
      loop_lem bs (pre ++ b ∷ []) post (front ++ two) (drop 2 back) (i + 1) (o + 2)
        (omega (arith, length-append pre (b ∷ []))) (omega (arith, length-append front two)) all
        (omega (arith, length-drop 2 back)) in
    let same : pre ++ b ∷ (bs ++ post) ≡ (pre ++ b ∷ []) ++ (bs ++ post) =
      sym (append_assoc pre (b ∷ []) (bs ++ post)) in
    let tail =
      ap (char_to_hex_loop (length bs) (i + 1) ((front ++ two) ++ drop 2 back) (o + 2)) same
      ∙ run in
    let double : suc (suc n) ≡ 2 * suc (length bs) = omega arith in
    let shape : ((front ++ two) ++ hex_digits bs) ++ drop n (drop 2 back)
        ≡ (front ++ (high ∷ low ∷ hex_digits bs)) ++ drop (2 * suc (length bs)) back =
      rw (drop_two n back, double)
        (ap (λ (x : List ℕ). x ++ drop (2 * suc (length bs)) back)
          (append_assoc front two (hex_digits bs))) in
    rw
      (
        at-mid pre b (bs ++ post) i ei,
        tohex-digit (b / 16) (omega arith),
        low_nibble b small,
        tohex-digit (b % 16) (omega arith),
      )
      (writes ∙ tail ∙ ap ok shape)

-- Given room for two digits a byte, CharToHex leaves the digits of the input's first bytes at the
-- front of the output and behind them what was there before, and never leaves an object.
pub char_to_hex_lem :
    (bs post out : List ℕ)
    → AllBytes bs
    → 2 * length bs ≤ length out
    → char_to_hex out (bs ++ post) (pos (length bs))
      ≡ ok (hex_digits bs ++ drop (2 * length bs) out)
unfolding char_to_hex
char_to_hex_lem bs post out all h = loop_lem bs [] post [] out 0 0 refl refl all h

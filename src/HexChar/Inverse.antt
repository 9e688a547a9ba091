-- ===== src/HexChar/Inverse.antt =====
-- HexToChar gives back the bytes whose digits CharToHex writes.
use epoll_model.Prelude.{
  ℕ, zero, suc, ◌+◌, ◌-◌, ◌*◌, ◌/◌, ◌%◌, ◌≤◌, ◌≡◌, refl, sym, ap, ◌∙◌, List, [], ◌∷◌, ◌++◌,
  append_assoc, append-nil, length, length-append, take, drop, take-append-drop, length-take, pos,
  ok, arith,
}
use epoll_model.HexChar.{at, pred_ℤ, hex_loop, hex_to_char}
use epoll_model.HexChar.Encode.{AllBytes, digit, hex_digits, at-mid}
use epoll_model.HexChar.Decode.{twice, clean, rev_onto, fuel_for, Holds, decode_lem}

digits_front :
    (rs t : List ℕ)
    → (front : List ℕ) × (hex_digits (rev_onto rs t) ≡ front ++ hex_digits t)
      × (length front ≡ twice (length rs))
unfolding hex_digits
digits_front [] t = ([], refl, refl)
digits_front (r ∷ rs) t =
    let (front, e, l) = digits_front rs (r ∷ t) in
    let two = digit (r / 16) ∷ digit (r % 16) ∷ [] in
    (
      front ++ two,
      e ∙ sym (append_assoc front two (hex_digits t)),
      omega (arith, length-append front two),
    )

digits-Holds :
    (rs t pre post : List ℕ)
    → AllBytes rs
    → Holds (pre ++ (hex_digits (rev_onto rs t) ++ post)) (length pre) rs
unfolding hex_digits
digits-Holds [] t pre post a = tt
digits-Holds (b ∷ rs) t pre post (small, a) =
    let (front, e, l) = digits_front rs (b ∷ t) in
    let high = digit (b / 16) in
    let low = digit (b % 16) in
    let rest = hex_digits t ++ post in
    let mem = pre ++ (hex_digits (rev_onto rs (b ∷ t)) ++ post) in
    let lp = length-append pre front in
    let split : mem ≡ (pre ++ front) ++ (high ∷ low ∷ rest) =
      ap (λ (x : List ℕ). pre ++ (x ++ post)) e
      ∙ ap (λ (x : List ℕ). pre ++ x) (append_assoc front (high ∷ low ∷ hex_digits t) post)
      ∙ sym (append_assoc pre front (high ∷ low ∷ rest)) in
    let split' : mem ≡ ((pre ++ front) ++ high ∷ []) ++ (low ∷ rest) =
      split ∙ sym (append_assoc (pre ++ front) (high ∷ []) (low ∷ rest)) in
    (
      small,
      ap (λ (x : List ℕ). at x (length pre + suc (twice (length rs)))) split'
          ∙ at-mid ((pre ++ front) ++ high ∷ []) low rest (length pre + suc (twice (length rs)))
              (omega (arith, length-append (pre ++ front) (high ∷ []))),
      ap (λ (x : List ℕ). at x (length pre + twice (length rs))) split
          ∙ at-mid (pre ++ front) high (low ∷ rest) (length pre + twice (length rs)) (omega arith),
      digits-Holds rs (b ∷ t) pre post a,
    )

at-before :
    (pre rest : List ℕ) → 1 ≤ length pre → (x : ℕ) × (at (pre ++ rest) (length pre - 1) ≡ ok x)
at-before [] rest h = absurd (omega arith)
at-before (x ∷ []) rest h = (x, refl)
at-before (x ∷ y ∷ pre) rest h =
    let (z, e) = at-before (y ∷ pre) rest (omega arith) in
    let k : suc (suc (length pre)) - 1 ≡ suc (suc (length pre) - 1) = omega arith in (z, rw k e)

twice_lem : (n : ℕ) → twice n ≡ 2 * n
twice_lem zero = refl
twice_lem (suc n) = omega (arith, twice_lem n)

fuel_for_lem : (rs : List ℕ) → fuel_for rs ≡ 2 * length rs + 3
fuel_for_lem [] = refl
fuel_for_lem (r ∷ rs) = omega (arith, fuel_for_lem rs)

rev_twice : (a b c : List ℕ) → rev_onto (rev_onto a b) c ≡ rev_onto b (a ++ c)
rev_twice [] b c = refl
rev_twice (x ∷ a) b c = rev_twice a (x ∷ b) c

length-rev_onto : (a b : List ℕ) → length (rev_onto a b) ≡ length a + length b
length-rev_onto [] b = omega arith
length-rev_onto (x ∷ a) b = omega (arith, length-rev_onto a (x ∷ b))

rev_onto-AllBytes : (a b : List ℕ) → AllBytes a → AllBytes b → AllBytes (rev_onto a b)
rev_onto-AllBytes [] b p q = q
rev_onto-AllBytes (x ∷ a) b p q = rev_onto-AllBytes a (x ∷ b) p.1 (p.0, q)

start_lem :
    (n j m base : ℕ) (mem out : List ℕ)
    → n ≡ suc (suc (twice j))
    → n / 2 ≡ suc j
    → n + 3 ≡ m
    → hex_to_char out mem base n ≡ hex_loop m mem base (clean out j)
unfolding hex_to_char
start_lem n j m base mem out e half enough =
    let q : pred_ℤ (pos n) ≡ pos (suc (twice j)) = ap (λ k. pred_ℤ (pos k)) e in
    rw (q, half, enough) refl

reversed :
    (rs pre post out : List ℕ)
    → AllBytes rs
    → length rs ≤ length out
    → 1 ≤ length pre
    → hex_to_char out (pre ++ (hex_digits (rev_onto rs []) ++ post)) (length pre) (2 * length rs)
      ≡ ok (rev_onto rs (drop (length rs) out))
unfolding hex_to_char hex_loop
reversed [] pre post out a h k = refl
reversed (b ∷ rs) pre post out a h k =
    let j = length rs in
    let front = take (suc j) out in
    let tail = drop (suc j) out in
    let n = 2 * suc j in
    let mem = pre ++ (hex_digits (rev_onto rs (b ∷ [])) ++ post) in
    let (x, before) = at-before pre (hex_digits (rev_onto rs (b ∷ [])) ++ post) k in
    start_lem n j (fuel_for (b ∷ rs)) (length pre) mem out (omega (arith, twice_lem j))
      (omega arith) (omega (arith, fuel_for_lem rs))
    ∙ ap (λ (o : List ℕ). hex_loop (fuel_for (b ∷ rs)) mem (length pre) (clean o j))
        (sym (take-append-drop (suc j) out))
    ∙ decode_lem rs b (length pre) x mem front tail (length-take (suc j) out (omega arith)) k before
        (digits-Holds (b ∷ rs) [] pre post a)

-- HexToChar, given the digits that CharToHex writes for some bytes, with at least one byte of the same
-- object in front of them and room in the output, ends and replaces exactly the front of the output
-- by the bytes.
pub hex_to_char_lem :
    (bs pre post out : List ℕ)
    → AllBytes bs
    → length bs ≤ length out
    → 1 ≤ length pre
    → hex_to_char out (pre ++ (hex_digits bs ++ post)) (length pre) (2 * length bs)
      ≡ ok (bs ++ drop (length bs) out)
hex_to_char_lem bs pre post out a h k =
    let rs = rev_onto bs [] in
    let back : (t : List ℕ) → rev_onto rs t ≡ bs ++ t = rev_twice bs [] in
    let same : rev_onto rs [] ≡ bs = back [] ∙ append-nil bs in
    let len : length rs ≡ length bs = omega (arith, length-rev_onto bs []) in
    let main = reversed rs pre post out (rev_onto-AllBytes bs [] a tt) (omega arith) k in
    ap
      (λ (x : List ℕ). hex_to_char out (pre ++ (hex_digits x ++ post)) (length pre) (2 * length bs))
      (sym same)
    ∙ ap (λ n. hex_to_char out (pre ++ (hex_digits (rev_onto rs []) ++ post)) (length pre) (2 * n))
        (sym len)
    ∙ main
    ∙ ap (λ n. ok (rev_onto rs (drop n out))) len
    ∙ ap ok (back (drop (length bs) out))

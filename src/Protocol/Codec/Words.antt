-- ===== src/Protocol/Codec/Words.antt =====
-- The words of which a request frame is made.
use epoll_model.Prelude.{
  ℕ, zero, suc, ◌+◌, ◌*◌, ◌%◌, ◌/◌, ◌≤◌, ◌<◌, ◌^◌, ◌≡◌, refl, sym, ap, ◌∙◌, List, [], ◌∷◌, ◌++◌,
  length, take, drop, length-drop, arith,
}
use epoll_model.Memory.{le_bytes, of_le}
use epoll_model.HexChar.Encode.{AllBytes}
use epoll_model.Protocol.Frames.{request_frame}
use epoll_model.Protocol.Codec.{IsRequestFrame}

-- Four bytes and the number that they stand for.
le_bytes-of_le :
    (a b c d : ℕ) (rest : List ℕ)
    → a < 256
    → b < 256
    → c < 256
    → d < 256
    → le_bytes (of_le (a ∷ b ∷ c ∷ d ∷ rest)) ≡ a ∷ b ∷ c ∷ d ∷ []
unfolding le_bytes of_le
le_bytes-of_le a b c d rest ha hb hc hd =
    let n = a + 256 * b + 65536 * c + 16777216 * d in
    let e0 : n % 256 ≡ a = omega arith in
    let e1 : n / 256 % 256 ≡ b = omega arith in
    let e2 : n / 65536 % 256 ≡ c = omega arith in
    let e3 : n / 16777216 % 256 ≡ d = omega arith in rw (e0, e1, e2, e3) refl

-- The first word of some bytes, and the rest.
first_word :
    (f : List ℕ)
    → 4 ≤ length f
    → AllBytes f
    → (f ≡ le_bytes (of_le (take 4 f)) ++ drop 4 f) × AllBytes (drop 4 f)
first_word (a ∷ b ∷ c ∷ d ∷ f) h w = (
  sym (ap (λ (x : List ℕ). x ++ f) (le_bytes-of_le a b c d [] w.0 w.1.0 w.1.1.0 w.1.1.1.0)),
  w.1.1.1.1,
)
first_word (a ∷ b ∷ c ∷ []) h w = absurd (omega arith)
first_word (a ∷ b ∷ []) h w = absurd (omega arith)
first_word (a ∷ []) h w = absurd (omega arith)
first_word [] h w = absurd (omega arith)

drop-nil : {A : Type 0} (n : ℕ) → drop {A = A} n [] ≡ []
drop-nil zero = refl
drop-nil (suc n) = refl

drop-drop : {A : Type 0} (m n : ℕ) (xs : List A) → drop m (drop n xs) ≡ drop (n + m) xs
drop-drop {A} m n [] = rw (drop-nil {A = A} n, drop-nil {A = A} m, drop-nil {A = A} (n + m)) refl
drop-drop m zero (x ∷ xs) = let z : zero + m ≡ m = omega arith in rw z refl
drop-drop m (suc n) (x ∷ xs) =
    let z : suc n + m ≡ suc (n + m) = omega arith in rw z (drop-drop m n xs)

-- The word at `n`, and what is behind it.
pub next_word :
    (n : ℕ) (f : List ℕ)
    → n + 4 ≤ length f
    → AllBytes (drop n f)
    → (drop n f ≡ le_bytes (of_le (take 4 (drop n f))) ++ drop (n + 4) f)
      × AllBytes (drop (n + 4) f)
next_word n f h w =
    let (e, rest) = first_word (drop n f) (omega (arith, length-drop n f)) w in
    (
      e ∙ ap (λ (x : List ℕ). le_bytes (of_le (take 4 (drop n f))) ++ x) (drop-drop 4 n f),
      rw drop-drop at rest,
    )

-- The words of a frame.
pub frame_words :
    (id cmd : ℕ) (payload : List ℕ)
    → id < 2 ^ 32
    → cmd < 2 ^ 32
    → 16 + length payload < 2 ^ 32
    → let f = request_frame id cmd payload in
      (of_le (take 4 f) ≡ 16 + length payload)
      × (of_le (take 4 (drop 4 f)) ≡ id)
      × (of_le (take 4 (drop 8 f)) ≡ cmd)
      × (of_le (take 4 (drop 12 f)) ≡ length payload)
      × (drop 16 f ≡ payload)
unfolding le_bytes of_le
frame_words id cmd payload hi hc hp =
    (omega (arith, hp), omega (arith, hi), omega (arith, hc), omega (arith, hp), refl)

-- A request frame from its own words.
pub request_frame-words :
    (f : List ℕ)
    → IsRequestFrame f
    → let payload = drop 16 f in
      (request_frame (of_le (take 4 (drop 4 f))) (of_le (take 4 (drop 8 f))) payload ≡ f)
      × (16 + length payload ≡ length f)
      × AllBytes payload
request_frame-words f (long, small, bytes, total, cmd, size) =
    let payload = drop 16 f in
    let (e1, b1) = next_word 0 f (omega arith) bytes in
    let (e2, b2) = next_word 4 f (omega arith) b1 in
    let (e3, b3) = next_word 8 f (omega arith) b2 in
    let (e4, b4) = next_word 12 f (omega arith) b3 in
    let n : 16 + length payload ≡ length f = omega (arith, length-drop 16 f) in
    let h0 : of_le (take 4 f) ≡ 16 + length payload = total ∙ sym n in
    let h3 : of_le (take 4 (drop 12 f)) ≡ length payload = omega arith in
    let first = λ (w : ℕ) (x : List ℕ). le_bytes w ++ x in
    let path =
      e1
      ∙ ap (first (of_le (take 4 f))) (
          e2
          ∙ ap (first (of_le (take 4 (drop 4 f))))
              (e3 ∙ ap (first (of_le (take 4 (drop 8 f)))) e4)) in
    (sym (rw (h0, h3) at path), n, b4)

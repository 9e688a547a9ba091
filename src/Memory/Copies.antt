-- ===== src/Memory/Copies.antt =====
-- Reads and writes inside the bounds of an object, and outside them.
use epoll_model.Prelude.{
  ℕ, zero, suc, ◌+◌, ◌-◌, ◌≤◌, ◌<◌, ◌≡◌, refl, sym, ap, ◌∙◌, List, [], ◌∷◌, ◌++◌, append_assoc,
  length, take, drop, replicate, length-append, length-drop, length-take, length-replicate,
  take-append, drop-append, le→leb, lt→leb_false, leb, leb→le, Bool-cases, inl, inr, Outcome, ok,
  fault, ◌>>=◌, arith,
}
use epoll_model.Memory.{read_at, write_at, resize, new_char, filled}

pub read_at-mid :
    (pre mid post : List ℕ) (off n : ℕ)
    → off ≡ length pre
    → n ≡ length mid
    → read_at (pre ++ (mid ++ post)) off n ≡ ok mid
unfolding read_at
read_at-mid pre mid post off n p q =
    rw
      (le→leb (off + n) (length (pre ++ (mid ++ post)))
        (omega (arith, length-append pre (mid ++ post), length-append mid post)))
      (ap ok (ap (take n) (drop-append off pre (mid ++ post) p) ∙ take-append n mid post q))

pub read_at-ok :
    (buf : List ℕ) (off n : ℕ)
    → off + n ≤ length buf
    → read_at buf off n ≡ ok (take n (drop off buf))
unfolding read_at
read_at-ok buf off n h = rw (le→leb (off + n) (length buf) h)

pub read_at-fault : (buf : List ℕ) (off n : ℕ) → length buf < off + n → read_at buf off n ≡ fault
unfolding read_at
read_at-fault buf off n h = rw (lt→leb_false (off + n) (length buf) h)

-- A write right behind `front` fills the next bytes.
pub write_at-next :
    (front back src : List ℕ) (off : ℕ)
    → off ≡ length front
    → length src ≤ length back
    → write_at (front ++ back) off src ≡ ok (front ++ (src ++ drop (length src) back))
unfolding write_at
write_at-next front back src off p h =
    rw
      (le→leb (off + length src) (length (front ++ back)) (omega (arith, length-append front back)))
      (ap ok (fill off p))
  where
    drops : (xs ys : List ℕ) (n k : ℕ) → n ≡ length xs + k → drop n (xs ++ ys) ≡ drop k ys
    drops [] ys n k e = let e' : n ≡ k = omega arith in rw e'
    drops (x ∷ xs) ys zero k e = absurd (omega arith)
    drops (x ∷ xs) ys (suc n) k e = drops xs ys n k (omega arith)

    fill :
        (o : ℕ)
        → o ≡ length front
        → take o (front ++ back) ++ (src ++ drop (o + length src) (front ++ back))
          ≡ front ++ (src ++ drop (length src) back)
    fill o e =
        rw
          (take-append o front back e, drops front back (o + length src) (length src) (omega arith))

-- A write inside an object keeps its length.
pub write_at-ok :
    (dst src : List ℕ) (off : ℕ)
    → off + length src ≤ length dst
    → (dst' : List ℕ) × (write_at dst off src ≡ ok dst') × (length dst' ≡ length dst)
unfolding write_at
write_at-ok dst src off h =
    let rest = drop (off + length src) dst in
    (
      take off dst ++ (src ++ rest),
      rw (le→leb (off + length src) (length dst) h) refl,
      omega (
        arith,
        length-append (take off dst) (src ++ rest),
        length-append src rest,
        length-take off dst,
        length-drop (off + length src) dst,
      ),
    )

pub write_at-fault :
    (dst src : List ℕ) (off : ℕ) → length dst < off + length src → write_at dst off src ≡ fault
unfolding write_at
write_at-fault dst src off h = rw (lt→leb_false (off + length src) (length dst) h)

fill_up : (n : ℕ) (s : List ℕ) → length (take n s) + (n - length s) ≡ n
fill_up zero s = omega arith
fill_up (suc n) [] = omega arith
fill_up (suc n) (x ∷ s) = omega (arith, fill_up n s)

pub length-resize : (n : ℕ) (s : List ℕ) → length (resize n s) ≡ n
unfolding resize
length-resize n s =
    rw (length-append (take n s) (replicate (n - length s) 0), length-replicate) (fill_up n s)

pub length-new_char : (n : ℕ) → length (new_char n) ≡ n
unfolding new_char
length-new_char n = length-replicate n 0

-- A write behind `front` that leaves `m` bytes of the object to be filled.
pub write_at-fill :
    (front back src : List ℕ) (off m : ℕ)
    → off ≡ length front
    → length back ≡ length src + m
    → (back' : List ℕ) × (length back' ≡ m)
      × (write_at (front ++ back) off src ≡ ok ((front ++ src) ++ back'))
write_at-fill front back src off m p q = (
  drop (length src) back,
  omega (arith, length-drop (length src) back),
  write_at-next front back src off p (omega arith) ∙ ap ok (sym (append_assoc front src _)),
)

pub eq-nil : {A : Type 0} (xs : List A) → length xs ≡ 0 → xs ≡ []
eq-nil [] h = refl
eq-nil (x ∷ xs) h = absurd (omega arith)

pub read_at-prefix : (buf : List ℕ) (n : ℕ) → n ≤ length buf → read_at buf 0 n ≡ ok (take n buf)
unfolding read_at
read_at-prefix buf n h = rw (le→leb (0 + n) (length buf) (omega arith))

-- A write keeps the length of the object, so what faults for every object of that length faults
-- behind the write.
pub fault_behind_write :
    {B : Type 0} (k : List ℕ → Outcome B) (dst src : List ℕ) (off : ℕ)
    → ((r : List ℕ) → length r ≡ length dst → k r ≡ fault)
    → (write_at dst off src >>= k) ≡ fault
fault_behind_write k dst src off h = elim (Bool-cases (leb (off + length src) (length dst))) [
  | inl fits ↦
      let written = take off dst ++ (src ++ drop (off + length src) dst) in
      let e : write_at dst off src ≡ ok written = unfold write_at in rw fits in
      rw e (
        h written (
          omega (
            arith,
            leb→le (off + length src) (length dst) fits,
            length-append (take off dst) (src ++ drop (off + length src) dst),
            length-append src (drop (off + length src) dst),
            length-take off dst,
            length-drop (off + length src) dst,
          )))
  | inr out ↦ let e : write_at dst off src ≡ fault = unfold write_at in rw out in rw e
]

pub length-filled : (n b : ℕ) → length (filled n b) ≡ n
unfolding filled
length-filled n b = length-replicate n b

pub read_at-front : (c junk : List ℕ) (n : ℕ) → n ≡ length c → read_at (c ++ junk) 0 n ≡ ok c
read_at-front c junk n e =
    read_at-prefix (c ++ junk) n (omega (arith, length-append c junk))
    ∙ ap ok (take-append n c junk e)

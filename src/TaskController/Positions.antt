-- ===== src/TaskController/Positions.antt =====
-- Positions in a stream: behind a frame, inside it, and at its start.
use epoll_model.Prelude.{
  ℕ, zero, suc, ◌+◌, ◌-◌, ◌≤◌, ◌<◌, ◌≡◌, refl, sym, ap, ◌∙◌, Option, none, some, List, [], ◌∷◌,
  ◌++◌, map, append_assoc, append-nil, length, take, drop, le→leb, lt→leb_false, take-append,
  take-append_le, take-append-drop, drop-append, drop-append_le, lookup, arith,
}
use epoll_model.TaskController.{TaskData, Controller}
use epoll_model.TaskController.Stream.{
  AllFrames, delivered, current, offset, IsPart, Waits, View, view, frame_view, At,
}

module _ (f : List ℕ) (fs : List (List ℕ)) (n : ℕ) where
  pub delivered-skip : length f ≤ n → delivered (f ∷ fs) n ≡ f ∷ delivered fs (n - length f)
  unfolding delivered
  delivered-skip h = rw (le→leb (length f) n h)

  pub current-skip : length f ≤ n → current (f ∷ fs) n ≡ current fs (n - length f)
  unfolding current
  current-skip h = rw (le→leb (length f) n h)

  pub offset-skip : length f ≤ n → offset (f ∷ fs) n ≡ offset fs (n - length f)
  unfolding offset
  offset-skip h = rw (le→leb (length f) n h)

  pub delivered-stay : n < length f → delivered (f ∷ fs) n ≡ []
  unfolding delivered
  delivered-stay h = rw (lt→leb_false (length f) n h)

  pub current-stay : n < length f → current (f ∷ fs) n ≡ f
  unfolding current
  current-stay h = rw (lt→leb_false (length f) n h)

  pub offset-stay : n < length f → offset (f ∷ fs) n ≡ n
  unfolding offset
  offset-stay h = rw (lt→leb_false (length f) n h)

pub at_start : (fs : List (List ℕ)) → AllFrames fs → (delivered fs 0 ≡ []) × (offset fs 0 ≡ 0)
unfolding delivered offset
at_start [] a = (refl, refl)
at_start (f ∷ fs) a = (
  delivered-stay f fs 0 (omega (arith, a.0.header)),
  offset-stay f fs 0 (omega (arith, a.0.header)),
)

pub drop-skip :
    (n : ℕ) (xs ys : List ℕ) → length xs ≤ n → drop n (xs ++ ys) ≡ drop (n - length xs) ys
drop-skip n [] ys h = let e : n - 0 ≡ n = omega arith in rw e
drop-skip zero (x ∷ xs) ys h = absurd (omega arith)
drop-skip (suc n) (x ∷ xs) ys h =
    let e : suc n - suc (length xs) ≡ n - length xs = omega arith in
    rw e (drop-skip n xs ys (omega arith))

-- Of two ways to split one list, the longer front begins with the shorter.
pub split_append :
    (p s q t : List ℕ)
    → p ++ s ≡ q ++ t
    → length p ≤ length q
    → (q ≡ p ++ drop (length p) q) × (s ≡ drop (length p) q ++ t)
split_append p s q t e h =
    let k = length p in
    let front : take k q ≡ p =
      sym (take-append_le k q t h) ∙ sym (ap (take k) e) ∙ take-append k p s refl in
    (
      sym (take-append-drop k q) ∙ ap (λ (x : List ℕ). x ++ drop k q) front,
      sym (drop-append k p s refl) ∙ ap (drop k) e ∙ drop-append_le k q t h,
    )

pub Waits-some :
    {client : ℕ} {f : List ℕ} (k j : ℕ) {e : Option TaskData} (t : TaskData)
    → k ≡ j
    → 0 < k
    → e ≡ some t
    → IsPart client f j t
    → Waits client f k e
Waits-some zero j t q h e p = absurd (omega arith)
Waits-some (suc k) j t q h e p = (t, e, rw q p)

pub Waits-held :
    {client : ℕ} {f : List ℕ} (k : ℕ) {e : Option TaskData}
    → 0 < k
    → Waits client f k e
    → (t : TaskData) × (e ≡ some t) × IsPart client f k t
Waits-held zero h w = absurd (omega arith)
Waits-held (suc k) h w = w

pub offset-behind :
    (f : List ℕ) (fs : List (List ℕ)) (n k : ℕ) → n ≡ length f + k → offset (f ∷ fs) n ≡ offset fs k
offset-behind f fs n k e =
    let e' : n - length f ≡ k = omega arith in offset-skip f fs n (omega arith) ∙ ap (offset fs) e'

module _ {client : ℕ} {old : List View} (f : List ℕ) {fs : List (List ℕ)} (n : ℕ)
    {c : Controller} where
  pub At-skip :
      (k : ℕ)
      → n ≡ length f + k
      → At client old (f ∷ fs) n c
      → At client (old ++ frame_view client f ∷ []) fs k c
  At-skip k e a =
      let h : length f ≤ n = omega arith in
      let e' : n - length f ≡ k = omega arith in
      record {
        tasks = a.tasks ∙ rw (delivered-skip f fs n h, e', append_assoc) refl;
        waits = rw (current-skip f fs n h, offset-skip f fs n h, e') at a.waits;
      }

  pub skip-At :
      (k : ℕ)
      → n ≡ length f + k
      → At client (old ++ frame_view client f ∷ []) fs k c
      → At client old (f ∷ fs) n c
  skip-At k e a =
      let h : length f ≤ n = omega arith in
      let e' : n - length f ≡ k = omega arith in
      record {
        tasks = a.tasks ∙ rw (delivered-skip f fs n h, e', append_assoc) refl;
        waits = rw (current-skip f fs n h, offset-skip f fs n h, e') a.waits;
      }

  pub At-stay :
      n < length f
      → At client old (f ∷ fs) n c
      → (map view c.added ≡ old) × Waits client f n (lookup client c.recv_list)
  At-stay h a = (
    a.tasks ∙ rw (delivered-stay f fs n h) (append-nil old),
    rw (current-stay f fs n h, offset-stay f fs n h) at a.waits,
  )

  pub stay-At :
      n < length f
      → map view c.added ≡ old
      → Waits client f n (lookup client c.recv_list)
      → At client old (f ∷ fs) n c
  stay-At h e w = record {
    tasks = e ∙ sym (rw (delivered-stay f fs n h) (append-nil old));
    waits = rw (current-stay f fs n h, offset-stay f fs n h) w;
  }

pub start-At :
    {client : ℕ} {old : List View} (fs : List (List ℕ)) {c : Controller}
    → AllFrames fs
    → map view c.added ≡ old
    → lookup client c.recv_list ≡ none
    → At client old fs 0 c
start-At {old} fs a e free = record {
  tasks = e ∙ sym (rw (at_start fs a).0 (append-nil old));
  waits = rw (at_start fs a).1 free;
}

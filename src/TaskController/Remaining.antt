-- ===== src/TaskController/Remaining.antt =====
-- A stream from any position on is the stream of the frames that are left, from inside the first.
use native.Mathlib.Decide.{dec_le}
use epoll_model.Prelude.{
  ℕ, zero, suc, ◌+◌, ◌-◌, ◌<◌, ◌^◌, ◌≡◌, refl, sym, ap, ◌∙◌, List, [], ◌∷◌, ◌++◌, append-nil, map,
  length, drop, leb, le→leb, lt→leb_false, if◌then◌else◌, ok, lookup, arith,
}
use epoll_model.TaskController.{Controller, on_recv}
use epoll_model.TaskController.Stream.{
  AllFrames, concat, delivered, current, offset, IsSafeCut, Waits, view, frame_view, At, Untouched,
}
use epoll_model.TaskController.Positions.{drop-skip}
use epoll_model.TaskController.Reassembly.{feeds}

-- The frames that do not end in the first `n` bytes.
unfoldable pub remaining : List (List ℕ) → ℕ → List (List ℕ)
remaining [] n = []
remaining (f ∷ fs) n = if leb (length f) n then remaining fs (n - length f) else f ∷ fs

pub remaining-AllFrames : (fs : List (List ℕ)) (n : ℕ) → AllFrames fs → AllFrames (remaining fs n)
unfolding remaining
remaining-AllFrames [] n a = a
remaining-AllFrames (f ∷ fs) n a = elim (dec_le (length f) n) [
  | yes h ↦ rw (le→leb (length f) n h) (remaining-AllFrames fs (n - length f) a.1)
  | no h ↦ rw (lt→leb_false (length f) n (omega arith)) a
]

-- What a position further on is, from the frames that are left.
module _ (k : ℕ) where
  pub delivered-remaining :
      (fs : List (List ℕ)) (n : ℕ)
      → delivered fs (n + k) ≡ delivered fs n ++ delivered (remaining fs n) (offset fs n + k)
  unfolding delivered remaining offset
  delivered-remaining [] n = refl
  delivered-remaining (f ∷ fs) n = elim (dec_le (length f) n) [
    | yes h ↦
        let e : n + k - length f ≡ n - length f + k = omega arith in
        rw (le→leb (length f) (n + k) (omega arith), le→leb (length f) n h, e)
          (ap (◌∷◌ f) (delivered-remaining fs (n - length f)))
    | no h ↦ rw (lt→leb_false (length f) n (omega arith)) refl
  ]

  pub offset-remaining :
      (fs : List (List ℕ)) (n : ℕ) → offset fs (n + k) ≡ offset (remaining fs n) (offset fs n + k)
  unfolding remaining offset
  offset-remaining [] n = refl
  offset-remaining (f ∷ fs) n = elim (dec_le (length f) n) [
    | yes h ↦
        let e : n + k - length f ≡ n - length f + k = omega arith in
        rw (le→leb (length f) (n + k) (omega arith), le→leb (length f) n h, e)
          (offset-remaining fs (n - length f))
    | no h ↦ rw (lt→leb_false (length f) n (omega arith)) refl
  ]

  pub current-remaining :
      (fs : List (List ℕ)) (n : ℕ) → current fs (n + k) ≡ current (remaining fs n) (offset fs n + k)
  unfolding remaining offset current
  current-remaining [] n = refl
  current-remaining (f ∷ fs) n = elim (dec_le (length f) n) [
    | yes h ↦
        let e : n + k - length f ≡ n - length f + k = omega arith in
        rw (le→leb (length f) (n + k) (omega arith), le→leb (length f) n h, e)
          (current-remaining fs (n - length f))
    | no h ↦ rw (lt→leb_false (length f) n (omega arith)) refl
  ]

drop-remaining :
    (fs : List (List ℕ)) (n : ℕ) → drop n (concat fs) ≡ drop (offset fs n) (concat (remaining fs n))
unfolding remaining offset
drop-remaining [] zero = refl
drop-remaining [] (suc n) = refl
drop-remaining (f ∷ fs) n = elim (dec_le (length f) n) [
  | yes h ↦
      rw (le→leb (length f) n h) (drop-skip n f (concat fs) h ∙ drop-remaining fs (n - length f))
  | no h ↦ rw (lt→leb_false (length f) n (omega arith)) refl
]

remaining-none : (fs : List (List ℕ)) (n : ℕ) → delivered (remaining fs n) (offset fs n) ≡ []
unfolding remaining offset delivered
remaining-none [] n = refl
remaining-none (f ∷ fs) n = elim (dec_le (length f) n) [
  | yes h ↦ rw (le→leb (length f) n h) (remaining-none fs (n - length f))
  | no h ↦
      rw (lt→leb_false (length f) n (omega arith), lt→leb_false (length f) n (omega arith)) refl
]

-- One chunk of a client, at any position of its stream, whatever other clients have sent: onRecv
-- returns, and adds exactly the frames of this client that end in the chunk.
pub on_recv-chunk :
    (client : ℕ) (fs : List (List ℕ)) (n : ℕ) (c rest junk : List ℕ) (ctl : Controller)
    → AllFrames fs
    → 0 < length c
    → length c < 2 ^ 31
    → drop n (concat fs) ≡ c ++ rest
    → IsSafeCut fs n
    → IsSafeCut fs (n + length c)
    → Waits client (current fs n) (offset fs n) (lookup client ctl.recv_list)
    → (ctl' : Controller) × (new : List (List ℕ)) × (on_recv ctl client (c ++ junk) (length c)
        ≡ ok ctl')
      × (map view ctl'.added ≡ map view ctl.added ++ map (frame_view client) new)
      × (delivered fs (n + length c) ≡ delivered fs n ++ new)
      × Waits client
          (current fs (n + length c))
          (offset fs (n + length c))
          (lookup client ctl'.recv_list)
      × Untouched client ctl ctl'
unfolding on_recv
on_recv-chunk client fs n c rest junk ctl frames some_bytes small e safe safe' w =
    let gs = remaining fs n in
    let o = offset fs n in
    let n0 : n ≡ n + 0 = omega arith in
    let o0 : o + 0 ≡ o = omega arith in
    let same_current : current fs n ≡ current gs o =
      ap (current fs) n0 ∙ current-remaining 0 fs n ∙ ap (current gs) o0 in
    let same_offset : offset fs n ≡ offset gs o =
      ap (offset fs) n0 ∙ offset-remaining 0 fs n ∙ ap (offset gs) o0 in
    let at : At client (map view ctl.added) gs o ctl = record {
      tasks = rw (remaining-none fs n) (sym (append-nil (map view ctl.added)));
      waits = rw (← same_current, ← same_offset) w;
    } in
    let (ctl', run, at', same) =
      feeds client gs (remaining-AllFrames fs n frames) (map view ctl.added) o (o + length c) c rest
        junk ctl (suc (length c)) refl some_bytes small (sym (drop-remaining fs n) ∙ e)
        (rw (← same_offset) safe) (rw (← offset-remaining (length c) fs n) safe') at
        (omega arith) in
    (
      ctl',
      delivered gs (o + length c),
      run,
      at'.tasks,
      delivered-remaining (length c) fs n,
      rw (current-remaining (length c) fs n, offset-remaining (length c) fs n) at'.waits,
      same,
    )

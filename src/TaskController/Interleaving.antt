-- ===== src/TaskController/Interleaving.antt =====
-- Many clients at once: their chunks reach onRecv in any order.
use epoll_model.Prelude.{
  ℕ, ◌+◌, ◌≡◌, ◌≢◌, refl, sym, ap, ◌∙◌, true, false, Bool-cases, inl, inr, none, List, [], ◌∷◌,
  ◌++◌, append_assoc, append-nil, map, map-append, length, length-append, drop, ◌==◌, ==_refl,
  if◌then◌else◌, ok, lookup, arith,
}
use epoll_model.Socket.Receiving.{Listener, feed_all, behind}
use epoll_model.TaskController.{Controller, on_recv}
use epoll_model.TaskController.Stream.{
  AllFrames, concat, delivered, current, offset, IsSafeCut, Waits, View, view, frame_view,
  Untouched,
}
use epoll_model.TaskController.Positions.{at_start}
use epoll_model.TaskController.Delivery.{IsSafe, drop_more, delivered-all, offset-all}
use epoll_model.TaskController.Remaining.{on_recv-chunk}

-- taskController as the listener of a socket.
abbrev pub listener : Listener Controller
listener = record { on_recv = on_recv }

-- What a client sent, of all that arrives, and its tasks, of all that were added.
unfoldable pub chunks_of : ℕ → List (ℕ × List ℕ) → List (List ℕ)
chunks_of k [] = []
chunks_of k ((j, c) ∷ es) = if j == k then c ∷ chunks_of k es else chunks_of k es

unfoldable pub views_of : ℕ → List View → List View
views_of k [] = []
views_of k (v ∷ vs) = if v.0 == k then v ∷ views_of k vs else views_of k vs

views_of-append :
    (k : ℕ) (vs ws : List View) → views_of k (vs ++ ws) ≡ views_of k vs ++ views_of k ws
unfolding views_of
views_of-append k [] ws = refl
views_of-append k (v ∷ vs) ws = elim (Bool-cases (v.0 == k)) [
  | inl mine ↦ rw mine (ap (◌∷◌ v) (views_of-append k vs ws))
  | inr other ↦ rw other (views_of-append k vs ws)
]

views_of-own :
    (k : ℕ) (fs : List (List ℕ)) → views_of k (map (frame_view k) fs) ≡ map (frame_view k) fs
unfolding views_of
views_of-own k [] = refl
views_of-own k (f ∷ fs) = rw (==_refl k) (ap (◌∷◌ (frame_view k f)) (views_of-own k fs))

views_of-other :
    (j k : ℕ) (fs : List (List ℕ)) → (j == k) ≡ false → views_of k (map (frame_view j) fs) ≡ []
unfolding views_of
views_of-other j k [] ne = refl
views_of-other j k (f ∷ fs) ne = rw ne (views_of-other j k fs ne)

==→eq : (a b : ℕ) → (a == b) ≡ true → a ≡ b
==→eq a b h = ground arith

different : (j k : ℕ) → (j == k) ≡ false → k ≢ j
different j k h = λ e. absurd (cc (h, ==_refl j, e))

module _ (streams : ℕ → List (List ℕ)) (frames : (k : ℕ) → AllFrames (streams k)) where
  -- Of client `k`'s stream `n` bytes have come.
  pub record Stands (old : List View) (k n : ℕ) (ctl : Controller) : Type 0 where
    pub tasks :
        views_of k (map view ctl.added) ≡ old ++ map (frame_view k) (delivered (streams k) n)
    pub waits : Waits k (current (streams k) n) (offset (streams k) n) (lookup k ctl.recv_list)

  -- The chunks of `k` in `es` go on from position `n`.
  pub record GoesOn (k n : ℕ) (es : List (ℕ × List ℕ)) : Type 0 where
    pub rest : List ℕ
    pub bytes : drop n (concat (streams k)) ≡ concat (chunks_of k es) ++ rest
    pub here : IsSafeCut (streams k) n
    pub cuts : IsSafe (streams k) n (chunks_of k es)

  abbrev pub moved : (ℕ → ℕ) → ℕ → List ℕ → ℕ → ℕ
  moved pos_of j c k = if j == k then pos_of k + length c else pos_of k

  after_own :
      (old : List View) (j n : ℕ) (c : List ℕ) (ctl ctl' : Controller) (new : List (List ℕ))
      → map view ctl'.added ≡ map view ctl.added ++ map (frame_view j) new
      → delivered (streams j) (n + length c) ≡ delivered (streams j) n ++ new
      → Waits j
          (current (streams j) (n + length c))
          (offset (streams j) (n + length c))
          (lookup j ctl'.recv_list)
      → Stands old j n ctl
      → Stands old j (n + length c) ctl'
  after_own old j n c ctl ctl' new ev ed w s =
      let fv = map (frame_view j) in
      let before = map view ctl.added in
      record {
        tasks =
            ap (views_of j) ev
            ∙ views_of-append j before (fv new)
            ∙ ap (λ (x : List View). x ++ views_of j (fv new)) s.tasks
            ∙ ap (λ (x : List View). (old ++ fv (delivered (streams j) n)) ++ x)
                (views_of-own j new)
            ∙ append_assoc old (fv (delivered (streams j) n)) (fv new)
            ∙ ap (λ (x : List View). old ++ x)
                (sym (map-append (frame_view j) (delivered (streams j) n) new) ∙ ap fv (sym ed));
        waits = w;
      }

  after_other :
      (old : List View) (j k n : ℕ) (ctl ctl' : Controller) (new : List (List ℕ))
      → map view ctl'.added ≡ map view ctl.added ++ map (frame_view j) new
      → Untouched j ctl ctl'
      → (j == k) ≡ false
      → Stands old k n ctl
      → Stands old k n ctl'
  after_other old j k n ctl ctl' new ev same ne s =
      let before = map view ctl.added in
      record {
        tasks =
            ap (views_of k) ev
            ∙ views_of-append k before (map (frame_view j) new)
            ∙ ap (λ (x : List View). views_of k before ++ x) (views_of-other j k new ne)
            ∙ append-nil (views_of k before)
            ∙ s.tasks;
        waits = rw (same k (different j k ne)) s.waits;
      }

  pub after_chunk :
      (old : ℕ → List View) (pos_of : ℕ → ℕ) (j : ℕ) (c : List ℕ) (ctl ctl' : Controller)
      (new : List (List ℕ))
      → map view ctl'.added ≡ map view ctl.added ++ map (frame_view j) new
      → delivered (streams j) (pos_of j + length c) ≡ delivered (streams j) (pos_of j) ++ new
      → Waits j
          (current (streams j) (pos_of j + length c))
          (offset (streams j) (pos_of j + length c))
          (lookup j ctl'.recv_list)
      → Untouched j ctl ctl'
      → ((k : ℕ) → Stands (old k) k (pos_of k) ctl)
      → (k : ℕ) → Stands (old k) k (moved pos_of j c k) ctl'
  after_chunk old pos_of j c ctl ctl' new ev ed w same s k = elim (Bool-cases (j == k)) [
    | inl mine ↦
        let q = ==→eq j k mine in
        rw (mine, ← q) (after_own (old j) j (pos_of j) c ctl ctl' new ev ed w (s j))
    | inr other ↦ rw other (after_other (old k) j k (pos_of k) ctl ctl' new ev same other (s k))
  ]

  pub rest_GoesOn :
      (pos_of : ℕ → ℕ) (j : ℕ) (c : List ℕ) (es : List (ℕ × List ℕ)) (k : ℕ)
      → GoesOn k (pos_of k) ((j, c) ∷ es)
      → GoesOn k (moved pos_of j c k) es
  unfolding chunks_of
  rest_GoesOn pos_of j c es k g = elim (Bool-cases (j == k)) [
    | inl mine ↦
        let (_, _, here, cuts) = rw mine at g.cuts in
        let bytes = rw mine at g.bytes in
        rw mine (record {
          rest = g.rest;
          bytes =
              drop_more (pos_of k) (concat (streams k)) c (concat (chunks_of k es) ++ g.rest)
                (bytes ∙ append_assoc c (concat (chunks_of k es)) g.rest);
          here = here;
          cuts = cuts;
        })
    | inr other ↦ rw other (record {
      rest = g.rest;
      bytes = rw other at g.bytes;
      here = g.here;
      cuts = rw other at g.cuts;
    })
  ]

  pub end_of :
      (pos_of : ℕ → ℕ) (j : ℕ) (c : List ℕ) (es : List (ℕ × List ℕ)) (k : ℕ)
      → moved pos_of j c k + length (concat (chunks_of k es))
        ≡ pos_of k + length (concat (chunks_of k ((j, c) ∷ es)))
  unfolding chunks_of
  end_of pos_of j c es k = elim (Bool-cases (j == k)) [
    | inl mine ↦ rw mine (omega (arith, length-append c (concat (chunks_of k es))))
    | inr other ↦ rw other refl
  ]

  feed_all-Stands :
      (old : ℕ → List View) (pos_of : ℕ → ℕ) (es : List (ℕ × List ℕ)) (ctl : Controller)
      → ((k : ℕ) → Stands (old k) k (pos_of k) ctl)
      → ((k : ℕ) → GoesOn k (pos_of k) es)
      → (ctl' : Controller) × (feed_all listener ctl es ≡ ok ctl')
        × ((k : ℕ) → Stands (old k) k (pos_of k + length (concat (chunks_of k es))) ctl')
  unfolding feed_all chunks_of
  feed_all-Stands old pos_of [] ctl s g =
      (ctl, refl, λ k. let n0 : pos_of k + 0 ≡ pos_of k = omega arith in rw n0 (s k))
  feed_all-Stands old pos_of ((j, c) ∷ es) ctl s g =
      let gj = g j in
      let (some_bytes, small, here, _) = rw (==_refl j) at gj.cuts in
      let bytes = rw (==_refl j) at gj.bytes in
      let (d, new, run, ev, ed, w, same) =
        on_recv-chunk j (streams j) (pos_of j) c (concat (chunks_of j es) ++ gj.rest) (behind c) ctl
          (frames j) some_bytes small (bytes ∙ append_assoc c (concat (chunks_of j es)) gj.rest)
          gj.here here (s j).waits in
      let (ctl', run', s') =
        feed_all-Stands old (moved pos_of j c) es d
          (after_chunk old pos_of j c ctl d new ev ed w same s)
          (λ k. rest_GoesOn pos_of j c es k (g k)) in
      (ctl', rw run run', λ k. rw (end_of pos_of j c es k) at (s' k))

  -- Every client sends its own stream of frames, none has bytes waiting, and all their chunks reach
  -- onRecv in any interleaving, none of them cut inside the first four bytes of a frame. Then onRecv
  -- returns on every chunk; the tasks added for each client are exactly its frames, once each and in
  -- order; and no bytes stay behind for any client.
  pub feed_all-frames :
      (es : List (ℕ × List ℕ)) (ctl : Controller)
      → ((k : ℕ) → concat (chunks_of k es) ≡ concat (streams k))
      → ((k : ℕ) → IsSafe (streams k) 0 (chunks_of k es))
      → ((k : ℕ) → lookup k ctl.recv_list ≡ none)
      → (ctl' : Controller) × (feed_all listener ctl es ≡ ok ctl')
        × ((k : ℕ)
            → views_of k (map view ctl'.added)
              ≡ views_of k (map view ctl.added) ++ map (frame_view k) (streams k))
        × ((k : ℕ) → lookup k ctl'.recv_list ≡ none)
  feed_all-frames es ctl all cuts free =
      let (ctl', run, s) =
        feed_all-Stands (λ k. views_of k (map view ctl.added)) (λ k. 0) es ctl
          (λ k.
            let (nothing, start) = at_start (streams k) (frames k) in
            record {
              tasks = rw nothing (sym (append-nil (views_of k (map view ctl.added))));
              waits = rw start (free k);
            })
          (λ k. record {
            rest = [];
            bytes = sym (all k) ∙ sym (append-nil (concat (chunks_of k es)));
            here = inl (at_start (streams k) (frames k)).1;
            cuts = cuts k;
          }) in
      let end : (k : ℕ) → 0 + length (concat (chunks_of k es)) ≡ length (concat (streams k)) =
        λ k. omega (arith, ap length (all k)) in
      (
        ctl',
        run,
        λ k. (s k).tasks ∙ rw (delivered-all (streams k) _ (end k)) refl,
        λ k. rw (offset-all (streams k) _ (end k)) at (s k).waits,
      )

-- ===== src/System/Reception.antt =====
-- The receiving thread as one of the threads.
use epoll_model.Prelude.{
  ℕ, ◌+◌, ◌≡◌, refl, sym, ap, ◌∙◌, inl, inr, List, [], ◌∷◌, ◌++◌, append-nil, append_assoc, map,
  length, length-append, ==_refl, ok, arith,
}
use epoll_model.Socket.{Event}
use epoll_model.Socket.Ops.{queued}
use epoll_model.Socket.Receiving.{
  Received, recv_event, recv_event-feed, feed_all, arrived, arrived-split, Fits, behind,
}
use epoll_model.TaskController.{Controller}
use epoll_model.TaskController.Stream.{AllFrames, concat, View, view, frame_view}
use epoll_model.TaskController.Remaining.{on_recv-chunk}
use epoll_model.TaskController.Interleaving.{
  listener, chunks_of, Stands, GoesOn, moved, after_chunk, rest_GoesOn, end_of,
}
use epoll_model.System.{System, receives, move}
use epoll_model.System.Process.{AllWhole}
use epoll_model.System.Changes.{IsSound}
use epoll_model.System.Moves.{Goes}

AllWhole-append : (vs ws : List View) → AllWhole vs → AllWhole ws → AllWhole (vs ++ ws)
AllWhole-append [] ws a b = b
AllWhole-append (v ∷ vs) ws a b = (a.0, AllWhole-append vs ws a.1 b)

AllWhole-frames : (j : ℕ) (fs : List (List ℕ)) → AllWhole (map (frame_view j) fs)
AllWhole-frames j [] = tt
AllWhole-frames j (f ∷ fs) = (refl, AllWhole-frames j fs)

-- The receiving thread makes tasks, and does nothing else.
receives-Goes :
    (y : System) (e : Event) (r : Received) (c : Controller) (more : List View)
    → IsSound y
    → recv_event listener y.socket y.controller e r ≡ ok c
    → map view c.added ≡ map view y.controller.added ++ more
    → AllWhole more
    → Goes y (receives e r) c
unfolding move
receives-Goes y e r c more s run grown whole =
    let y' : System = record y { controller = c } in
    let longer = ap length grown in
    record {
      after = y';
      calls = [];
      events = [];
      goes = rw run refl;
      setup = (refl, refl);
      controller = refl;
      sound = record {
        whole = rw grown (AllWhole-append (map view y.controller.added) more s.whole whole);
        given = s.given;
        made = omega (arith, s.made, length-append (map view y.controller.added) more);
        listening = s.listening;
      };
      changes = λ k j. record {
        queue = λ h. append-nil (queued k y.socket);
        account = omega arith;
        grows = (more, grown);
        handed = omega arith;
        processed = tt;
      };
    }

module _ (streams : ℕ → List (List ℕ)) (frames : (k : ℕ) → AllFrames (streams k)) where
  -- After an event, each client stands where the rest of the chunks go on.
  pub record Receives (old : ℕ → List View) (pos_of : ℕ → ℕ) (y : System) (e : Event) (r : Received)
      (es : List (Event × Received)) : Type 0 where
    pub controller : Controller
    pub made : Goes y (receives e r) controller
    pub place : ℕ → ℕ
    pub stands : (k : ℕ) → Stands streams frames (old k) k (place k) controller
    pub goes_on : (k : ℕ) → GoesOn streams frames k (place k) (arrived y.socket es)
    pub ends :
        (k : ℕ)
        → place k + length (concat (chunks_of k (arrived y.socket es)))
          ≡ pos_of k + length (concat (chunks_of k (arrived y.socket ((e, r) ∷ es))))

  pub receives_lem :
      (old : ℕ → List View) (pos_of : ℕ → ℕ) (y : System) (e : Event) (r : Received)
      (es : List (Event × Received))
      → IsSound y
      → Fits ((e, r) ∷ es)
      → ((k : ℕ) → Stands streams frames (old k) k (pos_of k) y.controller)
      → ((k : ℕ) → GoesOn streams frames k (pos_of k) (arrived y.socket ((e, r) ∷ es)))
      → Receives old pos_of y e r es
  unfolding feed_all chunks_of
  receives_lem old pos_of y e r es s fit st g =
      let run = recv_event-feed listener y.socket y.controller e r es s.listening fit in
      elim (arrived-split y.socket e r es) [
        | inl (one, all) ↦ record {
          controller = y.controller;
          made =
              receives-Goes y e r y.controller [] s (rw one at run)
                (sym (append-nil (map view y.controller.added))) tt;
          place = pos_of;
          stands = st;
          goes_on = λ k. rw all at (g k);
          ends = λ k. rw all refl;
        }
        | inr (j, c, one, all) ↦
            let later = arrived y.socket es in
            let g' : (k : ℕ) → GoesOn streams frames k (pos_of k) ((j, c) ∷ later) =
              λ k. rw all at (g k) in
            let gj = g' j in
            let (some_bytes, small, here, _) = rw (==_refl j) at gj.cuts in
            let bytes = rw (==_refl j) at gj.bytes in
            let (d, new, got, ev, ed, w, same) =
              on_recv-chunk j (streams j) (pos_of j) c (concat (chunks_of j later) ++ gj.rest)
                (behind c) y.controller (frames j) some_bytes small
                (bytes ∙ append_assoc c (concat (chunks_of j later)) gj.rest) gj.here here
                (st j).waits in
            record {
              controller = d;
              made =
                  receives-Goes y e r d (map (frame_view j) new) s (rw (one, got) at run) ev
                    (AllWhole-frames j new);
              place = moved streams frames pos_of j c;
              stands = after_chunk streams frames old pos_of j c y.controller d new ev ed w same st;
              goes_on = λ k. rest_GoesOn streams frames pos_of j c later k (g' k);
              ends = λ k. rw all (end_of streams frames pos_of j c later k);
            }
      ]

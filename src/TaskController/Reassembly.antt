-- ===== src/TaskController/Reassembly.antt =====
-- However a stream is cut, outside the frames' first four bytes, makeNewTask hands over its frames.
use native.Mathlib.Decide.{dec_lt, dec_le}
use epoll_model.Prelude.{
  ℕ, zero, suc, ◌+◌, ◌-◌, ◌≤◌, ◌<◌, ◌^◌, ◌≡◌, refl, sym, ap, ◌∙◌, ◌⊎◌, inl, none, List, [], ◌∷◌,
  ◌++◌, map, append_assoc, length, drop, ltb, lt→ltb, le→ltb_false, length-append, length-drop,
  drop-append_le, ok, lookup, insert, erase, if◌then◌else◌, arith,
}
use epoll_model.TaskController.{
  TaskData, Controller, return, again, add_task, receive, make_new_task,
}
use epoll_model.TaskController.Feeding.{
  runs_return, runs_again, Feeds, Untouched-insert, Untouched-erase, lookup-insert_self,
  lookup-erase_self, added_view, add_task-keeps,
}
use epoll_model.TaskController.Stream.{
  IsFrame, AllFrames, concat, IsSafeCut, IsPart, View, view, frame_view, At, Untouched,
}
use epoll_model.TaskController.Receive.{
  task_of, receive_whole, receive_beginning, receive_more, receive_complete,
}
use epoll_model.TaskController.Positions.{
  split_append, drop-skip, Waits-some, Waits-held, At-skip, skip-At, At-stay, stay-At, start-At,
  at_start, offset-stay, offset-behind,
}

module _ (client : ℕ) (f : List ℕ) (fs : List (List ℕ)) (fr : IsFrame f) (frs : AllFrames fs) where
  -- The frame `f` has been handed over, and the chunk may go on behind it.
  feed_behind :
      Feeds client fs
      → (old : List View) (m : ℕ) (c more rest junk : List ℕ) (ctl d : Controller) (fuel : ℕ)
      → length c ≤ fuel
      → length more < length c
      → length c < 2 ^ 31
      → m ≡ length f + length more
      → concat fs ≡ more ++ rest
      → IsSafeCut (f ∷ fs) m
      → receive ctl client (c ++ junk) (length c)
        ≡ ok (if ltb (length f) m then again d (more ++ junk) (length more) else return d)
      → map view d.added ≡ old ++ frame_view client f ∷ []
      → lookup client d.recv_list ≡ none
      → Untouched client ctl d
      → (ctl' : Controller) × (make_new_task (suc fuel) ctl client (c ++ junk) (length c) ≡ ok ctl')
        × At client old (f ∷ fs) m ctl'
        × Untouched client ctl ctl'
  feed_behind ih old m c more rest junk ctl d fuel hf hm hc em e safe step added free others =
      elim (dec_lt 0 (length more)) [
        | yes goes_on ↦
            let at0 = start-At fs {c = d} frs added free in
            let safe' : IsSafeCut fs (length more) =
              rw (offset-behind f fs m (length more) em) at safe in
            let (ctl', run, at, same) =
              ih (old ++ frame_view client f ∷ []) 0 (length more) more rest junk d fuel
                (omega arith) goes_on (omega arith) e (inl (at_start fs frs).1) safe' at0
                (omega arith) in
            (
              ctl',
              runs_again fuel ctl client (c ++ junk) (length c)
                    (step ∙ rw (lt→ltb (length f) m (omega arith)) refl)
                  ∙ run,
              skip-At f m (length more) em at,
              λ k ne. same k ne ∙ others k ne,
            )
        | no stops ↦ (
          d,
          runs_return fuel ctl client (c ++ junk) (length c)
              (step ∙ rw (le→ltb_false (length f) m (omega arith)) refl),
          skip-At f m 0 (omega arith) (start-At fs frs added free),
          others,
        )
      ]

  abbrev Outcomes : List View → ℕ → List ℕ → List ℕ → Controller → ℕ → Type 0
  Outcomes old m c junk ctl fuel =
      (ctl' : Controller) × (make_new_task fuel ctl client (c ++ junk) (length c) ≡ ok ctl')
      × At client old (f ∷ fs) m ctl'
      × Untouched client ctl ctl'

  -- The chunk ends inside `f`, whose first `n` bytes came before it.
  feed_within :
      (old : List View) (n m : ℕ) (c rest junk : List ℕ) (ctl : Controller) (fuel : ℕ)
      → m ≡ n + length c
      → 0 < length c
      → m < length f
      → drop n f ≡ c ++ rest
      → 0 < length rest
      → IsSafeCut (f ∷ fs) n
      → IsSafeCut (f ∷ fs) m
      → At client old (f ∷ fs) n ctl
      → Outcomes old m c junk ctl (suc fuel)
  feed_within old zero m c rest junk ctl fuel em pos short e left safe safe' a =
      let (tasks, free) = At-stay f 0 (omega arith) a in
      let cut : (m ≡ 0) ⊎ (4 ≤ m) = rw (offset-stay f fs m short) at safe' in
      let (t, step, part) =
        receive_beginning ctl client f c rest junk free fr e (omega arith) left in
      let d : Controller = record ctl { recv_list = insert client t ctl.recv_list } in
      (
        d,
        runs_return fuel ctl client (c ++ junk) (length c) step,
        stay-At f m short tasks (
            Waits-some m (length c) t (omega arith) (omega arith)
              (lookup-insert_self client t ctl.recv_list) part),
        Untouched-insert client t ctl ctl.added,
      )
  feed_within old (suc n) m c rest junk ctl fuel em pos short e left safe safe' a =
      let (tasks, w) = At-stay f (suc n) (omega arith) a in
      let (t, held, part) = Waits-held (suc n) (omega arith) w in
      let (t', step, part') = receive_more ctl client f c rest junk (suc n) t held fr part e left in
      let d : Controller = record ctl { recv_list = insert client t' ctl.recv_list } in
      (
        d,
        runs_return fuel ctl client (c ++ junk) (length c) step,
        stay-At f m short tasks (
            Waits-some m (suc n + length c) t' em (omega arith)
              (lookup-insert_self client t' ctl.recv_list) part'),
        Untouched-insert client t' ctl ctl.added,
      )

  -- The chunk reaches the end of `f`, whose first `n` bytes came before it.
  feed_through :
      Feeds client fs
      → (old : List View) (n m : ℕ) (c more rest junk : List ℕ) (ctl : Controller) (fuel : ℕ)
      → n < length f
      → c ≡ drop n f ++ more
      → m ≡ length f + length more
      → length c < 2 ^ 31
      → concat fs ≡ more ++ rest
      → IsSafeCut (f ∷ fs) m
      → At client old (f ∷ fs) n ctl
      → length c ≤ fuel
      → Outcomes old m c junk ctl (suc fuel)
  feed_through ih old zero m c more rest junk ctl fuel h ec em hc e safe a hf =
      let (tasks, free) = At-stay f 0 h a in
      let lc : length c ≡ m = omega (arith, ap length ec, length-append f more) in
      let len_more : length c - length f ≡ length more = omega arith in
      let buf : c ++ junk ≡ f ++ (more ++ junk) =
        ap (λ (x : List ℕ). x ++ junk) ec ∙ append_assoc f more junk in
      let d = add_task ctl (task_of ctl client f) in
      let kept = add_task-keeps ctl (task_of ctl client f) in
      let step : receive ctl client (c ++ junk) (length c)
          ≡ ok (if ltb (length f) m then again d (more ++ junk) (length more) else return d) =
        rw (buf, lc)
          (receive_whole ctl client f (more ++ junk) m free fr (omega arith)
            ∙ rw (← lc, len_more) refl) in
      feed_behind ih old m c more rest junk ctl d fuel hf (omega (arith, fr.header)) hc em e safe
        step (added_view ctl (task_of ctl client f) client f old tasks refl)
        (ap (lookup client) kept ∙ free) (λ k ne. ap (lookup k) kept)
  feed_through ih old (suc n) m c more rest junk ctl fuel h ec em hc e safe a hf =
      let (tasks, w) = At-stay f (suc n) h a in
      let (t, held, part) = Waits-held (suc n) (omega arith) w in
      let lq = length-drop (suc n) f in
      let lc : length c + suc n ≡ m =
        omega (arith, ap length ec, length-append (drop (suc n) f) more) in
      let len_more : length c - (length f - suc n) ≡ length more = omega arith in
      let buf : c ++ junk ≡ drop (suc n) f ++ (more ++ junk) =
        ap (λ (x : List ℕ). x ++ junk) ec ∙ append_assoc (drop (suc n) f) more junk in
      let t' : TaskData = record t { databuf = f } in
      let d : Controller = record (add_task ctl t') { recv_list = erase client ctl.recv_list } in
      let step : receive ctl client (c ++ junk) (length c)
          ≡ ok (if ltb (length f) m then again d (more ++ junk) (length more) else return d) =
        rw buf (
          receive_complete ctl client f (more ++ junk) (suc n) (length c) t held fr part
            (omega arith) (omega arith) hc
          ∙ rw (lc, len_more) refl) in
      feed_behind ih old m c more rest junk ctl d fuel hf (omega arith) hc em e safe step
        (added_view ctl t' client f old tasks (view_of t part))
        (lookup-erase_self client ctl.recv_list)
        (Untouched-erase client ctl (add_task ctl t').added)
    where
      view_of :
          (t : TaskData)
          → IsPart client f (suc n) t
          → view (record t { databuf = f }) ≡ frame_view client f
      view_of t p = rw (p.of_client, p.whole)

-- Induction on the frames: those behind position `n` are passed over, the first other one is cut
-- by the end of the chunk or completed, and the rest of the chunk is received behind it.
pub feeds : (client : ℕ) (fs : List (List ℕ)) → AllFrames fs → Feeds client fs
feeds client [] a old n m c rest junk ctl fuel em pos small e safe safe' at hf =
    absurd (omega (arith, ap length e, length-append c rest, length-drop {0} {A = ℕ} n []))
feeds client (f ∷ fs) a old n m c rest junk ctl zero em pos small e safe safe' at hf =
    absurd (omega arith)
feeds client (f ∷ fs) a old n m c rest junk ctl (suc fuel) em pos small e safe safe' at hf =
    elim (dec_le (length f) n) [
      | yes behind ↦
          let k = n - length f in
          let ek : n ≡ length f + k = omega arith in
          let em' : m ≡ length f + (k + length c) = omega arith in
          let (ctl', run, at', same) =
            feeds client fs a.1 (old ++ frame_view client f ∷ []) k (k + length c) c rest junk ctl
              (suc fuel) refl pos small (sym (drop-skip n f (concat fs) behind) ∙ e)
              (rw (offset-behind f fs n k ek) at safe)
              (rw (offset-behind f fs m (k + length c) em') at safe') (At-skip f n k ek at) hf in
          (ctl', run, skip-At f m (k + length c) em' at', same)
      | no inside ↦
          let q = drop n f in
          let lq = length-drop n f in
          let e' : q ++ concat fs ≡ c ++ rest =
            sym (drop-append_le n f (concat fs) (omega arith)) ∙ e in
          elim (dec_le (length q) (length c)) [
            | yes through ↦
                let (ec, ex) = split_append q (concat fs) c rest e' through in
                let more = drop (length q) c in
                let lm = length-drop (length q) c in
                feed_through client f fs a.0 a.1 (feeds client fs a.1) old n m c more rest junk ctl
                  fuel (omega arith) ec (omega arith) small ex safe' at (omega arith)
            | no short ↦
                let (eq, er) = split_append c rest q (concat fs) (sym e') (omega arith) in
                let left = drop (length c) q in
                feed_within client f fs a.0 a.1 old n m c left junk ctl fuel em pos (omega arith) eq
                  (omega (arith, length-drop (length c) q)) safe safe' at
          ]
    ]

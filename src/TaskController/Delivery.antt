-- ===== src/TaskController/Delivery.antt =====
-- Sequences of receive calls: what a stream of frames becomes.
use epoll_model.Prelude.{
  ℕ, zero, suc, ◌+◌, ◌-◌, ◌<◌, ◌^◌, ◌≡◌, refl, sym, ap, ◌∙◌, inl, none, List, [], ◌∷◌, ◌++◌, map,
  append_assoc, append-nil, length, drop, le→leb, length-append, drop-append, ok, lookup, arith,
}
use epoll_model.TaskController.{Controller, on_recv, receive_all}
use epoll_model.TaskController.Stream.{
  AllFrames, concat, delivered, offset, IsSafeCut, View, view, frame_view, At, Untouched,
}
use epoll_model.TaskController.Positions.{start-At, at_start}
use epoll_model.TaskController.Reassembly.{feeds}

-- Chunks that follow each other from position `n` on: none is empty, and none ends in a header.
abbrev pub IsSafe : List (List ℕ) → ℕ → List (List ℕ) → Type 0
IsSafe fs n [] = Unit {0}
IsSafe fs n (c ∷ cs) =
    (0 < length c) × (length c < 2 ^ 31) × IsSafeCut fs (n + length c) × IsSafe fs (n + length c) cs

pub drop_more : (n : ℕ) (s c rest : List ℕ) → drop n s ≡ c ++ rest → drop (n + length c) s ≡ rest
drop_more zero s c rest e = rw e (drop-append (0 + length c) c rest (omega arith))
drop_more (suc n) [] [] rest e = let n0 : suc n + 0 ≡ suc n = omega arith in rw n0 e
drop_more (suc n) [] (x ∷ c) rest e = absurd (omega (arith, ap length e))
drop_more (suc n) (x ∷ s) c rest e =
    let s' : suc n + length c ≡ suc (n + length c) = omega arith in rw s' (drop_more n s c rest e)

pub delivered-all : (fs : List (List ℕ)) (n : ℕ) → n ≡ length (concat fs) → delivered fs n ≡ fs
unfolding delivered
delivered-all [] n e = refl
delivered-all (f ∷ fs) n e =
    rw (le→leb (length f) n (omega (arith, length-append f (concat fs))))
      (ap (◌∷◌ f) (delivered-all fs (n - length f) (omega (arith, length-append f (concat fs)))))

pub offset-all : (fs : List (List ℕ)) (n : ℕ) → n ≡ length (concat fs) → offset fs n ≡ 0
unfolding offset
offset-all [] n e = refl
offset-all (f ∷ fs) n e =
    rw (le→leb (length f) n (omega (arith, length-append f (concat fs))))
      (offset-all fs (n - length f) (omega (arith, length-append f (concat fs))))

module _ (after : List ℕ → List ℕ) (client : ℕ) (fs : List (List ℕ)) (frames : AllFrames fs) where
  -- From any position on: every call returns, the frames that end in the chunks are handed over in
  -- order, the map holds what is left of a cut frame, and no other client's entry changes.
  pub receive_all-At :
      (old : List View) (n : ℕ) (chunks : List (List ℕ)) (rest : List ℕ) (ctl : Controller)
      → drop n (concat fs) ≡ concat chunks ++ rest
      → IsSafeCut fs n
      → IsSafe fs n chunks
      → At client old fs n ctl
      → (ctl' : Controller) × (receive_all after ctl client chunks ≡ ok ctl')
        × At client old fs (n + length (concat chunks)) ctl'
        × Untouched client ctl ctl'
  unfolding receive_all
  receive_all-At old n [] rest ctl e safe cuts at =
      let n0 : n + 0 ≡ n = omega arith in (ctl, refl, rw n0 at, λ k ne. refl)
  receive_all-At old n (c ∷ cs) rest ctl e safe (pos, small, safe', cuts) at =
      let e' : drop n (concat fs) ≡ c ++ (concat cs ++ rest) =
        e ∙ append_assoc c (concat cs) rest in
      let (d, run, at', same) =
        feeds client fs frames old n (n + length c) c (concat cs ++ rest) (after c) ctl
          (suc (length c)) refl pos small e' safe safe' at (omega arith) in
      let (ctl', run', at'', same') =
        receive_all-At old (n + length c) cs rest d
          (drop_more n (concat fs) c (concat cs ++ rest) e') safe' cuts at' in
      let start : on_recv ctl client (c ++ after c) (length c) ≡ ok d = unfold on_recv in run in
      let ends : n + length (c ++ concat cs) ≡ n + length c + length (concat cs) =
        omega (arith, length-append c (concat cs)) in
      (ctl', rw start run', rw ends at'', λ k ne. same' k ne ∙ same k ne)

  -- A client with no waiting bytes sends the frames `fs`. However the transport cuts them, outside
  -- their first four bytes, onRecv returns on every chunk, exactly these frames become tasks of this
  -- client, once each and in order, no bytes stay behind, and no other client's entry changes. No chunk
  -- is empty or has 2^31 bytes.
  pub receive_all-frames :
      (chunks : List (List ℕ)) (ctl : Controller)
      → concat chunks ≡ concat fs
      → IsSafe fs 0 chunks
      → lookup client ctl.recv_list ≡ none
      → (ctl' : Controller) × (receive_all after ctl client chunks ≡ ok ctl')
        × (map view ctl'.added ≡ map view ctl.added ++ map (frame_view client) fs)
        × (lookup client ctl'.recv_list ≡ none)
        × Untouched client ctl ctl'
  receive_all-frames chunks ctl e cuts free =
      let (ctl', run, at, same) =
        receive_all-At (map view ctl.added) 0 chunks [] ctl
          (sym e ∙ sym (append-nil (concat chunks))) (inl (at_start fs frames).1) cuts
          (start-At fs frames refl free) in
      let n = 0 + length (concat chunks) in
      let end : n ≡ length (concat fs) = omega (arith, ap length e) in
      (
        ctl',
        run,
        at.tasks ∙ rw (delivered-all fs n end) refl,
        rw (offset-all fs n end) at at.waits,
        same,
      )

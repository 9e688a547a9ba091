-- ===== src/Client/Collect.antt =====
-- The receive loop of doConnect.
use epoll_model.Prelude.{
  ℕ, ◌+◌, ◌-◌, ◌%◌, ◌≤◌, ◌<◌, ◌^◌, ◌≡◌, refl, sym, ap, ◌∙◌, true, false, Bool-cases, inl, inr,
  Option, some, List, [], ◌∷◌, ◌++◌, append_assoc, append-nil, map, length, length-append, drop,
  ltb, ◌==◌, ok, arith,
}
use epoll_model.Memory.{write_at, of_le, filled}
use epoll_model.Memory.Copies.{read_at-front, write_at-next, length-filled, eq-nil}
use epoll_model.Memory.Words.{read_word-front, of_le-append}
use epoll_model.TaskController.Stream.{IsFrame, concat}
use epoll_model.Client.{socketbuffer_size, recv_loop}

-- What `recv` can return for a buffer of 4096 bytes while the connection stands.
abbrev pub AllFit : List (List ℕ) → Type 0
AllFit [] = Unit {0}
AllFit (c ∷ cs) = (0 < length c) × (length c ≤ socketbuffer_size) × AllFit cs

positive-ne : (n : ℕ) → 0 < n → (n == 0) ≡ false
positive-ne n h = ground arith

into_buffer :
    (c : List ℕ)
    → length c ≤ socketbuffer_size
    → write_at (filled socketbuffer_size 0) 0 c
      ≡ ok (c ++ drop (length c) (filled socketbuffer_size 0))
into_buffer c h =
    write_at-next [] (filled socketbuffer_size 0) c 0 refl
      (omega (arith, length-filled socketbuffer_size 0))

-- With the total length known, and less than that received.
collect_more :
    (f p : List ℕ) (chunks : List (List ℕ))
    → length f < 2 ^ 31
    → p ++ concat chunks ≡ f
    → length p < length f
    → 0 < length p
    → AllFit chunks
    → recv_loop (map some chunks) (length f) p ≡ ok f
unfolding recv_loop
collect_more f p [] small e h some_p fit = absurd (omega (arith, ap length e, length-append p []))
collect_more f p (c ∷ cs) small e h some_p (hc, hs, fit) =
    let n = length f in
    let back = drop (length c) (filled socketbuffer_size 0) in
    let lp = length-append p (c ++ concat cs) in
    let lc = length-append c (concat cs) in
    let lpc = length-append p c in
    let lf = ap length e in
    rw (positive-ne (length c) hc, into_buffer c hs, positive-ne n (omega arith))
      (elim (Bool-cases (ltb ((length p + length c) % 2 ^ 64) n)) [
        | inl more ↦
            let less : length p + length c < n = ground arith in
            rw (more, read_at-front c back (length c) refl)
              (collect_more f (p ++ c) cs small (append_assoc p c (concat cs) ∙ e) (omega arith)
                (omega arith) fit)
        | inr last ↦
            let none_left : length (concat cs) ≡ 0 = ground arith in
            let remain : (n + 2 ^ 64 - length p) % 2 ^ 64 ≡ length c = omega arith in
            rw (last, read_at-front c back ((n + 2 ^ 64 - length p) % 2 ^ 64) remain)
              (ap ok (
                ap (λ r. p ++ r)
                  (sym (append-nil c) ∙ ap (λ r. c ++ r) (sym (eq-nil (concat cs) none_left)))
                ∙ e))
      ])

-- A response frame that comes in pieces of at most one buffer, the first with the whole length field:
-- the loop ends, and what it collected is the frame, whatever the pieces are.
pub recv_loop-frame :
    (f c : List ℕ) (cs : List (List ℕ))
    → IsFrame f
    → c ++ concat cs ≡ f
    → 4 ≤ length c
    → AllFit (c ∷ cs)
    → recv_loop (map some (c ∷ cs)) 0 [] ≡ ok f
unfolding recv_loop
recv_loop-frame f c cs frame e header (hc, hs, fit) =
    let n = length f in
    let back = drop (length c) (filled socketbuffer_size 0) in
    let lc = length-append c (concat cs) in
    let lf = ap length e in
    let small = frame.small in
    let known : of_le c ≡ n =
      sym (of_le-append c (concat cs) header) ∙ ap of_le e ∙ frame.announced in
    rw (positive-ne (length c) hc, into_buffer c hs, read_word-front c back header, known)
      (elim (Bool-cases (ltb ((0 + length c) % 2 ^ 64) n)) [
        | inl more ↦
            let less : length c < n = ground arith in
            rw (more, read_at-front c back (length c) refl)
              (collect_more f c cs small e less (omega arith) fit)
        | inr last ↦
            let none_left : length (concat cs) ≡ 0 = ground arith in
            let remain : (n + 2 ^ 64 - 0) % 2 ^ 64 ≡ length c = omega arith in
            rw (last, read_at-front c back ((n + 2 ^ 64 - 0) % 2 ^ 64) remain)
              (ap ok
                (sym (append-nil c) ∙ ap (λ r. c ++ r) (sym (eq-nil (concat cs) none_left)) ∙ e))
      ])

broken_more :
    (n : ℕ) (p : List ℕ) (chunks : List (List ℕ)) (rest : List (Option (List ℕ)))
    → n < 2 ^ 31
    → length p + length (concat chunks) < n
    → AllFit chunks
    → recv_loop (map some chunks ++ some [] ∷ rest) n p ≡ ok (p ++ concat chunks)
unfolding recv_loop
broken_more n p [] rest small less fit = ap ok (sym (append-nil p))
broken_more n p (c ∷ cs) rest small less (hc, hs, fit) =
    let back = drop (length c) (filled socketbuffer_size 0) in
    let lc = length-append c (concat cs) in
    let lpc = length-append p c in
    let more : ltb ((length p + length c) % 2 ^ 64) n ≡ true = ground arith in
    rw
      (
        positive-ne (length c) hc,
        into_buffer c hs,
        positive-ne n (omega arith),
        more,
        read_at-front c back (length c) refl,
      )
      (broken_more n (p ++ c) cs rest small (omega arith) fit
        ∙ ap ok (append_assoc p c (concat cs)))

-- A connection that is closed while less than the announced length has come: the loop ends there, and
-- what it collected stands for the response.
pub recv_loop-cut :
    (c : List ℕ) (cs : List (List ℕ)) (rest : List (Option (List ℕ)))
    → 4 ≤ length c
    → of_le c < 2 ^ 31
    → length c + length (concat cs) < of_le c
    → AllFit (c ∷ cs)
    → recv_loop (map some (c ∷ cs) ++ some [] ∷ rest) 0 [] ≡ ok (c ++ concat cs)
unfolding recv_loop
recv_loop-cut c cs rest header small less (hc, hs, fit) =
    let back = drop (length c) (filled socketbuffer_size 0) in
    let more : ltb ((0 + length c) % 2 ^ 64) (of_le c) ≡ true = ground arith in
    rw
      (
        positive-ne (length c) hc,
        into_buffer c hs,
        read_word-front c back header,
        more,
        read_at-front c back (length c) refl,
      )
      (broken_more (of_le c) c cs rest small less fit)

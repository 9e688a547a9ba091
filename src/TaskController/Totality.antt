-- ===== src/TaskController/Totality.antt =====
-- That makeNewTask returns, or meets a length of 0.
use epoll_model.Prelude.{
  ℕ, zero, suc, ◌+◌, ◌-◌, ◌≤◌, ◌<◌, ◌^◌, ◌≡◌, ◌⊎◌, refl, sym, ap, ◌∙◌, inl, inr, none, some,
  Option-cases, List, [], ◌∷◌, ◌++◌, length, drop, lt→ltb, le→leb, length-append, ok, stuck, lookup,
  arith,
}
use epoll_model.Memory.{read_at, write_at, new_char}
use epoll_model.Memory.Copies.{read_at-prefix}
use epoll_model.HexChar.Encode.{AllBytes}
use epoll_model.TaskController.{
  TaskData, Controller, again, add_task, receive, make_new_task, on_recv,
}
use epoll_model.TaskController.AnyBytes.{
  AllPending, first_word, read_first, Given, Given-drop, Progress, returns, goes_on, loops,
}
use epoll_model.TaskController.AnyBytes.Steps.{first_Progress, more_Progress}

-- Somewhere in the first `len` bytes the four bytes from there on are the word 0.
abbrev pub MeetsZero : List ℕ → ℕ → Type 0
MeetsZero buf len = (p : ℕ) × (p < len) × (first_word (drop p buf) ≡ 0)

drop-nil : (n : ℕ) → drop {A = ℕ} n [] ≡ []
drop-nil zero = refl
drop-nil (suc n) = refl

drop-drop : (n p : ℕ) (xs : List ℕ) → drop p (drop n xs) ≡ drop (n + p) xs
drop-drop zero p xs = let e : 0 + p ≡ p = omega arith in rw e refl
drop-drop (suc n) p [] = drop-nil p ∙ sym (drop-nil (suc n + p))
drop-drop (suc n) p (x ∷ xs) =
    let e : suc n + p ≡ suc (n + p) = omega arith in rw e (drop-drop n p xs)

later_MeetsZero :
    (n : ℕ) (buf : List ℕ) (len : ℕ)
    → n < len
    → MeetsZero (drop n buf) (len - n)
    → MeetsZero buf len
later_MeetsZero n buf len h (p, k, z) =
    (n + p, omega arith, ap first_word (sym (drop-drop n p buf)) ∙ z)

-- The length 0: the same bytes are received again.
zero_again :
    (ctl : Controller) (client : ℕ) (buf : List ℕ) (len : ℕ)
    → lookup client ctl.recv_list ≡ none
    → Given buf len
    → first_word buf ≡ 0
    → receive ctl client buf len
      ≡ ok (
          again
            (add_task ctl (record { client_id = client; databuf = []; len = 0; cur_len = 0 }))
            buf
            len)
unfolding receive add_task
zero_again ctl client buf len free g z =
    let word = read_first buf (omega (arith, g.behind, g.some_bytes)) in
    let read : read_at buf 0 0 ≡ ok [] = read_at-prefix buf 0 (omega arith) in
    let wrote : write_at (new_char 0) 0 [] ≡ ok [] = unfold write_at new_char in refl in
    let l0 : len - 0 ≡ len = omega arith in
    rw (free, receive, word, z, le→leb 0 len (omega arith))
      (rw (read, wrote, lt→ltb 0 len g.some_bytes, l0) refl)

zero_loop :
    (fuel : ℕ) (ctl : Controller) (client : ℕ) (buf : List ℕ) (len : ℕ)
    → lookup client ctl.recv_list ≡ none
    → Given buf len
    → first_word buf ≡ 0
    → make_new_task fuel ctl client buf len ≡ stuck
unfolding make_new_task add_task
zero_loop zero ctl client buf len free g z = refl
zero_loop (suc fuel) ctl client buf len free g z =
    rw (zero_again ctl client buf len free g z)
      (zero_loop fuel (add_task ctl _) client buf len free g z)

one_Progress :
    (ctl : Controller) (client : ℕ) (buf : List ℕ) (len : ℕ)
    → AllPending ctl.recv_list
    → Given buf len
    → ((t : TaskData) → lookup client ctl.recv_list ≡ some t → t.len + len < 2 ^ 32)
    → Progress ctl client buf len
one_Progress ctl client buf len a g small = elim (Option-cases (lookup client ctl.recv_list)) [
  | inl free ↦ first_Progress ctl client buf len a g free
  | inr (t, held) ↦ more_Progress ctl client t buf len a g held (small t held)
]

make_new_task-total :
    (fuel : ℕ) (ctl : Controller) (client : ℕ) (buf : List ℕ) (len : ℕ)
    → AllPending ctl.recv_list
    → Given buf len
    → ((t : TaskData) → lookup client ctl.recv_list ≡ some t → t.len + len < 2 ^ 32)
    → len < fuel
    → ((ctl' : Controller) × (make_new_task fuel ctl client buf len ≡ ok ctl')
        × AllPending ctl'.recv_list)
      ⊎ (MeetsZero buf len × (make_new_task fuel ctl client buf len ≡ stuck))
unfolding make_new_task
make_new_task-total zero ctl client buf len a g small enough = absurd (omega arith)
make_new_task-total (suc fuel) ctl client buf len a g small enough =
    elim (one_Progress ctl client buf len a g small) [
      | returns ctl' e a' ↦ inl (ctl', rw e refl, a')
      | loops free z ↦ inr ((0, g.some_bytes, z), zero_loop (suc fuel) ctl client buf len free g z)
      | goes_on ctl' n e a' free some_bytes fewer ↦
          elim (make_new_task-total fuel ctl' client (drop n buf) (len - n) a'
            (Given-drop n buf len g fewer) (λ t held. absurd (cc (free, held))) (omega arith)) [
              | inl (ctl'', run, a'') ↦ inl (ctl'', rw e run, a'')
              | inr (zero_at, run) ↦ inr (later_MeetsZero n buf len fewer zero_at, rw e run)
            ]
    ]

-- onRecv on whatever bytes a client sends, with at least three bytes of the buffer behind them, where
-- every entry of the map lacks bytes and has memory of its announced length, which is below 2^32, and that
-- of this client, if it has one, is below 2^32 less what comes: no byte outside an object is touched, and
-- either it returns and the entries are again such, or four zero bytes begin somewhere in what came, which
-- it takes for a length and calls itself for ever.
pub on_recv-total :
    (ctl : Controller) (client : ℕ) (c junk : List ℕ)
    → AllPending ctl.recv_list
    → AllBytes (c ++ junk)
    → 0 < length c
    → length c < 2 ^ 31
    → 3 ≤ length junk
    → ((t : TaskData) → lookup client ctl.recv_list ≡ some t → t.len + length c < 2 ^ 32)
    → ((ctl' : Controller) × (on_recv ctl client (c ++ junk) (length c) ≡ ok ctl')
        × AllPending ctl'.recv_list)
      ⊎ (MeetsZero (c ++ junk) (length c) × (on_recv ctl client (c ++ junk) (length c) ≡ stuck))
unfolding on_recv
on_recv-total ctl client c junk a bytes some_bytes short room small =
    make_new_task-total (suc (length c)) ctl client (c ++ junk) (length c) a
      (record {
        some_bytes = some_bytes;
        behind = omega (arith, length-append c junk);
        short = short;
        bytes = bytes;
      })
      small (omega arith)

-- ===== src/TaskController/AnyBytes.antt =====
-- makeNewTask on whatever bytes a client sends.
pub mod Steps
use epoll_model.Prelude.{
  ℕ, zero, suc, ◌+◌, ◌-◌, ◌≤◌, ◌<◌, ◌^◌, ◌≡◌, refl, ◌∙◌, Bool-cases, inl, inr, none, some, List, [],
  ◌∷◌, ◌++◌, length, take, drop, ltb, lt→ltb, le→ltb_false, le→leb, lt→leb_false, length-take,
  length-drop, if◌then◌else◌, ok, ◌==◌, ==_refl, lookup, insert, erase, lookup-insert, lookup-erase,
  arith,
}
use native.Mathlib.Decide.{dec_le, dec_lt}
use epoll_model.Memory.{u32, of_le, read_at, write_at, read_word, new_char}
use epoll_model.Memory.Copies.{read_at-prefix, write_at-ok, length-new_char}
use epoll_model.HexChar.Encode.{AllBytes}
use epoll_model.TaskController.{
  TaskData, Controller, return, again, add_task, first_whole, first_part, first_bytes, append_bytes,
  complete, more_bytes, receive,
}

-- A request that waits lacks bytes, and its memory has the announced length.
pub record IsPending (t : TaskData) : Type 0 where
  pub lacks : t.cur_len < t.len
  pub room : length t.databuf ≡ t.len
  pub small : t.len < 2 ^ 32

abbrev pub AllPending : List (ℕ × TaskData) → Type 0
AllPending m = (k : ℕ) (t : TaskData) → lookup k m ≡ some t → IsPending t

AllPending-insert :
    (client : ℕ) (t : TaskData) (m : List (ℕ × TaskData))
    → AllPending m
    → IsPending t
    → AllPending (insert client t m)
AllPending-insert client t m a p k u e = elim (Bool-cases (client == k)) [
  | inl same ↦
      let q : some t ≡ some u = rw (lookup-insert client k t m, same) at e in
      let r : t ≡ u = cc in rw (← r) p
  | inr other ↦ a k u (rw (lookup-insert client k t m, other) at e)
]

AllPending-erase :
    (client : ℕ) (m : List (ℕ × TaskData)) → AllPending m → AllPending (erase client m)
AllPending-erase client m a k u e = elim (Bool-cases (client == k)) [
  | inl same ↦
      let q : none ≡ some u = rw (lookup-erase {V = TaskData} client k m, same) at e in
      absurd (cc (q))
  | inr other ↦ a k u (rw (lookup-erase {V = TaskData} client k m, other) at e)
]

of_le-lt : (xs : List ℕ) → AllBytes xs → of_le xs < 2 ^ 32
unfolding of_le
of_le-lt (a ∷ b ∷ c ∷ d ∷ rest) h = omega arith
of_le-lt [] h = omega arith
of_le-lt (a ∷ []) h = omega arith
of_le-lt (a ∷ b ∷ []) h = omega arith
of_le-lt (a ∷ b ∷ c ∷ []) h = omega arith

AllBytes-take : (n : ℕ) (xs : List ℕ) → AllBytes xs → AllBytes (take n xs)
AllBytes-take zero xs h = tt
AllBytes-take (suc n) [] h = tt
AllBytes-take (suc n) (x ∷ xs) h = (h.0, AllBytes-take n xs h.1)

AllBytes-drop : (n : ℕ) (xs : List ℕ) → AllBytes xs → AllBytes (drop n xs)
AllBytes-drop zero xs h = h
AllBytes-drop (suc n) [] h = tt
AllBytes-drop (suc n) (x ∷ xs) h = AllBytes-drop n xs h.1

-- The first word of a buffer.
abbrev pub first_word : List ℕ → ℕ
first_word buf = of_le (take 4 buf)

pub read_first : (buf : List ℕ) → 4 ≤ length buf → read_word buf 0 ≡ ok (first_word buf)
unfolding read_word
read_first buf h = rw (read_at-prefix buf 4 h) refl

-- What one activation may be given: received bytes, with at least three more bytes of memory behind.
pub record Given (buf : List ℕ) (len : ℕ) : Type 0 where
  pub some_bytes : 0 < len
  pub behind : len + 3 ≤ length buf
  pub short : len < 2 ^ 31
  pub bytes : AllBytes buf

pub Given-drop :
    (n : ℕ) (buf : List ℕ) (len : ℕ) → Given buf len → n < len → Given (drop n buf) (len - n)
Given-drop n buf len g h = record {
  some_bytes = omega arith;
  behind = omega (arith, g.behind, length-drop n buf);
  short = omega (arith, g.short);
  bytes = AllBytes-drop n buf g.bytes;
}

-- What one activation does: it returns, or goes on with the rest of the bytes and no entry; the entries
-- stay well formed.
pub data Progress (ctl : Controller) (client : ℕ) (buf : List ℕ) (len : ℕ) : Type 0 where
  returns :
      (ctl' : Controller)
      → receive ctl client buf len ≡ ok (return ctl')
      → AllPending ctl'.recv_list
      → Progress ctl client buf len
  goes_on :
      (ctl' : Controller) (n : ℕ)
      → receive ctl client buf len ≡ ok (again ctl' (drop n buf) (len - n))
      → AllPending ctl'.recv_list
      → lookup client ctl'.recv_list ≡ none
      → 0 < n
      → n < len
      → Progress ctl client buf len
  loops : lookup client ctl.recv_list ≡ none → first_word buf ≡ 0 → Progress ctl client buf len

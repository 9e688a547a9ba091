-- ===== src/System/Process.antt =====
-- What the processing of tasks does to the socket: onTaskProcessor for any task whose length is true.
use epoll_model.Prelude.{
  ℕ, zero, suc, ◌<◌, ◌≤◌, ◌≡◌, refl, sym, ap, ◌∙◌, inl, inr, Option, none, some, Option-cases, List,
  [], ◌∷◌, map, ◌++◌, append-nil, append_assoc, length, get_elem?, ok, arith,
}
use epoll_model.Protocol.{Statics, get_instance}
use epoll_model.Socket.{Socket}
use epoll_model.Socket.Queues.{SameSetup}
use epoll_model.Socket.Ops.{queued}
use epoll_model.TaskController.{TaskData}
use epoll_model.TaskController.Stream.{View, view}
use epoll_model.TaskController.Processing.{on_task_processor}
use epoll_model.TaskController.Processing.Answers.{answer_of, IsWhole, on_task_processor_lem}
use epoll_model.ThreadPool
use epoll_model.ThreadPool.{pops, processes}
use epoll_model.ThreadPool.Given.{EventsGiven}
use epoll_model.System.{process_all}

-- What events that process tasks add to the queue of client `k`.
abbrev pub answer_at : ℕ → Option View → List (List ℕ)
answer_at k none = []
answer_at k (some v) = answer_of k v

abbrev pub answers : ℕ → List View → List ThreadPool.Event → List (List ℕ)
answers k views [] = []
answers k views (pops task ∷ es) = answers k views es
answers k views (processes task ∷ es) =
    answer_at k (get_elem? views task.param) ++ answers k views es

abbrev pub AllWhole : List View → Type 0
AllWhole [] = Unit {0}
AllWhole (v ∷ vs) = IsWhole v × AllWhole vs

AllWhole-get :
    (vs : List View) (i : ℕ) (v : View) → AllWhole vs → get_elem? vs i ≡ some v → IsWhole v
AllWhole-get [] i v a e = cc
AllWhole-get (u ∷ vs) zero v a e = let q : u ≡ v = cc in rw q at a.0
AllWhole-get (u ∷ vs) (suc i) v a e = AllWhole-get vs i v a.1 e

get-view-none :
    (ts : List TaskData) (i : ℕ) → get_elem? ts i ≡ none → get_elem? (map view ts) i ≡ none
get-view-none [] i e = refl
get-view-none (t ∷ ts) zero e = cc
get-view-none (t ∷ ts) (suc i) e = get-view-none ts i e

get-view-some :
    (ts : List TaskData) (i : ℕ) (t : TaskData)
    → get_elem? ts i ≡ some t
    → get_elem? (map view ts) i ≡ some (view t)
get-view-some [] i t e = cc
get-view-some (u ∷ ts) zero t e = let q : u ≡ t = cc in rw q refl
get-view-some (u ∷ ts) (suc i) t e = get-view-some ts i t e

process_at :
    (added : List TaskData) (s : Socket) (p : Statics) (i : ℕ)
    → AllWhole (map view added)
    → (s' : Socket) × (p' : Statics) × (on_task_processor (some s) p (get_elem? added i)
        ≡ ok (some s', p'))
      × SameSetup s s'
      × ((k : ℕ) → queued k s' ≡ queued k s ++ answer_at k (get_elem? (map view added) i))
unfolding on_task_processor
process_at added s p i a = elim (Option-cases (get_elem? added i)) [
  | inl e ↦ (
    s,
    p,
    rw (e, on_task_processor) refl,
    (refl, refl),
    λ k. rw (get-view-none added i e) (sym (append-nil (queued k s))),
  )
  | inr (t, e) ↦
      let ev = get-view-some added i t e in
      let (s', run, same, q) =
        on_task_processor_lem s p t (AllWhole-get (map view added) i (view t) a ev) in
      (s', get_instance p, rw e run, same, λ k. rw ev (q k))
]

pub SameSetup-trans : (s t u : Socket) → SameSetup s t → SameSetup t u → SameSetup s u
SameSetup-trans s t u a b = (b.0 ∙ a.0, b.1 ∙ a.1)

-- Where every task states its true length, the processing of any events returns, leaves what the
-- threads of the socket depend on, and adds the answers to the queues, in the order of processing.
pub process_all_lem :
    (added : List TaskData) (es : List ThreadPool.Event) (s : Socket) (p : Statics)
    → AllWhole (map view added)
    → (s' : Socket) × (p' : Statics) × (process_all added s p es ≡ ok (s', p'))
      × SameSetup s s'
      × ((k : ℕ) → queued k s' ≡ queued k s ++ answers k (map view added) es)
unfolding process_all
process_all_lem added [] s p a = (s, p, refl, (refl, refl), λ k. sym (append-nil (queued k s)))
process_all_lem added (pops task ∷ es) s p a = process_all_lem added es s p a
process_all_lem added (processes task ∷ es) s p a =
    let views = map view added in
    let (s1, p1, run1, same1, q1) = process_at added s p task.param a in
    let (s2, p2, run2, same2, q2) = process_all_lem added es s1 p1 a in
    (
      s2,
      p2,
      rw (run1, run2) refl,
      SameSetup-trans s s1 s2 same1 same2,
      λ k.
          q2 k
          ∙ ap (λ (x : List (List ℕ)). x ++ answers k (map view added) es) (q1 k)
          ∙ append_assoc (queued k s) (answer_at k (get_elem? views task.param))
              (answers k views es),
    )

-- Tasks that come later change no answer.
get-append :
    {A : Type 0} (xs ys : List A) (i : ℕ) → i < length xs → get_elem? (xs ++ ys) i ≡ get_elem? xs i
get-append [] ys i h = absurd (omega arith)
get-append (x ∷ xs) ys zero h = refl
get-append (x ∷ xs) ys (suc i) h = get-append xs ys i (omega arith)

pub answers-later :
    (k n : ℕ) (views more : List View) (es : List ThreadPool.Event)
    → EventsGiven n es
    → n ≤ length views
    → answers k (views ++ more) es ≡ answers k views es
answers-later k n views more [] g h = refl
answers-later k n views more (pops task ∷ es) g h = answers-later k n views more es g h
answers-later k n views more (processes task ∷ es) g h =
    let known = g.0.known in
    rw (get-append views more task.param (omega arith), answers-later k n views more es g.1 h) refl

pub answers-append :
    (k : ℕ) (views : List View) (es fs : List ThreadPool.Event)
    → answers k views (es ++ fs) ≡ answers k views es ++ answers k views fs
answers-append k views [] fs = refl
answers-append k views (pops task ∷ es) fs = answers-append k views es fs
answers-append k views (processes task ∷ es) fs =
    ap (◌++◌ (answer_at k (get_elem? views task.param))) (answers-append k views es fs)
    ∙ sym (
        append_assoc (answer_at k (get_elem? views task.param)) (answers k views es)
          (answers k views fs))

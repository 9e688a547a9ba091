-- ===== src/System/Simulation.antt =====
-- Every move of the server is a run of the abstract desk.
use mathlib.Core.Quot
use epoll_model.Prelude.{
  ℕ, ◌+◌, ◌≤◌, ◌<◌, ◌≡◌, refl, sym, ap, ◌∙◌, Bool, true, inl, inr, Bool-cases, List, [], ◌++◌,
  append-nil, map, length, length-append, ltb, ok, ok_injective, first_ok, arith,
}
use epoll_model.Prelude.Multisets.{count-append}
use epoll_model.Socket.{Socket, Event, AcceptAnswers, send_event, listen_event}
use epoll_model.Socket.Ops.{queued, sent}
use epoll_model.Socket.Queues.{writable_step}
use epoll_model.Socket.Events.{outputs, outputs-listen, send_event-calls, listen_event-effect}
use epoll_model.Protocol.{Statics}
use epoll_model.Socket.Receiving.{recv_event}
use epoll_model.TaskController.{Controller}
use epoll_model.TaskController.Interleaving.{listener}
use epoll_model.TaskController.Stream.{View, view}
use epoll_model.ThreadPool
use epoll_model.ThreadPool.{pops, processes, turn}
use epoll_model.ThreadPool.Custody.{act-held, add-held}
use epoll_model.ThreadPool.Given.{turn-PoolGiven}
use epoll_model.System.{
  System, Move, After, receives, hands_over, works, sends_for, listens_for, move, give_task,
}
use epoll_model.ThreadPool.Numbers.{done, count-done}
use epoll_model.System.Process.{answers, process_all_lem}
use epoll_model.System.Changes.{IsSound, length-view}
use epoll_model.System.Moves.{Goes, led_to}
use epoll_model.System.Desk.{SameWork, rests, delivers, forgets, Reach, here, one-Step}
use epoll_model.System.Batches.{answers_Reach, accepts_Reach}
use epoll_model.System.Refinement.{desk, to_do, count-to_do}

-- What a move does to the desk, told by the state and the calls that it leads to.
abbrev Simulates : System → After → Type 0
Simulates y r = Reach (desk y) (outputs r.1) (desk r.0)

receives_Reach :
    (y : System) (c : Controller) (more : List View)
    → y.handed ≤ length (map view y.controller.added)
    → map view c.added ≡ map view y.controller.added ++ more
    → Reach (desk y) [] (desk (record y { controller = c }))
receives_Reach y c more made grown =
    let y' : System = record y { controller = c } in
    let vs = map view y.controller.added in
    let n = length-view y.controller.added in
    let n' = length-view c.added in
    let longer : length c.added ≡ length y.controller.added + length more =
      omega (arith, n, n', ap length grown, length-append vs more) in
    accepts_Reach more (desk y) (desk y') (to_do y) (to_do y') grown refl refl
      (λ j. rw n (grind (arith, count-to_do j y, count-to_do j y', longer, made, n))) (λ k. refl)

gives_Reach :
    (y : System) (prompt : Bool)
    → y.handed < length y.controller.added
    → Reach (desk y) [] (desk (give_task y prompt))
unfolding give_task
gives_Reach y prompt h =
    let y' = give_task y prompt in
    one-Step (
      rests
        (record {
          requests = refl;
          pending = Quot.sound (λ j. grind (
            arith,
            count-to_do j y,
            count-to_do j y',
            add-held j y.pool (record { has_worker = true; param = y.handed }) prompt,
          ));
        })
        (λ k. refl))

works_Reach :
    (y : System) (i : ℕ) (s' : Socket) (p' : Statics)
    → IsSound y
    → let r = ThreadPool.act y.pool (turn i) in
      ((k : ℕ) → queued k s' ≡ queued k y.socket ++ answers k (map view y.controller.added) r.1)
      → Reach (desk y) [] (desk (record y { socket = s'; statics = p'; pool = r.0 }))
works_Reach y i s' p' s q =
    let r = ThreadPool.act y.pool (turn i) in
    let y' : System = record y { socket = s'; statics = p'; pool = r.0 } in
    let (_, processed) = turn-PoolGiven y.handed y.pool i s.given in
    answers_Reach r.1 y.handed (desk y) (desk y') (to_do y') processed s.made refl
      (Quot.sound (λ j. omega (
        arith,
        count-to_do j y,
        count-to_do j y',
        count-append j (done r.1) (to_do y'),
        count-done j y.handed r.1 processed,
        act-held j y.pool (turn i),
      )))
      refl q

sends_Reach :
    (y : System) (e : Event)
    → Simulates y (record y { socket = (send_event y.socket e).0 }, (send_event y.socket e).1, [])
sends_Reach y e =
    let r = send_event y.socket e in
    let work : SameWork (desk y) (desk (record y { socket = r.0 })) = record {
      requests = refl;
      pending = refl;
    } in
    let moved : (k : ℕ) → queued k y.socket ≡ sent k r.1 ++ queued k r.0 =
      λ k. sym (append-nil (queued k y.socket)) ∙ writable_step k y.socket e in
    elim (send_event-calls y.socket e) [
      | inl none_sent ↦ rw none_sent (one-Step (rests work (λ k. sym (rw none_sent at (moved k)))))
      | inr (bytes, one) ↦
          rw one (one-Step (delivers e.fd bytes work (λ k. rw (one, append-nil) at (moved k))))
    ]

listens_Reach :
    (y : System) (e : Event) (a : AcceptAnswers)
    → Simulates y
        (record y { socket = (listen_event a y.socket e).0 }, (listen_event a y.socket e).1, [])
listens_Reach y e a =
    let r = listen_event a y.socket e in
    let work : SameWork (desk y) (desk (record y { socket = r.0 })) = record {
      requests = refl;
      pending = refl;
    } in
    rw (outputs-listen a y.socket e) (elim (listen_event-effect a y.socket e) [
      | inl same ↦ one-Step (rests work same)
      | inr (others, gone) ↦ one-Step (forgets e.fd work others gone)
    ])

-- A move of a sound server is what the desk may do in some steps, and delivers what the desk delivers.
pub move_Reach :
    (y : System) (m : Move) {ctl : Controller} (g : Goes y m ctl)
    → IsSound y
    → Reach (desk y) (outputs g.calls) (desk g.after)
unfolding move
move_Reach y (receives e r) g s =
    let (c, run, last) =
      first_ok (recv_event listener y.socket y.controller e r)
        (λ c. ok (record y { controller = c }, [], [])) (g.after, g.calls, g.events) g.goes in
    let y' : System = record y { controller = c } in
    let same = ok_injective (y', [], []) (g.after, g.calls, g.events) last in
    let (more, grown) = (g.changes 0 0).grows in
    let grown' : map view c.added ≡ map view y.controller.added ++ more =
      ap (λ (a : After). map view a.0.controller.added) same ∙ grown in
    led_to (Simulates y) y (receives e r) g (y', [], []) (rw run refl)
      (receives_Reach y c more (omega (arith, s.made)) grown')
move_Reach y (hands_over prompt) g s =
    elim (Bool-cases (ltb y.handed (length y.controller.added))) [
      | inl more ↦
          led_to (Simulates y) y (hands_over prompt) g (give_task y prompt, [], []) (rw more refl)
            (gives_Reach y prompt (ground (arith, more)))
      | inr none_left ↦
          led_to (Simulates y) y (hands_over prompt) g (y, [], []) (rw none_left refl) here
    ]
move_Reach y (works i) g s =
    let r = ThreadPool.act y.pool (turn i) in
    let (s', p', run, _, q) = process_all_lem y.controller.added r.1 y.socket y.statics s.whole in
    led_to (Simulates y) y (works i) g (record y { socket = s'; statics = p'; pool = r.0 }, [], r.1)
      (rw run refl) (works_Reach y i s' p' s q)
move_Reach y (sends_for e) g s = led_to (Simulates y) y (sends_for e) g _ refl (sends_Reach y e)
move_Reach y (listens_for e a) g s =
    led_to (Simulates y) y (listens_for e a) g _ refl (listens_Reach y e a)

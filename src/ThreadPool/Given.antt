-- ===== src/ThreadPool/Given.antt =====
-- Only tasks that the pool was given are in its queue, in the hands of a worker, or processed.
use epoll_model.Prelude.{
  ℕ, ◌≤◌, ◌<◌, ◌≡◌, refl, Bool, true, false, Bool-cases, inl, inr, Option, none, some, Option-cases,
  List, [], ◌∷◌, ◌++◌, get_elem?, ltb, arith,
}
use epoll_model.ThreadPool.{
  ThreadPool, ThreadTask, WgThread, Pc, testing, fetching, fetched, working, deciding, Event, pops,
  processes, adds, turn, new_thread, create_new_thread, add_task, has_idle, fetch, decide,
  thread_step, act,
}
use epoll_model.ThreadPool.Totals.{AllThreads, AllThreads-replace, AllThreads-get, AllThreads-snoc}
use epoll_model.ThreadPool.Queue.{add_task-tasks, step-threads}

module _ (n : ℕ) where
  -- A task of those with the numbers below `n`, and only such in the queue, in a hand, in events.
  pub record IsGiven (task : ThreadTask) : Type 0 where
    pub worker : task.has_worker ≡ true
    pub known : task.param < n

  abbrev pub AllGiven : List (Option ThreadTask) → Type 0
  AllGiven [] = Unit {0}
  AllGiven (none ∷ tasks) = AllGiven tasks
  AllGiven (some task ∷ tasks) = IsGiven task × AllGiven tasks

  abbrev pub InHand : Pc → Type 0
  InHand (fetched (some task)) = IsGiven task
  InHand (working task) = IsGiven task
  InHand _ = Unit {0}

  abbrev pub HandGiven : WgThread → Type 0
  HandGiven t = InHand t.pc

  abbrev pub EventsGiven : List Event → Type 0
  EventsGiven [] = Unit {0}
  EventsGiven (pops task ∷ es) = EventsGiven es
  EventsGiven (processes task ∷ es) = IsGiven task × EventsGiven es

  pub record PoolGiven (p : ThreadPool) : Type 0 where
    pub queue : AllGiven p.tasks
    pub hands : AllThreads HandGiven p.threads

  AllGiven-snoc :
      (tasks : List (Option ThreadTask)) (task : ThreadTask)
      → AllGiven tasks
      → IsGiven task
      → AllGiven (tasks ++ some task ∷ [])
  AllGiven-snoc [] task a g = (g, tt)
  AllGiven-snoc (none ∷ tasks) task a g = AllGiven-snoc tasks task a g
  AllGiven-snoc (some u ∷ tasks) task a g = (a.0, AllGiven-snoc tasks task a.1 g)

  record Handles (r : ThreadPool × WgThread × List Event) : Type 0 where
    queue : AllGiven r.0.tasks
    hand : InHand r.1.pc
    events : EventsGiven r.2

  fetch-Handles :
      (p : ThreadPool) (t : WgThread) (tasks : List (Option ThreadTask))
      → AllGiven p.tasks
      → AllGiven tasks
      → Handles (fetch p t tasks)
  unfolding fetch
  fetch-Handles p t [] q a = record { queue = q; hand = tt; events = tt }
  fetch-Handles p t (none ∷ rest) q a = record { queue = a; hand = tt; events = tt }
  fetch-Handles p t (some task ∷ rest) q a = record { queue = a.1; hand = a.0; events = tt }

  step-Handles :
      (pc : Pc) (p : ThreadPool) (t : WgThread)
      → AllGiven p.tasks
      → InHand pc
      → Handles (thread_step pc p t)
  unfolding thread_step decide
  step-Handles fetching p t q h = fetch-Handles p t p.tasks q q
  step-Handles (fetched none) p t q h = record { queue = q; hand = tt; events = tt }
  step-Handles (fetched (some task)) p t q h =
      rw h.worker
        (record { queue = q; hand = record { worker = refl; known = h.known }; events = tt })
  step-Handles (working task) p t q h = record { queue = q; hand = tt; events = (h, tt) }
  step-Handles deciding p t q h = ground arith
  step-Handles testing p t q h = ground arith
  step-Handles pc p t q h = record { queue = q; hand = tt; events = tt }

  new_thread-HandGiven : (prompt : Bool) → HandGiven (new_thread prompt)
  new_thread-HandGiven true = tt
  new_thread-HandGiven false = tt

  add_task-hands :
      (p : ThreadPool) (task : Option ThreadTask) (prompt : Bool)
      → AllThreads HandGiven p.threads
      → AllThreads HandGiven (add_task p task prompt).0.threads
  unfolding add_task
  add_task-hands p task prompt a =
      let more =
        AllThreads-snoc HandGiven p.threads (new_thread prompt) a (new_thread-HandGiven prompt) in
      elim (Bool-cases (ltb p.valid_thread_nums p.max_num)) [
        | inl room ↦ rw room (elim (Bool-cases (has_idle p.threads)) [
          | inl idle ↦ rw idle a
          | inr busy ↦ rw (busy, create_new_thread) more
        ])
        | inr full ↦ rw full a
      ]

  pub EventsGiven-append :
      (es fs : List Event) → EventsGiven es → EventsGiven fs → EventsGiven (es ++ fs)
  EventsGiven-append [] fs g h = h
  EventsGiven-append (pops task ∷ es) fs g h = EventsGiven-append es fs g h
  EventsGiven-append (processes task ∷ es) fs g h = (g.0, EventsGiven-append es fs g.1 h)

  pub add-PoolGiven :
      (p : ThreadPool) (task : ThreadTask) (prompt : Bool)
      → PoolGiven p
      → IsGiven task
      → PoolGiven (act p (adds (some task) prompt)).0
  unfolding act
  add-PoolGiven p task prompt g h = record {
    queue = rw (add_task-tasks p (some task) prompt) (AllGiven-snoc p.tasks task g.queue h);
    hands = add_task-hands p (some task) prompt g.hands;
  }

  pub turn-PoolGiven :
      (p : ThreadPool) (i : ℕ)
      → PoolGiven p
      → PoolGiven (act p (turn i)).0 × EventsGiven (act p (turn i)).1
  unfolding act
  turn-PoolGiven p i g = elim (Option-cases (get_elem? p.threads i)) [
    | inl e ↦ rw (e, act) (g, tt)
    | inr (t, e) ↦
        let r = thread_step t.pc p t in
        let h = step-Handles t.pc p t g.queue (AllThreads-get HandGiven i p.threads g.hands e) in
        rw (e, act)
          (
            record {
              queue = h.queue;
              hands =
                  rw (step-threads t.pc p t)
                    (AllThreads-replace HandGiven i p.threads r.1 g.hands h.hand);
            },
            h.events,
          )
  ]

-- With more tasks given, those given before are still of them.
module _ (n m : ℕ) (h : n ≤ m) where
  IsGiven-mono : (task : ThreadTask) → IsGiven n task → IsGiven m task
  IsGiven-mono task g = let k = g.known in record { worker = g.worker; known = omega arith }

  AllGiven-mono : (tasks : List (Option ThreadTask)) → AllGiven n tasks → AllGiven m tasks
  AllGiven-mono [] a = tt
  AllGiven-mono (none ∷ tasks) a = AllGiven-mono tasks a
  AllGiven-mono (some task ∷ tasks) a = (IsGiven-mono task a.0, AllGiven-mono tasks a.1)

  InHand-mono : (pc : Pc) → InHand n pc → InHand m pc
  InHand-mono (fetched (some task)) g = IsGiven-mono task g
  InHand-mono (working task) g = IsGiven-mono task g
  InHand-mono (fetched none) g = tt
  InHand-mono _ g = tt

  hands_mono : (ts : List WgThread) → AllThreads (HandGiven n) ts → AllThreads (HandGiven m) ts
  hands_mono [] a = tt
  hands_mono (t ∷ ts) a = (InHand-mono t.pc a.0, hands_mono ts a.1)

  pub EventsGiven-mono : (es : List Event) → EventsGiven n es → EventsGiven m es
  EventsGiven-mono [] g = tt
  EventsGiven-mono (pops task ∷ es) g = EventsGiven-mono es g
  EventsGiven-mono (processes task ∷ es) g = (IsGiven-mono task g.0, EventsGiven-mono es g.1)

  pub PoolGiven-mono : (p : ThreadPool) → PoolGiven n p → PoolGiven m p
  PoolGiven-mono p g = record {
    queue = AllGiven-mono p.tasks g.queue;
    hands = hands_mono p.threads g.hands;
  }

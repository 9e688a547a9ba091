-- ===== src/Socket/Listening.antt =====
-- socketBase::listen on each of its branches.
use epoll_model.Prelude.{
  ◌≡◌, ◌⊎◌, refl, inl, inr, Bool, true, false, Bool-cases, List, [], ◌∷◌, ◌++◌, if◌then◌else◌, ℤ,
  pos, minus_one, is_positive, eq_ℤ,
}
use epoll_model.Socket.{
  Socket, ListenAnswers, Call, listens, creates_epoll, adds, starts_threads, listen,
  epoll_event_size,
}

-- The calls that set the socket up, in their order, each with what the kernel answers to it.
abbrev pub setup : ListenAnswers → ℤ → Socket → List (Call × ℤ)
setup a backlog s =
    (listens s.socket backlog, a.listened)
    ∷ (creates_epoll epoll_event_size, a.created)
    ∷ (adds a.created s.socket false, a.added)
    ∷ []

-- The calls up to the first to which the answer is -1, and that one.
unfoldable pub up_to_failure : List (Call × ℤ) → List Call
up_to_failure [] = []
up_to_failure ((c, r) ∷ cs) = c ∷ (if eq_ℤ r minus_one then [] else up_to_failure cs)

-- `listen` fails: on a socket that is not open it has made no call, and else the calls up to the first
-- that failed; it has started no threads.
pub record Fails (a : ListenAnswers) (backlog : ℤ) (s : Socket) (r : Socket × ℤ × List Call)
    : Type 0 where
  pub result : r.1 ≡ minus_one
  pub calls : r.2 ≡ (if is_positive s.socket then up_to_failure (setup a backlog s) else [])
  pub threads : r.0.has_threads ≡ s.has_threads

-- It succeeds: it has made all the calls, and has threads if it is to have them.
pub record Succeeds (a : ListenAnswers) (backlog : ℤ) (s : Socket) (r : Socket × ℤ × List Call)
    : Type 0 where
  pub result : r.1 ≡ pos 0
  pub calls :
      r.2
      ≡ up_to_failure (setup a backlog s) ++ (if s.multi_thread then starts_threads ∷ [] else [])
  pub threads : r.0.has_threads ≡ (if s.multi_thread then true else s.has_threads)
  pub epfd : r.0.epfd ≡ a.created

-- The socket is open, and none of the three calls answers -1.
abbrev pub all_well : ListenAnswers → Socket → Bool
all_well a s =
    if is_positive s.socket
    then (if eq_ℤ a.listened minus_one
        then false
        else if eq_ℤ a.created minus_one
        then false
        else if eq_ℤ a.added minus_one
        then false
        else true)
    else false

-- socketBase::listen succeeds where the socket is open and none of its three calls of the kernel answers
-- -1, and fails else: it makes the calls in their order up to the first that fails, none on a socket that
-- is not open, and starts its threads after all of them only.
pub listen_lem :
    (a : ListenAnswers) (backlog : ℤ) (s : Socket)
    → ((all_well a s ≡ true) × Succeeds a backlog s (listen a backlog s))
      ⊎ ((all_well a s ≡ false) × Fails a backlog s (listen a backlog s))
unfolding listen up_to_failure
listen_lem a backlog s = elim (Bool-cases (is_positive s.socket)) [
  | inr closed ↦
      rw closed (inr (refl, record { result = refl; calls = rw closed refl; threads = refl }))
  | inl opened ↦ rw opened (elim (Bool-cases (eq_ℤ a.listened minus_one)) [
    | inl bad ↦
        rw bad (inr (refl, record { result = refl; calls = rw (opened, bad) refl; threads = refl }))
    | inr heard ↦ rw heard (elim (Bool-cases (eq_ℤ a.created minus_one)) [
      | inl bad ↦ rw bad (
          inr
            (refl, record { result = refl; calls = rw (opened, heard, bad) refl; threads = refl }))
      | inr made ↦ rw made (elim (Bool-cases (eq_ℤ a.added minus_one)) [
        | inl bad ↦ rw bad (
            inr (
              refl,
              record { result = refl; calls = rw (opened, heard, made, bad) refl; threads = refl },
            ))
        | inr added ↦ rw added (elim (Bool-cases s.multi_thread) [
          | inl many ↦ rw many (
              inl (
                refl,
                record {
                  result = refl;
                  calls = rw (heard, made, added) refl;
                  threads = refl;
                  epfd = refl;
                },
              ))
          | inr one ↦ rw one (
              inl (
                refl,
                record {
                  result = refl;
                  calls = rw (heard, made, added) refl;
                  threads = refl;
                  epfd = refl;
                },
              ))
        ])
      ])
    ])
  ])
]

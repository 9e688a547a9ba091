-- ===== src/ThreadPool/Races.antt =====
-- Where the pool does not keep to its bounds.
pub mod Stranded
use epoll_model.Prelude.{
  ℕ, zero, suc, ◌+◌, ◌-◌, ◌^◌, ◌≤◌, ◌<◌, ◌≡◌, ◌≢◌, refl, sym, ap, ◌∙◌, Bool, true, false,
  Bool-cases, inl, inr, none, some, List, [], ◌∷◌, ◌++◌, length, length-append, get_elem?, leb,
  ◌==◌, if◌then◌else◌, ◌&&◌, not, arith,
}
use native.Mathlib.Decide.{dec_le}
use epoll_model.Prelude.{le→leb, lt→leb_false}
use epoll_model.ThreadPool.{
  ThreadPool, WgThread, Pc, counting, fetching, fetched, deciding, leaving, uncounting, gone, turn,
  u16, new_thread, lacking, create_new_thread, create_threads, init_task_pool, decide,
  need_release_task_thread, thread_step, replace, act, run, max_check_times,
}

length-create_threads :
    (n : ℕ) (p : ThreadPool) (prompt : Bool)
    → length (create_threads n p prompt).threads ≡ length p.threads + n
unfolding create_threads create_new_thread
length-create_threads zero p prompt = omega arith
length-create_threads (suc n) p prompt = omega (
  arith,
  length-create_threads n (record p { threads = p.threads ++ new_thread prompt ∷ [] }) prompt,
  length-append p.threads (new_thread prompt ∷ []),
)

-- `t` has been idle long enough, and stands before its decision.
pub record IsIdleLong (t : WgThread) : Type 0 where
  pub at_decision : t.pc ≡ deciding
  pub long : max_check_times ≤ t.free_time

-- A turn of a thread, where it is known.
turn_lem :
    (p : ThreadPool) (i : ℕ) (t : WgThread)
    → get_elem? p.threads i ≡ some t
    → (act p (turn i)).0
      ≡ (let r = thread_step t.pc p t in record r.0 { threads = replace i r.1 r.0.threads })
unfolding act
turn_lem p i t e = rw (e, act) refl

pub get-replace_self :
    (i : ℕ) (ts : List WgThread) (t u : WgThread)
    → get_elem? ts i ≡ some u
    → get_elem? (replace i t ts) i ≡ some t
unfolding replace
get-replace_self i [] t u e = cc
get-replace_self zero (x ∷ ts) t u e = refl
get-replace_self (suc i) (x ∷ ts) t u e = get-replace_self i ts t u e

pub get-replace_ne :
    (i j : ℕ) (ts : List WgThread) (t : WgThread)
    → i ≢ j
    → get_elem? (replace i t ts) j ≡ get_elem? ts j
unfolding replace
get-replace_ne i j [] t h = refl
get-replace_ne zero zero (x ∷ ts) t h = absurd (h refl)
get-replace_ne zero (suc j) (x ∷ ts) t h = refl
get-replace_ne (suc i) zero (x ∷ ts) t h = refl
get-replace_ne (suc i) (suc j) (x ∷ ts) t h = get-replace_ne i j ts t (λ e. h (ap suc e))

decided :
    (p : ThreadPool) (t : WgThread)
    → max_check_times ≤ t.free_time
    → p.min_num < p.valid_thread_nums
    → decide p t ≡ record t { pc = leaving }
unfolding decide need_release_task_thread
decided p t long over = ground arith

-- The decision of a thread that has been idle long enough, with more threads than the least number.
decides_to_leave :
    (p : ThreadPool) (i : ℕ) (t : WgThread)
    → get_elem? p.threads i ≡ some t
    → IsIdleLong t
    → p.min_num < p.valid_thread_nums
    → (act p (turn i)).0 ≡ record p { threads = replace i (record t { pc = leaving }) p.threads }
unfolding act thread_step
decides_to_leave p i t e h over = rw (e, act, h.at_decision, decided p t h.long over) refl

-- The last two steps of a thread: it lowers the counter.
leaves :
    (p : ThreadPool) (i : ℕ) (t : WgThread)
    → get_elem? p.threads i ≡ some t
    → t.pc ≡ leaving
    → (act (act p (turn i)).0 (turn i)).0 ≡ (
        let t3 : WgThread = record t { state = 3; pc = uncounting } in
        record p {
          valid_thread_nums = u16 (p.valid_thread_nums + 2 ^ 16 - 1);
          threads = replace i (record t3 { pc = gone }) (replace i t3 p.threads);
        })
unfolding act thread_step
leaves p i t e h =
    let t3 : WgThread = record t { state = 3; pc = uncounting } in
    let q : ThreadPool = record p { threads = replace i t3 p.threads } in
    let first : (act p (turn i)).0 ≡ q = rw (e, act, h) refl in
    let second : (act q (turn i)).0 ≡ record q {
      valid_thread_nums = u16 (p.valid_thread_nums + 2 ^ 16 - 1);
      threads = replace i (record t3 { pc = gone }) q.threads;
    } =
      rw (get-replace_self i p.threads t3 t e, act) refl in
    ap (λ (r : ThreadPool). (act r (turn i)).0) first ∙ second

-- needReleaseTaskThread and the decrement are two sections: whenever two threads that have been idle
-- long enough decide one after the other while one thread more than `min_num` is counted, both leave,
-- and the pool is left with one thread fewer than `min_num`, which is at least 1 and below 2^16 - 1.
pub run_below_min :
    (p : ThreadPool) (i j : ℕ) (t u : WgThread)
    → i ≢ j
    → get_elem? p.threads i ≡ some t
    → get_elem? p.threads j ≡ some u
    → IsIdleLong t
    → IsIdleLong u
    → p.valid_thread_nums ≡ p.min_num + 1
    → 1 ≤ p.min_num
    → p.min_num + 1 < 2 ^ 16
    → (run p (turn i ∷ turn j ∷ turn i ∷ turn i ∷ turn j ∷ turn j ∷ [])).0.valid_thread_nums + 1
      ≡ p.min_num
unfolding run
run_below_min p i j t u ne et eu ht hu v pos small =
    let t' : WgThread = record t { pc = leaving } in
    let u' : WgThread = record u { pc = leaving } in
    let p1 : ThreadPool = record p { threads = replace i t' p.threads } in
    let eu1 : get_elem? p1.threads j ≡ some u = get-replace_ne i j p.threads t' ne ∙ eu in
    let p2 : ThreadPool = record p1 { threads = replace j u' p1.threads } in
    let et2 : get_elem? p2.threads i ≡ some t' =
      get-replace_ne j i p1.threads u' (λ e. ne (sym e)) ∙ get-replace_self i p.threads t' t et in
    let d1 = decides_to_leave p i t et ht (omega arith) in
    let d2 = decides_to_leave p1 j u eu1 hu (omega arith) in
    let t3 : WgThread = record t' { state = 3; pc = uncounting } in
    let p4 : ThreadPool = record p2 {
      valid_thread_nums = u16 (p.valid_thread_nums + 2 ^ 16 - 1);
      threads = replace i (record t3 { pc = gone }) (replace i t3 p2.threads);
    } in
    let l1 = leaves p2 i t' et2 refl in
    let eu4 : get_elem? p4.threads j ≡ some u' =
      get-replace_ne i j (replace i t3 p2.threads) (record t3 { pc = gone }) ne
      ∙ get-replace_ne i j p2.threads t3 ne
      ∙ get-replace_self j p1.threads u' u eu1 in
    let l2 = leaves p4 j u' eu4 refl in
    let counter = λ (r : ThreadPool). r.valid_thread_nums in
    let two = λ (r : ThreadPool). (act (act r (turn j)).0 (turn j)).0 in
    let four = λ (r : ThreadPool). two (act (act r (turn i)).0 (turn i)).0 in
    let path =
      ap (λ (r : ThreadPool). counter (four (act r (turn j)).0)) d1
      ∙ ap (λ (r : ThreadPool). counter (four r)) d2
      ∙ ap (λ (r : ThreadPool). counter (two r)) l1
      ∙ ap counter l2 in
    omega (arith, path)

-- initTaskPool with a `minNum` below 2^16, on a pool of fewer than 2^16 threads: it fills the pool up to
-- `minNum`, but where there are more threads already, `minNum - m_threads.size()` wraps as an `unsigned
-- short`, and the pool is left with `minNum` + 2^16 threads.
pub init_task_pool-threads :
    (p : ThreadPool) (max_num min_num : ℕ) (prompt : Bool)
    → min_num < 2 ^ 16
    → length p.threads < 2 ^ 16
    → length (init_task_pool p max_num min_num prompt).0.threads
      ≡ (if leb (length p.threads) min_num then min_num else min_num + 2 ^ 16)
unfolding init_task_pool
init_task_pool-threads p max_num min_num prompt h k =
    let n = length p.threads in
    let start : ThreadPool = record p {
      tp_state = true;
      valid_thread_nums = 0;
      max_num = max_num;
      min_num = min_num;
    } in
    let made = length-create_threads (lacking min_num n) start prompt in
    elim (dec_le n min_num) [
      | yes few ↦ rw (le→leb n min_num few) (made ∙ omega arith)
      | no many ↦ rw (lt→leb_false n min_num (omega arith)) (made ∙ omega arith)
    ]

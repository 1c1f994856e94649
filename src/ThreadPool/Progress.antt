-- ===== src/ThreadPool/Progress.antt =====
-- What happens next in even-http/ps/core/thread_pool.cc.
use rpc.Common.{
  get_elem?-set, nat_beq_iff, ℕ, zero, suc, ◌+◌, ◌<◌, ◌≡◌, refl, ap, ◌-◌, true, false, some, List,
  [], ◌∷◌, ◌++◌, get_elem?, set, arith,
}
use rpc.ThreadPool.{
  Phase, outside, waiting, woken, busy, ended, ThreadPool, wake, claim, notify_one, wake_spuriously,
  op_wake, op_notify, op_spurious, op_claim, step, run, is_waiting,
}
use rpc.ThreadPool.Phases.{is_ended, count, count-set, positive_count, any_waiting-count}
use rpc.ThreadPool.Runs.{IsSound}

set_twice : (ws : List Phase) (i : ℕ) (a b : Phase) → set (set ws i a) i b ≡ set ws i b
set_twice [] i a b = refl
set_twice (w ∷ ws) zero a b = refl
set_twice (w ∷ ws) (suc i) a b = ap (◌∷◌ w) (set_twice ws i a b)

is_waiting-waiting : (w : Phase) → is_waiting w ≡ true → w ≡ waiting
is_waiting-waiting waiting e = refl
is_waiting-waiting outside e = absurd (ground arith)
is_waiting-waiting woken e = absurd (ground arith)
is_waiting-waiting (busy task) e = absurd (ground arith)
is_waiting-waiting ended e = absurd (ground arith)

-- In a sound pool whose notifying thread is not between a claim and its notification, when a task is
-- left unclaimed and a worker is idle, the notifying thread and that worker get the oldest task started, by three steps that nothing keeps them from.
pub next_task_starts :
    (p : ThreadPool)
    → IsSound p
    → p.claimed ≡ false
    → 0 < p.task_num
    → 0 < p.idle_thread_num
    → (i task : ℕ) × (rest : List ℕ) × (q : ThreadPool) × (p.task_queue ≡ task ∷ rest)
      × (run (op_claim ∷ op_notify i ∷ op_wake i ∷ []) p ≡ some q)
      × (q.started ≡ p.started ++ task ∷ [])
      × (q.task_queue ≡ rest)
unfolding run step claim notify_one wake
next_task_starts p s c t w =
    let (i, v, g, h) = positive_count is_waiting p.working_threads (omega (arith, s.idle)) in
    let here : get_elem? p.working_threads i ≡ some waiting =
      ground (arith, is_waiting-waiting v h) in
    go i here p.task_queue refl
  where
    go :
        (i : ℕ)
        → get_elem? p.working_threads i ≡ some waiting
        → (tasks : List ℕ) → p.task_queue ≡ tasks
        → (i' task : ℕ) × (rest : List ℕ) × (q : ThreadPool) × (p.task_queue ≡ task ∷ rest)
          × (run (op_claim ∷ op_notify i' ∷ op_wake i' ∷ []) p ≡ some q)
          × (q.started ≡ p.started ++ task ∷ [])
          × (q.task_queue ≡ rest)
    go i here [] e = absurd (ground (arith, s.queued))
    go i here (task ∷ rest) e =
        let a = any_waiting-count p.working_threads (ground (arith, s.idle)) in
        let q : ThreadPool = record p {
          idle_thread_num = p.idle_thread_num - 1;
          task_num = p.task_num - 1;
          claimed = false;
          task_queue = rest;
          started = p.started ++ task ∷ [];
          working_threads = set (set p.working_threads i woken) i (busy task);
        } in
        (
          i,
          task,
          rest,
          q,
          e,
          ground (
            arith,
            s.runs,
            get_elem?-set p.working_threads i i waiting woken here,
            nat_beq_iff i i,
          ),
          refl,
          refl,
        )

-- A wait that returns without a notification while no task is queued ends its worker, which is still
-- counted as idle.
pub wake_spuriously_ends :
    (p : ThreadPool) (i : ℕ)
    → IsSound p
    → p.claimed ≡ false
    → p.task_queue ≡ []
    → get_elem? p.working_threads i ≡ some waiting
    → (q : ThreadPool) × (run (op_spurious i ∷ op_wake i ∷ []) p ≡ some q)
      × (count is_ended q.working_threads ≡ 1)
      × (q.idle_thread_num ≡ count is_waiting q.working_threads + 1)
unfolding run step wake_spuriously wake
wake_spuriously_ends p i s c e here =
    let ws = p.working_threads in
    let q : ThreadPool = record p { working_threads = set (set ws i woken) i ended } in
    let twice = set_twice ws i woken ended in
    (
      q,
      ground (arith, get_elem?-set ws i i waiting woken here, nat_beq_iff i i),
      ground (arith, twice, s.nobody_ended, count-set is_ended ws i waiting ended here),
      ground (arith, twice, s.idle, count-set is_waiting ws i waiting ended here),
    )

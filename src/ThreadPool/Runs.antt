-- ===== src/ThreadPool/Runs.antt =====
-- Any interleaving of the threads of even-http/ps/core/thread_pool.cc, up to the destructor and but for
-- waits that return without a notification.
use rpc.Common.{
  ℕ, ◌+◌, ◌≡◌, refl, subst, Bool, true, false, some, List, [], ◌∷◌, ◌++◌, length, get_elem?, set,
  arith, Bool-cases, Option-cases, inl, inr, length-append, append_assoc,
}
use rpc.ThreadPool.{
  Phase, outside, waiting, woken, busy, ended, ThreadPool, init, check_room, push_task, enter, wake,
  finish, claim, notify_one, Op, op_check, op_push, op_enter, op_wake, op_finish, op_notify,
  op_spurious, op_claim, op_destroy, step, run, is_waiting, any_waiting,
}
use rpc.ThreadPool.Phases.{
  is_woken, is_ended, one_if, count, count-set, count-replicate, any_waiting-count,
}

abbrev pub is_ordinary : Op → Bool
is_ordinary (op_check task) = true
is_ordinary (op_push i) = true
is_ordinary (op_enter i) = true
is_ordinary (op_wake i) = true
is_ordinary (op_finish i) = true
is_ordinary (op_notify i) = true
is_ordinary (op_spurious i) = false
is_ordinary op_claim = true
is_ordinary op_destroy = false

abbrev pub AllOrdinary : List Op → Type 0
AllOrdinary [] = Unit
AllOrdinary (op ∷ ops) = (is_ordinary op ≡ true) × AllOrdinary ops

-- The idle workers are those that wait and are not promised a notification; each worker that is
-- notified has a task in the queue; no worker has ended; tasks start in the order in which they were
-- queued.
pub record IsSound (p : ThreadPool) : Type 0 where
  pub runs : p.running ≡ true
  pub idle : count is_waiting p.working_threads ≡ p.idle_thread_num + one_if p.claimed
  pub queued :
      length p.task_queue ≡ p.task_num + (one_if p.claimed + count is_woken p.working_threads)
  pub nobody_ended : count is_ended p.working_threads ≡ 0
  pub in_order : p.submitted ≡ p.started ++ p.task_queue

pub init-IsSound : (thread_num max_task_num : ℕ) → IsSound (init thread_num max_task_num)
init-IsSound n m = record {
  runs = refl;
  idle = ground (arith, count-replicate is_waiting n outside);
  queued = ground (arith, count-replicate is_woken n outside);
  nobody_ended = count-replicate is_ended n outside refl;
  in_order = refl;
}

check_room-IsSound :
    (task : ℕ) (p q : ThreadPool) → check_room task p ≡ some q → IsSound p → IsSound q
unfolding check_room
check_room-IsSound task p q e s = record {
  runs = ground (arith, s.runs);
  idle = ground (arith, s.idle);
  queued = ground (arith, s.queued);
  nobody_ended = ground (arith, s.nobody_ended);
  in_order = ground (arith, s.in_order);
}

push_task-IsSound : (i : ℕ) (p q : ThreadPool) → push_task i p ≡ some q → IsSound p → IsSound q
unfolding push_task
push_task-IsSound i p q e s = elim (Option-cases (get_elem? p.checked i)) [
  | inl n ↦ absurd (ground arith)
  | inr (task, g) ↦ record {
    runs = ground (arith, s.runs);
    idle = ground (arith, s.idle);
    queued = ground (arith, s.queued, length-append p.task_queue (task ∷ []));
    nobody_ended = ground (arith, s.nobody_ended);
    in_order = ground (arith, s.in_order, append_assoc p.started p.task_queue (task ∷ []));
  }
]

claim-IsSound : (p q : ThreadPool) → claim p ≡ some q → IsSound p → IsSound q
unfolding claim
claim-IsSound p q e s = record {
  runs = ground (arith, s.runs);
  idle = ground (arith, s.idle);
  queued = ground (arith, s.queued);
  nobody_ended = ground (arith, s.nobody_ended);
  in_order = ground (arith, s.in_order);
}

-- A worker goes from one place to another.
moved :
    (p : ThreadPool) (i : ℕ) (old new : Phase)
    → get_elem? p.working_threads i ≡ some old
    → ((f : Phase → Bool)
        → count f (set p.working_threads i new) + one_if (f old)
          ≡ count f p.working_threads + one_if (f new))
moved p i old new g f = count-set f p.working_threads i old new g

enter-IsSound : (i : ℕ) (p q : ThreadPool) → enter i p ≡ some q → IsSound p → IsSound q
unfolding enter
enter-IsSound i p q e s = elim (Option-cases (get_elem? p.working_threads i)) [
  | inl n ↦ absurd (ground arith)
  | inr (w, g) ↦ go w g
]
  where
    go : (w : Phase) → get_elem? p.working_threads i ≡ some w → IsSound q
    go outside g =
        let m = moved p i outside waiting g in
        record {
          runs = ground (arith, s.runs);
          idle = ground (arith, s.runs, s.idle, m is_waiting);
          queued = ground (arith, s.runs, s.queued, m is_woken);
          nobody_ended = ground (arith, s.runs, s.nobody_ended, m is_ended);
          in_order = ground (arith, s.runs, s.in_order);
        }
    go waiting g = absurd (ground arith)
    go woken g = absurd (ground arith)
    go (busy task) g = absurd (ground arith)
    go ended g = absurd (ground arith)

finish-IsSound : (i : ℕ) (p q : ThreadPool) → finish i p ≡ some q → IsSound p → IsSound q
unfolding finish
finish-IsSound i p q e s = elim (Option-cases (get_elem? p.working_threads i)) [
  | inl n ↦ absurd (ground arith)
  | inr (w, g) ↦ go w g
]
  where
    go : (w : Phase) → get_elem? p.working_threads i ≡ some w → IsSound q
    go (busy task) g =
        let m = moved p i (busy task) outside g in
        record {
          runs = ground (arith, s.runs);
          idle = ground (arith, s.idle, m is_waiting);
          queued = ground (arith, s.queued, m is_woken);
          nobody_ended = ground (arith, s.nobody_ended, m is_ended);
          in_order = ground (arith, s.in_order);
        }
    go outside g = absurd (ground arith)
    go waiting g = absurd (ground arith)
    go woken g = absurd (ground arith)
    go ended g = absurd (ground arith)

notify_one-IsSound : (i : ℕ) (p q : ThreadPool) → notify_one i p ≡ some q → IsSound p → IsSound q
unfolding notify_one
notify_one-IsSound i p q e s = elim (Bool-cases p.claimed) [
  | inr c ↦ absurd (ground arith)
  | inl c ↦ elim (Option-cases (get_elem? p.working_threads i)) [
    | inl n ↦ absurd (ground (arith, some_wait c))
    | inr (w, g) ↦ go c w g
  ]
]
  where
    some_wait : p.claimed ≡ true → any_waiting p.working_threads ≡ true
    some_wait c = any_waiting-count p.working_threads (ground (arith, s.idle))

    go : p.claimed ≡ true → (w : Phase) → get_elem? p.working_threads i ≡ some w → IsSound q
    go c waiting g =
        let m = moved p i waiting woken g in
        let a = some_wait c in
        record {
          runs = ground (arith, s.runs);
          idle = ground (arith, s.idle, m is_waiting);
          queued = ground (arith, s.queued, m is_woken);
          nobody_ended = ground (arith, s.nobody_ended, m is_ended);
          in_order = ground (arith, s.in_order);
        }
    go c outside g = absurd (ground (arith, some_wait c))
    go c woken g = absurd (ground (arith, some_wait c))
    go c (busy task) g = absurd (ground (arith, some_wait c))
    go c ended g = absurd (ground (arith, some_wait c))

wake-IsSound : (i : ℕ) (p q : ThreadPool) → wake i p ≡ some q → IsSound p → IsSound q
unfolding wake
wake-IsSound i p q e s = elim (Option-cases (get_elem? p.working_threads i)) [
  | inl n ↦ absurd (ground arith)
  | inr (w, g) ↦ go w g
]
  where
    pop :
        get_elem? p.working_threads i ≡ some woken
        → (tasks : List ℕ) → p.task_queue ≡ tasks
        → IsSound q
    pop g [] t = absurd (ground (arith, s.queued, moved p i woken ended g is_woken))
    pop g (task ∷ rest) t =
        let m = moved p i woken (busy task) g in
        record {
          runs = ground (arith, s.runs);
          idle = ground (arith, s.runs, s.idle, m is_waiting);
          queued = ground (arith, s.runs, s.queued, m is_woken);
          nobody_ended = ground (arith, s.runs, s.nobody_ended, m is_ended);
          in_order = ground (arith, s.runs, s.in_order, append_assoc p.started (task ∷ []) rest);
        }

    go : (w : Phase) → get_elem? p.working_threads i ≡ some w → IsSound q
    go woken g = pop g p.task_queue refl
    go outside g = absurd (ground arith)
    go waiting g = absurd (ground arith)
    go (busy task) g = absurd (ground arith)
    go ended g = absurd (ground arith)

step-IsSound :
    (op : Op) (p q : ThreadPool)
    → is_ordinary op ≡ true
    → step op p ≡ some q
    → IsSound p
    → IsSound q
unfolding step
step-IsSound (op_check task) p q o e s = check_room-IsSound task p q e s
step-IsSound (op_push i) p q o e s = push_task-IsSound i p q e s
step-IsSound (op_enter i) p q o e s = enter-IsSound i p q e s
step-IsSound (op_wake i) p q o e s = wake-IsSound i p q e s
step-IsSound (op_finish i) p q o e s = finish-IsSound i p q e s
step-IsSound (op_notify i) p q o e s = notify_one-IsSound i p q e s
step-IsSound (op_spurious i) p q o e s = absurd (ground arith)
step-IsSound op_claim p q o e s = claim-IsSound p q e s
step-IsSound op_destroy p q o e s = absurd (ground arith)

-- Whatever the threads do, in any order, short of the destructor and of waits that return by
-- themselves: the idle workers are counted right, a notified worker finds a task, no worker ends, and
-- tasks start in the order in which they were queued, none lost and none twice.
pub run-IsSound :
    (ops : List Op) (p q : ThreadPool)
    → AllOrdinary ops
    → run ops p ≡ some q
    → IsSound p
    → IsSound q
unfolding run
run-IsSound [] p q o e s = subst IsSound (ground arith) s
run-IsSound (op ∷ ops) p q (o, os) e s = elim (Option-cases (step op p)) [
  | inl n ↦ absurd (ground arith)
  | inr (r, f) ↦ run-IsSound ops r q os (ground arith) (step-IsSound op p r o f s)
]

-- ===== src/ThreadPool/Room.antt =====
-- How far `Submit` of even-http/ps/core/thread_pool.h keeps to the limit of tasks: it lets the mutex go
-- between its test and the queueing.
use rpc.Common.{
  ℕ, zero, suc, ◌+◌, ◌≤◌, ◌<◌, ◌≡◌, ◌∙◌, some, List, [], ◌∷◌, length, get_elem?, arith,
  Option-cases, inl, inr, length-append, take, drop, length-take, length-drop,
}
use rpc.ThreadPool.{
  ThreadPool, init, check_room, push_task, enter, wake, finish, claim, notify_one, wake_spuriously,
  destroy, Op, op_check, op_push, op_enter, op_wake, op_finish, op_notify, op_spurious, op_claim,
  op_destroy, step, run,
}

-- No more than `k` threads are ever between the test and the queueing.
abbrev pub AtMost : ℕ → List Op → ThreadPool → Type 0
AtMost k [] p = length p.checked ≤ k
AtMost k (op ∷ ops) p =
    (length p.checked ≤ k) × ((q : ThreadPool) → step op p ≡ some q → AtMost k ops q)

-- Room is left for what has been let through.
abbrev HasRoom : ℕ → ThreadPool → Type 0
HasRoom k p = p.task_num + length p.checked < p.max_task_num + k

-- What a step that does not concern the queue of tasks leaves alone.
abbrev Keeps : ThreadPool → ThreadPool → Type 0
Keeps p q = (q.task_num ≤ p.task_num) × (q.max_task_num ≡ p.max_task_num) × (q.checked ≡ p.checked)

enter-Keeps : (i : ℕ) (p q : ThreadPool) → enter i p ≡ some q → Keeps p q
unfolding enter
enter-Keeps i p q e = ground arith

wake-Keeps : (i : ℕ) (p q : ThreadPool) → wake i p ≡ some q → Keeps p q
unfolding wake
wake-Keeps i p q e = ground arith

finish-Keeps : (i : ℕ) (p q : ThreadPool) → finish i p ≡ some q → Keeps p q
unfolding finish
finish-Keeps i p q e = ground arith

claim-Keeps : (p q : ThreadPool) → claim p ≡ some q → Keeps p q
unfolding claim
claim-Keeps p q e = ground arith

notify_one-Keeps : (i : ℕ) (p q : ThreadPool) → notify_one i p ≡ some q → Keeps p q
unfolding notify_one
notify_one-Keeps i p q e = ground arith

wake_spuriously-Keeps : (i : ℕ) (p q : ThreadPool) → wake_spuriously i p ≡ some q → Keeps p q
unfolding wake_spuriously
wake_spuriously-Keeps i p q e = ground arith

destroy-Keeps : (p q : ThreadPool) → destroy p ≡ some q → Keeps p q
unfolding destroy
destroy-Keeps p q e = ground arith

-- The queueing takes one of those let through.
push_task_lem :
    (i : ℕ) (p q : ThreadPool)
    → push_task i p ≡ some q
    → (q.task_num + length q.checked ≡ p.task_num + length p.checked)
      × (q.max_task_num ≡ p.max_task_num)
unfolding push_task
push_task_lem i p q e = elim (Option-cases (get_elem? p.checked i)) [
  | inl n ↦ absurd (ground arith)
  | inr (task, g) ↦
      let within : i < length p.checked = get_within p.checked i task g in
      ground (
        arith,
        length-append (take i p.checked) (drop (suc i) p.checked),
        length-take i p.checked,
        length-drop (suc i) p.checked,
      )
]
  where
    get_within : (ts : List ℕ) (j task : ℕ) → get_elem? ts j ≡ some task → j < length ts
    get_within [] j task g = absurd (ground arith)
    get_within (t ∷ ts) zero task g = omega arith
    get_within (t ∷ ts) (suc j) task g = omega (arith, get_within ts j task g)

step_room :
    (k : ℕ) (op : Op) (p q : ThreadPool)
    → step op p ≡ some q
    → length q.checked ≤ k
    → HasRoom k p
    → HasRoom k q × (q.max_task_num ≡ p.max_task_num)
unfolding step check_room
step_room k (op_check task) p q e l r = ground (arith, length-append p.checked (task ∷ []))
step_room k (op_push i) p q e l r = ground (arith, push_task_lem i p q e)
step_room k (op_enter i) p q e l r = ground (arith, enter-Keeps i p q e)
step_room k (op_wake i) p q e l r = ground (arith, wake-Keeps i p q e)
step_room k (op_finish i) p q e l r = ground (arith, finish-Keeps i p q e)
step_room k (op_notify i) p q e l r = ground (arith, notify_one-Keeps i p q e)
step_room k (op_spurious i) p q e l r = ground (arith, wake_spuriously-Keeps i p q e)
step_room k op_claim p q e l r = ground (arith, claim-Keeps p q e)
step_room k op_destroy p q e l r = ground (arith, destroy-Keeps p q e)

run_room :
    (k : ℕ) (ops : List Op) (p q : ThreadPool)
    → AtMost k ops p
    → run ops p ≡ some q
    → HasRoom k p
    → HasRoom k q × (q.max_task_num ≡ p.max_task_num)
unfolding run
run_room k [] p q a e r = ground arith
run_room k (op ∷ ops) p q (a, as') e r = elim (Option-cases (step op p)) [
  | inl n ↦ absurd (ground arith)
  | inr (t, f) ↦
      let now = as' t f in
      let (r', m) = step_room k op p t f (checked_now k ops t now) r in
      let (r'', m') = run_room k ops t q now (ground arith) r' in (r'', m' ∙ m)
]
  where
    checked_now : (k : ℕ) (ops : List Op) (t : ThreadPool) → AtMost k ops t → length t.checked ≤ k
    checked_now k [] t a = a
    checked_now k (op ∷ ops) t (a, _) = a

-- In any run of a new pool in which at most `k` threads at once are in `Submit` behind its test, fewer
-- than `max_task_num` + `k` tasks wait to be claimed: with one thread that submits, the limit is kept.
pub run_room_init :
    (k thread_num max_task_num : ℕ) (ops : List Op) (q : ThreadPool)
    → 0 < k
    → AtMost k ops (init thread_num max_task_num)
    → run ops (init thread_num max_task_num) ≡ some q
    → q.task_num + length q.checked < max_task_num + k
run_room_init k n m ops q positive a e =
    let (r, same) = run_room k ops (init n m) q a e (omega arith) in ground arith

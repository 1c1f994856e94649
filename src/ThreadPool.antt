-- ===== src/ThreadPool.antt =====
-- even-http/ps/core/thread_pool.h and thread_pool.cc: the workers, the thread that notifies them, the
-- submitting threads and the destructor, in steps that are what each does while it holds the mutex. A
-- task is a number. `checked` holds the tasks whose `Submit` has found room and has let the mutex go,
-- but has not queued them yet. `claimed` says that the notifying thread has counted a worker and a
-- task and not called notify_one yet. `submitted` and `started` log the tasks in order. The counters
-- are unbounded.
pub mod Phases
pub mod Runs
pub mod Room
pub mod Progress
use rpc.Common.{
  ℕ, zero, suc, ◌+◌, ◌-◌, Bool, true, false, not, ◌&&◌, ◌||◌, Option, none, some, List, [], ◌∷◌,
  ◌++◌, length, get_elem?, set, map, replicate, take, drop, if◌then◌else◌, ltb, leb,
}

-- Where a worker is: about to take the mutex, in `cv_.wait`, woken there, in a task, or at its end.
pub data Phase : Type 0 where
  outside waiting woken : Phase
  busy : ℕ → Phase
  ended : Phase

pub record ThreadPool : Type 0 where
  pub running : Bool
  pub max_task_num : ℕ
  pub task_num : ℕ
  pub idle_thread_num : ℕ
  pub task_queue : List ℕ
  pub working_threads : List Phase
  pub checked : List ℕ
  pub claimed : Bool
  pub submitted : List ℕ
  pub started : List ℕ

abbrev pub init : ℕ → ℕ → ThreadPool
init thread_num max_task_num = record {
  running = true;
  max_task_num = max_task_num;
  task_num = 0;
  idle_thread_num = 0;
  task_queue = [];
  working_threads = replicate thread_num outside;
  checked = [];
  claimed = false;
  submitted = [];
  started = [];
}

abbrev pub move : ℕ → Phase → ThreadPool → ThreadPool
move i phase p = record p { working_threads = set p.working_threads i phase }

-- The loop of `Submit` gets through.
unfoldable pub check_room : ℕ → ThreadPool → Option ThreadPool
check_room task p =
    if leb p.max_task_num p.task_num
    then none
    else some (record p { checked = p.checked ++ task ∷ [] })

-- The rest of `Submit`, for the `i`-th of those that have got through.
unfoldable pub push_task : ℕ → ThreadPool → Option ThreadPool
push_task i p = elim (get_elem? p.checked i) [
  | none ↦ none
  | some task ↦ some (record p {
    checked = take i p.checked ++ drop (suc i) p.checked;
    task_num = p.task_num + 1;
    task_queue = p.task_queue ++ task ∷ [];
    submitted = p.submitted ++ task ∷ [];
  })
]

-- A worker takes the mutex at the top of its loop.
unfoldable pub enter : ℕ → ThreadPool → Option ThreadPool
enter i p = elim (get_elem? p.working_threads i) [
  | some outside ↦
      let counted : ThreadPool = record p { idle_thread_num = p.idle_thread_num + 1 } in
      some (if p.running then move i waiting counted else move i ended counted)
  | _ ↦ none
]

-- A worker comes back from `cv_.wait`.
unfoldable pub wake : ℕ → ThreadPool → Option ThreadPool
wake i p = elim (get_elem? p.working_threads i) [
  | some woken ↦ some (elim p.task_queue [
    | [] ↦ move i ended p
    | task ∷ rest ↦
        if p.running
        then move i (busy task) (record p { task_queue = rest; started = p.started ++ task ∷ [] })
        else move i ended p
  ])
  | _ ↦ none
]

-- A task returns.
unfoldable pub finish : ℕ → ThreadPool → Option ThreadPool
finish i p = elim (get_elem? p.working_threads i) [
  | some (busy task) ↦ some (move i outside p)
  | _ ↦ none
]

-- The notifying thread finds an idle worker and a task.
unfoldable pub claim : ThreadPool → Option ThreadPool
claim p =
    if not p.claimed && (ltb 0 p.idle_thread_num && ltb 0 p.task_num)
    then some (record p {
      idle_thread_num = p.idle_thread_num - 1;
      task_num = p.task_num - 1;
      claimed = true;
    })
    else none

abbrev pub is_waiting : Phase → Bool
is_waiting waiting = true
is_waiting outside = false
is_waiting woken = false
is_waiting (busy task) = false
is_waiting ended = false

abbrev pub any_waiting : List Phase → Bool
any_waiting [] = false
any_waiting (w ∷ ws) = is_waiting w || any_waiting ws

-- Its `notify_one` wakes one worker of those that wait, if any does.
unfoldable pub notify_one : ℕ → ThreadPool → Option ThreadPool
notify_one i p =
    let told : ThreadPool = record p { claimed = false } in
    if p.claimed
    then if any_waiting p.working_threads
      then elim (get_elem? p.working_threads i) [
        | some waiting ↦ some (move i woken told)
        | _ ↦ none
      ]
      else some told
    else none

-- `wait` may return without a notification.
unfoldable pub wake_spuriously : ℕ → ThreadPool → Option ThreadPool
wake_spuriously i p = elim (get_elem? p.working_threads i) [
  | some waiting ↦ some (move i woken p)
  | _ ↦ none
]

abbrev roused : Phase → Phase
roused waiting = woken
roused outside = outside
roused woken = woken
roused (busy task) = busy task
roused ended = ended

-- The destructor up to its joins.
unfoldable pub destroy : ThreadPool → Option ThreadPool
destroy p = some (record p { running = false; working_threads = map roused p.working_threads })

pub data Op : Type 0 where
  op_check op_push op_enter op_wake op_finish op_notify op_spurious : ℕ → Op
  op_claim op_destroy : Op

unfoldable pub step : Op → ThreadPool → Option ThreadPool
unfolding check_room push_task enter wake finish claim notify_one wake_spuriously destroy
step (op_check task) p = check_room task p
step (op_push i) p = push_task i p
step (op_enter i) p = enter i p
step (op_wake i) p = wake i p
step (op_finish i) p = finish i p
step (op_notify i) p = notify_one i p
step (op_spurious i) p = wake_spuriously i p
step op_claim p = claim p
step op_destroy p = destroy p

-- `none` when an operation of the list is not possible at its turn.
unfoldable pub run : List Op → ThreadPool → Option ThreadPool
unfolding step
run [] p = some p
run (op ∷ ops) p = elim (step op p) [ none ↦ none | some q ↦ run ops q ]

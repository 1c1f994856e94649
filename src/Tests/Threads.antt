-- ===== src/Tests/Threads.antt =====
-- Witnesses and tests for even-http/ps/core/thread_pool.cc.
use rpc.Common.{ℕ, ◌+◌, ◌<◌, ◌≡◌, refl, sym, subst, ◌∙◌, some, List, [], ◌∷◌, ◌++◌, length, arith}
use rpc.ThreadPool.{
  ThreadPool, init, Op, op_check, op_push, op_enter, op_wake, op_notify, op_claim, run, step,
  check_room, push_task, enter, wake, claim, notify_one, waiting, busy,
}
use rpc.ThreadPool.Runs.{IsSound, init-IsSound, run-IsSound}
use rpc.ThreadPool.Room.{AtMost, run_room_init}
use rpc.ThreadPool.Progress.{next_task_starts}

-- One worker of two takes one task of two.
abbrev one_task : List Op
one_task =
    op_enter 0
    ∷ op_check 7
    ∷ op_push 0
    ∷ op_enter 1
    ∷ op_claim
    ∷ op_notify 1
    ∷ op_check 8
    ∷ op_push 0
    ∷ op_wake 1
    ∷ []

abbrev after_one : ThreadPool
after_one = record (init 2 10) {
  task_num = 1;
  idle_thread_num = 1;
  task_queue = 8 ∷ [];
  working_threads = waiting ∷ busy 7 ∷ [];
  submitted = 7 ∷ 8 ∷ [];
  started = 7 ∷ [];
}

one_task_runs : run one_task (init 2 10) ≡ some after_one
unfolding run step check_room push_task enter claim notify_one wake
one_task_runs = refl

run-IsSound_example : IsSound after_one
run-IsSound_example =
    run-IsSound one_task (init 2 10) after_one
      (refl, (refl, (refl, (refl, (refl, (refl, (refl, (refl, (refl, tt))))))))) one_task_runs
      (init-IsSound 2 10)

next_task_starts_example :
    (i task : ℕ) × (rest : List ℕ) × (q : ThreadPool) × (after_one.task_queue ≡ task ∷ rest)
    × (run (op_claim ∷ op_notify i ∷ op_wake i ∷ []) after_one ≡ some q)
    × (q.started ≡ after_one.started ++ task ∷ [])
    × (q.task_queue ≡ rest)
next_task_starts_example =
    next_task_starts after_one run-IsSound_example refl (ground arith) (ground arith)

-- Two submitting threads overstep a limit of one task.
abbrev two_submit : List Op
two_submit = op_check 7 ∷ op_check 8 ∷ op_push 0 ∷ op_push 0 ∷ []

abbrev overfull : ThreadPool
overfull = record (init 0 1) { task_num = 2; task_queue = 7 ∷ 8 ∷ []; submitted = 7 ∷ 8 ∷ [] }

limit_overstepped : run two_submit (init 0 1) ≡ some overfull
unfolding run step check_room push_task
limit_overstepped = refl

abbrev with_checked : List ℕ → ThreadPool
with_checked tasks = record (init 0 1) { checked = tasks }

abbrev one_pushed : ThreadPool
one_pushed = record (init 0 1) {
  checked = 8 ∷ [];
  task_num = 1;
  task_queue = 7 ∷ [];
  submitted = 7 ∷ [];
}

-- The only way on.
only :
    (op : Op) (ops : List Op) (p r : ThreadPool)
    → step op p ≡ some r
    → AtMost 2 ops r
    → (q : ThreadPool) → step op p ≡ some q
    → AtMost 2 ops q
only op ops p r e a q f = subst (AtMost 2 ops) (some_inj r q (sym e ∙ f)) a
  where
    some_inj : (r q : ThreadPool) → some r ≡ some q → r ≡ q
    some_inj r q h = ground arith

two_submit-AtMost : AtMost 2 two_submit (init 0 1)
unfolding step check_room push_task
two_submit-AtMost = (
  ground arith,
  only (op_check 7) (op_check 8 ∷ op_push 0 ∷ op_push 0 ∷ []) (init 0 1) (with_checked (7 ∷ []))
      refl
      (
        ground arith,
        only (op_check 8) (op_push 0 ∷ op_push 0 ∷ []) (with_checked (7 ∷ []))
            (with_checked (7 ∷ 8 ∷ [])) refl
            (
              ground arith,
              only (op_push 0) (op_push 0 ∷ []) (with_checked (7 ∷ 8 ∷ [])) one_pushed refl
                  (ground arith, only (op_push 0) [] one_pushed overfull refl (ground arith)),
            ),
      ),
)

run_room_init_example : 2 + length overfull.checked < 1 + 2
run_room_init_example =
    run_room_init 2 0 1 two_submit overfull (ground arith) two_submit-AtMost limit_overstepped

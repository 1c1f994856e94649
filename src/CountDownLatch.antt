-- ===== src/CountDownLatch.antt =====
-- The latch of even-http/ps/core/count_down_latch.h and .cc. Beside its count stand the threads that
-- sleep in its condition variable and what each thread's last call has returned. An event is what one
-- thread does while it holds the mutex; a call of a sleeping thread cannot happen and changes nothing.
-- The count is a number of any size: a latch counted down past the least int is not modelled.
mod Fair
pub mod Waits
use rpc.Common.{
  ℕ, zero, suc, Bool, true, false, Option, none, some, List, [], ◌∷◌, if◌then◌else◌, nat_eq,
}
use rpc.Common.Dict.{Dict, get, has, put, erase}
use rpc.Common.Words.{ℤ, pos, negsuc, int_beq}

pub record Sleeper : Type 0 where
  -- Whether it sleeps in `WaitFor`, and whether a `notify_all` has reached it.
  pub timed : Bool
  pub notified : Bool

pub data Returned : Type 0 where
  -- From `Wait`; from `WaitFor` with a value; from `WaitFor` past its end, where it has no value.
  released : Returned
  answered : Bool → Returned
  no_value : Returned

pub record CountDownLatch : Type 0 where
  pub count : ℤ
  pub sleeping : Dict ℕ Sleeper
  pub returned : Dict ℕ Returned

abbrev pub init : ℤ → CountDownLatch
init count = record { count = count; sleeping = []; returned = [] }

unfoldable pub decrement : ℤ → ℤ
decrement (pos zero) = negsuc 0
decrement (pos (suc n)) = pos n
decrement (negsuc n) = negsuc (suc n)

unfoldable pub is_positive : ℤ → Bool
is_positive (pos (suc n)) = true
is_positive (pos zero) = false
is_positive (negsuc n) = false

-- The predicate of both waits.
abbrev pub is_zero : CountDownLatch → Bool
is_zero l = int_beq l.count (pos 0)

abbrev pub sleep : ℕ → Bool → CountDownLatch → CountDownLatch
sleep t timed l = record l {
  sleeping = put t (record { timed = timed; notified = false }) l.sleeping;
}

abbrev pub return : ℕ → Returned → CountDownLatch → CountDownLatch
return t r l = record l { sleeping = erase t l.sleeping; returned = put t r l.returned }

-- With a positive count the predicate is false, and the thread sleeps.
unfoldable pub wait : ℕ → CountDownLatch → CountDownLatch
unfolding is_positive
wait t l = if is_positive l.count then sleep t false l else return t released l

unfoldable pub wait_for : ℕ → CountDownLatch → CountDownLatch
unfolding is_positive
wait_for t l = if is_positive l.count then sleep t true l else return t no_value l

unfoldable pub notify_all : Dict ℕ Sleeper → Dict ℕ Sleeper
notify_all [] = []
notify_all ((t, s) ∷ rest) = (t, record s { notified = true }) ∷ notify_all rest

unfoldable pub count_down : CountDownLatch → CountDownLatch
unfolding decrement notify_all
count_down l =
    let l' = record l { count = decrement l.count } in
    if is_zero l' then record l' { sleeping = notify_all l'.sleeping } else l'

abbrev pub get_count : CountDownLatch → ℤ
get_count l = l.count

-- A sleeping thread wakes, notified or not, and tests the predicate.
unfoldable pub wake : ℕ → CountDownLatch → CountDownLatch
wake t l = elim (get t l.sleeping) [
  | none ↦ l
  | some s ↦
      if is_zero l
      then return t (if s.timed then answered true else released) l
      else sleep t s.timed l
]

-- The timeout of a sleeping thread: `WaitFor` returns what the predicate says then.
unfoldable pub expire : ℕ → CountDownLatch → CountDownLatch
expire t l = elim (get t l.sleeping) [
  | none ↦ l
  | some s ↦ if s.timed then return t (answered (is_zero l)) l else l
]

pub data Event : Type 0 where
  waits waits_for wakes expires : ℕ → Event
  counts_down : Event

unfoldable pub step : Event → CountDownLatch → CountDownLatch
unfolding wait wait_for count_down wake expire has
step (waits t) l = if has t l.sleeping then l else wait t l
step (waits_for t) l = if has t l.sleeping then l else wait_for t l
step (wakes t) l = wake t l
step (expires t) l = expire t l
step counts_down l = count_down l

unfoldable pub run : List Event → CountDownLatch → CountDownLatch
unfolding step
run [] l = l
run (e ∷ events) l = run events (step e l)

-- The calls of `CountDown` in a run.
unfoldable pub count_downs : List Event → ℕ
count_downs [] = 0
count_downs (counts_down ∷ events) = suc (count_downs events)
count_downs (e ∷ events) = count_downs events

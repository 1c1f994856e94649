-- ===== src/CountDownLatch/Fair.antt =====
-- That a latch lets nobody through while it is closed, and tells its sleepers when it opens.
use rpc.Common.{
  ℕ, zero, suc, ◌≡◌, refl, ◌⊎◌, inl, inr, Bool, Bool-cases, true, false, Option, none, some, List,
  [], ◌∷◌, if◌then◌else◌, nat_beq, nat_eq, arith,
}
use rpc.Common.Dict.{Dict, get, has, get-put, get-erase}
use rpc.Common.Words.{ℤ, pos, negsuc, int_beq}
use rpc.CountDownLatch.{
  Sleeper, Returned, released, answered, no_value, CountDownLatch, decrement, is_positive, is_zero,
  sleep, return, wait, wait_for, notify_all, count_down, wake, expire, Event, waits, waits_for,
  wakes, expires, counts_down, step, run,
}

pub get-notify_all :
    (t : ℕ) (m : Dict ℕ Sleeper)
    → get t (notify_all m)
      ≡ elim (get t m) [ none ↦ none | some s ↦ some (record s { notified = true }) ]
unfolding get notify_all
get-notify_all t [] = refl
get-notify_all t ((j, s) ∷ m) = ground (arith, get-notify_all t m)

-- Nobody has been let through a closed latch, and an open one has notified every sleeper.
pub record IsFair (l : CountDownLatch) : Type 0 where
  pub through :
      (t : ℕ)
      → (get t l.returned ≡ some released) ⊎ (get t l.returned ≡ some (answered true))
      → is_positive l.count ≡ false
  pub told :
      (t : ℕ) (s : Sleeper) → is_zero l ≡ true → get t l.sleeping ≡ some s → s.notified ≡ true

positive-decrement : (c : ℤ) → is_positive c ≡ false → is_positive (decrement c) ≡ false
unfolding is_positive decrement
positive-decrement (pos zero) h = refl
positive-decrement (pos (suc c)) h = ground arith
positive-decrement (negsuc c) h = refl

open_not_positive : (c : ℤ) → c ≡ pos 0 → is_positive c ≡ false
unfolding is_positive
open_not_positive (pos zero) h = refl
open_not_positive (pos (suc c)) h = ground arith
open_not_positive (negsuc c) h = refl

sleep-IsFair :
    (t : ℕ) (timed : Bool) (l : CountDownLatch)
    → is_zero l ≡ false
    → IsFair l
    → IsFair (sleep t timed l)
sleep-IsFair t timed l closed f = record {
  through = λ j r. ground (arith, f.through j r);
  told = λ j s opened at. ground arith;
}

-- A thread is let through once the count is not positive; one that is not may return any time.
return-IsFair :
    (t : ℕ) (r : Returned) (l : CountDownLatch)
    → ((r ≡ released) ⊎ (r ≡ answered true) → is_positive l.count ≡ false)
    → IsFair l
    → IsFair (return t r l)
return-IsFair t r l may f = record {
  through = λ j through. elim (Bool-cases (nat_beq t j)) [
    | inl same ↦ may (ground (arith, get-put t j r l.returned, through))
    | inr other ↦ f.through j (ground (arith, get-put t j r l.returned, through))
  ];
  told = λ j s opened at. f.told j s opened (ground (arith, get-erase t j l.sleeping, at));
}

positive_closed : (c : ℤ) → is_positive c ≡ true → int_beq c (pos 0) ≡ false
unfolding is_positive
positive_closed (pos zero) h = ground arith
positive_closed (pos (suc c)) h = ground arith
positive_closed (negsuc c) h = refl

pub open_through : (c : ℤ) → int_beq c (pos 0) ≡ true → is_positive c ≡ false
open_through c h = ground (arith, positive_closed c)

if-IsFair :
    (b : Bool) (l m : CountDownLatch)
    → (b ≡ true → IsFair l)
    → (b ≡ false → IsFair m)
    → IsFair (if b then l else m)
if-IsFair true l m up down = up refl
if-IsFair false l m up down = down refl

sleeper-IsFair :
    (o : Option Sleeper) (l : CountDownLatch) (m : Sleeper → CountDownLatch)
    → IsFair l
    → ((s : Sleeper) → IsFair (m s))
    → IsFair (elim o [ none ↦ l | some s ↦ m s ])
sleeper-IsFair none l m f each = f
sleeper-IsFair (some s) l m f each = each s

wait-IsFair : (t : ℕ) (l : CountDownLatch) → IsFair l → IsFair (wait t l)
unfolding wait
wait-IsFair t l f =
    if-IsFair (is_positive l.count) _ _
      (λ up. sleep-IsFair t false l (positive_closed l.count up) f)
      (λ down. return-IsFair t released l (λ _. down) f)

wait_for-IsFair : (t : ℕ) (l : CountDownLatch) → IsFair l → IsFair (wait_for t l)
unfolding wait_for
wait_for-IsFair t l f =
    if-IsFair (is_positive l.count) _ _ (λ up. sleep-IsFair t true l (positive_closed l.count up) f)
      (λ down. return-IsFair t no_value l (λ _. down) f)

count_down-IsFair : (l : CountDownLatch) → IsFair l → IsFair (count_down l)
unfolding count_down
count_down-IsFair l f = record {
  through = λ t. ground (arith, f.through t, positive-decrement l.count);
  told = λ t s. ground (arith, get-notify_all t l.sleeping);
}

wake-IsFair : (t : ℕ) (l : CountDownLatch) → IsFair l → IsFair (wake t l)
unfolding wake
wake-IsFair t l f = sleeper-IsFair (get t l.sleeping) l _ f (λ s.
    if-IsFair (is_zero l) _ _ (λ opened. return-IsFair t _ l (λ _. open_through l.count opened) f)
      (λ closed. sleep-IsFair t s.timed l closed f))

expire-IsFair : (t : ℕ) (l : CountDownLatch) → IsFair l → IsFair (expire t l)
unfolding expire
expire-IsFair t l f = sleeper-IsFair (get t l.sleeping) l _ f (λ s.
    if-IsFair s.timed _ _
      (λ _. return-IsFair t (answered (is_zero l)) l (λ e. ground (arith, open_through l.count)) f)
      (λ _. f))

step-IsFair : (e : Event) (l : CountDownLatch) → IsFair l → IsFair (step e l)
unfolding step
step-IsFair (waits t) l f = if-IsFair (has t l.sleeping) _ _ (λ _. f) (λ _. wait-IsFair t l f)
step-IsFair (waits_for t) l f =
    if-IsFair (has t l.sleeping) _ _ (λ _. f) (λ _. wait_for-IsFair t l f)
step-IsFair (wakes t) l f = wake-IsFair t l f
step-IsFair (expires t) l f = expire-IsFair t l f
step-IsFair counts_down l f = count_down-IsFair l f

pub run-IsFair : (events : List Event) (l : CountDownLatch) → IsFair l → IsFair (run events l)
unfolding run
run-IsFair [] l f = f
run-IsFair (e ∷ events) l f = run-IsFair events (step e l) (step-IsFair e l f)

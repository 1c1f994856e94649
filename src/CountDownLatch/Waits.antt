-- ===== src/CountDownLatch/Waits.antt =====
-- Who is released by a latch made with a count, and when.
use rpc.Common.{
  ℕ, zero, suc, ◌+◌, ◌≤◌, ◌<◌, ◌≡◌, refl, subst, ◌⊎◌, inl, inr, true, false, Bool-cases,
  Option-cases, none, some, List, [], ◌∷◌, if◌then◌else◌, nat_beq, nat_eq, arith,
}
use rpc.Common.Dict.{get, get-put, get-erase, has-get}
use rpc.Common.Words.{ℤ, pos, negsuc, int_beq}
use rpc.CountDownLatch.{
  Sleeper, released, answered, CountDownLatch, init, decrement, is_positive, wait, wait_for,
  count_down, wake, expire, Event, waits, waits_for, wakes, expires, counts_down, step, run,
  count_downs,
}
use rpc.CountDownLatch.Fair.{IsFair, run-IsFair}

-- What is left of the count `n` after so many calls of `CountDown`.
abbrev Counted : ℕ → ℕ → ℤ → Type 0
Counted n counted (pos c) = c + counted ≡ n
Counted n counted (negsuc c) = n + suc c ≡ counted

decrement-Counted :
    (n counted : ℕ) (c : ℤ) → Counted n counted c → Counted n (suc counted) (decrement c)
unfolding decrement
decrement-Counted n counted (pos zero) h = ground arith
decrement-Counted n counted (pos (suc c)) h = ground arith
decrement-Counted n counted (negsuc c) h = ground arith

step-Counted :
    (n counted : ℕ) (e : Event) (l : CountDownLatch)
    → Counted n counted l.count
    → Counted n (count_downs (e ∷ []) + counted) (step e l).count
unfolding step wait wait_for count_down wake expire count_downs
step-Counted n counted (waits t) l h = ground (arith, h)
step-Counted n counted (waits_for t) l h = ground (arith, h)
step-Counted n counted (wakes t) l h = ground (arith, h)
step-Counted n counted (expires t) l h = ground (arith, h)
step-Counted n counted counts_down l h = ground (arith, decrement-Counted n counted l.count h)

count_downs-cons :
    (e : Event) (events : List Event)
    → count_downs (e ∷ events) ≡ count_downs (e ∷ []) + count_downs events
unfolding count_downs
count_downs-cons (waits t) events = omega arith
count_downs-cons (waits_for t) events = omega arith
count_downs-cons (wakes t) events = omega arith
count_downs-cons (expires t) events = omega arith
count_downs-cons counts_down events = omega arith

run-Counted :
    (n counted : ℕ) (events : List Event) (l : CountDownLatch)
    → Counted n counted l.count
    → Counted n (count_downs events + counted) (run events l).count
unfolding run count_downs
run-Counted n counted [] l h = subst (λ k. Counted n k l.count) (omega arith) h
run-Counted n counted (e ∷ events) l h =
    let one = count_downs (e ∷ []) in
    subst (λ k. Counted n k (run events (step e l)).count)
      (ground (arith, count_downs-cons e events))
      (run-Counted n (one + counted) events (step e l) (step-Counted n counted e l h))

init-IsFair : (c : ℤ) → IsFair (init c)
unfolding get
init-IsFair c = record { through = λ t. ground arith; told = λ t s. ground arith }

-- Its count after a run from `n`.
made_with :
    (n : ℕ) (events : List Event) → Counted n (count_downs events) (run events (init (pos n))).count
made_with n events =
    subst (λ k. Counted n k (run events (init (pos n))).count) (omega arith)
      (run-Counted n 0 events (init (pos n)) (omega arith))

Counted-through :
    (n counted : ℕ) (c : ℤ) → Counted n counted c → is_positive c ≡ false → n ≤ counted
unfolding is_positive
Counted-through n counted (pos zero) h down = omega arith
Counted-through n counted (pos (suc c)) h down = ground arith
Counted-through n counted (negsuc c) h down = omega arith

-- On a latch made with the count n, no `Wait` has returned, and no `WaitFor` with true, before n calls
-- of `CountDown`, whatever the threads do and however they are woken.
pub returned_counted :
    (n : ℕ) (events : List Event) (t : ℕ)
    → (get t (run events (init (pos n))).returned ≡ some released)
      ⊎ (get t (run events (init (pos n))).returned ≡ some (answered true))
    → n ≤ count_downs events
returned_counted n events t through =
    let l = run events (init (pos n)) in
    let fair = run-IsFair events (init (pos n)) (init-IsFair (pos n)) in
    Counted-through n (count_downs events) l.count (made_with n events) (fair.through t through)

Counted-open : (n : ℕ) (c : ℤ) → Counted n n c → int_beq c (pos 0) ≡ true
Counted-open n (pos zero) h = refl
Counted-open n (pos (suc c)) h = ground (arith, h)
Counted-open n (negsuc c) h = ground (arith, h)

-- After exactly n calls of `CountDown`, a thread that sleeps on a latch made with the count n has been
-- notified, and once it wakes its call returns, `WaitFor` with true.
pub sleeper_released :
    (n : ℕ) (events : List Event) (t : ℕ) (s : Sleeper)
    → count_downs events ≡ n
    → get t (run events (init (pos n))).sleeping ≡ some s
    → let woken = wake t (run events (init (pos n))) in
      (s.notified ≡ true)
      × (get t woken.returned ≡ some (if s.timed then answered true else released))
      × (get t woken.sleeping ≡ none)
unfolding wake
sleeper_released n events t s exact there =
    let l = run events (init (pos n)) in
    let fair = run-IsFair events (init (pos n)) (init-IsFair (pos n)) in
    let opened =
      Counted-open n l.count (subst (λ k. Counted n k l.count) exact (made_with n events)) in
    (
      fair.told t s opened there,
      ground (
        arith,
        opened,
        there,
        get-put t t (if s.timed then answered true else released) l.returned,
      ),
      ground (arith, opened, there, get-erase t t l.sleeping),
    )

-- A latch counted down past 0: it stays so, and a thread in `Wait` sleeps on.
abbrev SleepsOn : ℕ → CountDownLatch → Type 0
SleepsOn t l =
    ((m : ℕ) × (l.count ≡ negsuc m))
    × ((s : Sleeper) × (get t l.sleeping ≡ some s) × (s.timed ≡ false))

step-SleepsOn : (t : ℕ) (e : Event) (l : CountDownLatch) → SleepsOn t l → SleepsOn t (step e l)
unfolding step wait wait_for count_down wake expire is_positive decrement
step-SleepsOn t (waits j) l ((m, below), (s, there, plain)) = (
  (m, ground (arith, below)),
  (s, ground (arith, there, below, has-get j l.sleeping, get-erase j t l.sleeping), plain),
)
step-SleepsOn t (waits_for j) l ((m, below), (s, there, plain)) = (
  (m, ground (arith, below)),
  (s, ground (arith, there, below, has-get j l.sleeping, get-erase j t l.sleeping), plain),
)
step-SleepsOn t (wakes j) l ((m, below), (s, there, plain)) = elim (Bool-cases (nat_beq j t)) [
  | inl same ↦
      let again : Sleeper = record { timed = s.timed; notified = false } in
      (
        (m, ground (arith, below)),
        (again, ground (arith, there, below, get-put j t again l.sleeping), plain),
      )
  | inr other ↦ elim (Option-cases (get j l.sleeping)) [
    | inl absent ↦ ((m, ground (arith, below)), (s, ground (arith, there, absent), plain))
    | inr (r, found) ↦
        let again : Sleeper = record { timed = r.timed; notified = false } in
        (
          (m, ground (arith, below)),
          (s, ground (arith, there, below, found, get-put j t again l.sleeping), plain),
        )
  ]
]
step-SleepsOn t (expires j) l ((m, below), (s, there, plain)) =
    ((m, ground (arith, below)), (s, ground (arith, there, plain, get-erase j t l.sleeping), plain))
step-SleepsOn t counts_down l ((m, below), (s, there, plain)) =
    ((suc m, ground (arith, below)), (s, ground (arith, below, there), plain))

run-SleepsOn :
    (t : ℕ) (events : List Event) (l : CountDownLatch) → SleepsOn t l → SleepsOn t (run events l)
unfolding run
run-SleepsOn t [] l h = h
run-SleepsOn t (e ∷ events) l h = run-SleepsOn t events (step e l) (step-SleepsOn t e l h)

overrun : (n counted : ℕ) (c : ℤ) → Counted n counted c → n < counted → (m : ℕ) × (c ≡ negsuc m)
overrun n counted (pos c) h more = ground (arith, h)
overrun n counted (negsuc c) h more = (c, refl)

pub overrun_sleeps_on :
    (n : ℕ) (events later : List Event) (t : ℕ) (s : Sleeper)
    → n < count_downs events
    → get t (run events (init (pos n))).sleeping ≡ some s
    → s.timed ≡ false
    → (r : Sleeper) × (get t (run later (run events (init (pos n)))).sleeping ≡ some r)
      × (r.timed ≡ false)
overrun_sleeps_on n events later t s more there plain =
    let l = run events (init (pos n)) in
    let below = overrun n (count_downs events) l.count (made_with n events) more in
    (run-SleepsOn t later l (below, (s, there, plain))).1

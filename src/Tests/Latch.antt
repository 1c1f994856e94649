-- ===== src/Tests/Latch.antt =====
-- Runs of the latch.
use rpc.Common.{◌≤◌, ◌≡◌, refl, inl, true, false, none, some, List, [], ◌∷◌, ◌++◌, nat_eq, arith}
use rpc.Common.Dict.{get, put}
use rpc.Common.Words.{pos}
use rpc.CountDownLatch.{
  Sleeper, released, answered, init, wake, Event, waits, waits_for, wakes, expires, counts_down,
  run, count_downs,
}
use rpc.CountDownLatch.Waits.{returned_counted, sleeper_released, overrun_sleeps_on}

-- The unit test: one thread waits while another counts down twice.
abbrev counted_twice : List Event
counted_twice = waits 0 ∷ counts_down ∷ wakes 0 ∷ counts_down ∷ []

abbrev told : Sleeper
told = record { timed = false; notified = true }

returned_counted_example : 2 ≤ count_downs (counted_twice ++ wakes 0 ∷ [])
unfolding run get put
returned_counted_example = returned_counted 2 (counted_twice ++ wakes 0 ∷ []) 0 (inl refl)

sleeper_released_example :
    let woken = wake 0 (run counted_twice (init (pos 2))) in
    (true ≡ true) × (get 0 woken.returned ≡ some released) × (get 0 woken.sleeping ≡ none)
unfolding run count_downs get put
sleeper_released_example = sleeper_released 2 counted_twice 0 told refl refl

overrun_sleeps_on_example :
    (r : Sleeper) × (get 0
        (run
          (wakes 0 ∷ counts_down ∷ wakes 0 ∷ [])
          (run (counted_twice ++ counts_down ∷ []) (init (pos 2)))).sleeping
      ≡ some r)
    × (r.timed ≡ false)
unfolding run count_downs get put
overrun_sleeps_on_example =
    overrun_sleeps_on 2 (counted_twice ++ counts_down ∷ []) (wakes 0 ∷ counts_down ∷ wakes 0 ∷ []) 0
      told (omega arith) refl refl

-- A timed wait that is never counted down, and one on a latch that is open already.
times_out : (run (waits_for 3 ∷ expires 3 ∷ []) (init (pos 1))).returned ≡ (3, answered false) ∷ []
unfolding run get put
times_out = refl

-- ===== src/Tests/Machine.antt =====
-- Runs of the state machine.
use rpc.Common.{◌≡◌, refl, some, List, [], ◌∷◌, ◌++◌}
use rpc.Common.Dict.{get}
use rpc.Fsm.{
  State, state_idle, state_attack, state_go_home, Line, enters, ticks, exits, Fsm, attack_key,
  go_home_key, idle_key, set_init_state, state_at, machine, main_loop,
}
use rpc.Fsm.Protocol.{inside, replay}
use rpc.Fsm.Runs.{Event, transits, is_ticked, run, run_replays}

abbrev home_and_back : List Event
home_and_back = is_ticked ∷ transits go_home_key ∷ is_ticked ∷ transits idle_key ∷ []

run_replays_example :
    (g : Fsm) × (t : State) × (lines : List Line) × (run home_and_back machine ≡ some g)
    × (state_at g.cur_state g.all_states ≡ some t)
    × (g.output ≡ [] ++ lines)
    × (replay (inside state_idle) lines ≡ some (inside t))
unfolding machine state_at get
run_replays_example =
    run_replays home_and_back machine state_idle state_attack refl refl
      ((state_go_home, refl), ((state_idle, refl), tt))

-- The loop of `main` attacks in its fifth round, and from then on.
attacks_after_five :
    (f : Fsm) × (main_loop 6 machine ≡ some f)
    × (f.cur_state ≡ attack_key)
    × (f.output
        ≡ ticks state_idle
          ∷ ticks state_idle
          ∷ ticks state_idle
          ∷ ticks state_idle
          ∷ ticks state_idle
          ∷ exits state_idle
          ∷ enters state_attack
          ∷ ticks state_attack
          ∷ [])
unfolding main_loop machine get
attacks_after_five = (_, refl, refl, refl)

-- A state set by `SetInitState` is not entered, so its counter stays: from five on it counts past the
-- test, and five ticks more do not attack.
idle_goes_on :
    (f : Fsm) × (main_loop 5 (set_init_state idle_key (record machine { test_counter = 5 }))
      ≡ some f)
    × (f.cur_state ≡ idle_key)
unfolding main_loop machine get
idle_goes_on = (_, refl, refl)

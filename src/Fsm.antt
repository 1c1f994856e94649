-- ===== src/Fsm.antt =====
-- The state machine of even-http/ps/core/fsm.cpp with its three states, each one object. A state that
-- is missing from the map reads as the null pointer, whose call has no defined result: none. `output`
-- has the lines that the states write; the counter of ticks is a number of any size.
pub mod Protocol
pub mod Runs
use rpc.Common.{
  ℕ, zero, suc, ◌+◌, Bool, true, false, Option, none, some, List, [], ◌∷◌, ◌++◌, if◌then◌else◌,
  nat_beq,
}
use rpc.Common.Dict.{Dict, get, get_or, put}
use rpc.Common.Words.{ℤ, pos, negsuc, int_eq}

pub data State : Type 0 where
  state_idle state_attack state_go_home : State

pub data Line : Type 0 where
  enters ticks exits : State → Line

pub record Fsm : Type 0 where
  pub all_states : Dict ℤ (Option State)
  pub cur_state : ℤ
  -- Of the StateIdle object.
  pub test_counter : ℕ
  pub output : List Line

abbrev pub idle_key : ℤ
idle_key = pos 1

abbrev pub attack_key : ℤ
attack_key = pos 2

abbrev pub go_home_key : ℤ
go_home_key = pos 3

abbrev pub init : Fsm
init = record { all_states = []; cur_state = negsuc 0; test_counter = 0; output = [] }

unfoldable pub state_at : ℤ → Dict ℤ (Option State) → Option State
unfolding get_or
state_at e all_states = get_or e none all_states

abbrev pub write : Line → Fsm → Fsm
write line f = record f { output = f.output ++ line ∷ [] }

unfoldable pub on_state_enter : State → Fsm → Fsm
on_state_enter state_idle f = record (write (enters state_idle) f) { test_counter = 0 }
on_state_enter state_attack f = write (enters state_attack) f
on_state_enter state_go_home f = write (enters state_go_home) f

abbrev pub on_state_exit : State → Fsm → Fsm
on_state_exit s f = write (exits s) f

abbrev pub register : ℤ → Option State → Fsm → Fsm
register e state f = record f { all_states = put e state f.all_states }

abbrev pub set_init_state : ℤ → Fsm → Fsm
set_init_state s f = record f { cur_state = s }

unfoldable pub trans : ℤ → Fsm → Option Fsm
unfolding state_at on_state_enter
trans new_state f = elim (state_at f.cur_state f.all_states) [
  | none ↦ none
  | some old ↦ elim (state_at new_state f.all_states) [
    | none ↦ none
    | some new ↦ some (record (on_state_enter new (on_state_exit old f)) { cur_state = new_state })
  ]
]

unfoldable pub on_state_tick : State → Fsm → Option Fsm
unfolding trans
on_state_tick state_idle f =
    let f' = record (write (ticks state_idle) f) { test_counter = f.test_counter + 1 } in
    if nat_beq f'.test_counter 5 then trans attack_key f' else some f'
on_state_tick state_attack f = some (write (ticks state_attack) f)
on_state_tick state_go_home f = some (write (ticks state_go_home) f)

unfoldable pub tick : Fsm → Option Fsm
unfolding state_at on_state_tick
tick f = elim (state_at f.cur_state f.all_states) [ none ↦ none | some s ↦ on_state_tick s f ]

-- What `main` makes, and so many rounds of its loop.
unfoldable pub machine : Fsm
unfolding put
machine = set_init_state idle_key (
    register go_home_key (some state_go_home)
      (register attack_key (some state_attack) (register idle_key (some state_idle) init)))

unfoldable pub main_loop : ℕ → Fsm → Option Fsm
unfolding tick
main_loop zero f = some f
main_loop (suc n) f = elim (tick f) [ none ↦ none | some f' ↦ main_loop n f' ]

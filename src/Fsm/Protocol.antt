-- ===== src/Fsm/Protocol.antt =====
-- What the states of a state machine may expect, and that transitions and ticks keep to it.
use rpc.Common.{
  ℕ, ◌+◌, ◌≡◌, refl, sym, ap, ◌∙◌, inl, inr, Bool, true, false, Bool-cases, Option, none, some,
  List, [], ◌∷◌, ◌++◌, append_assoc, append-nil, if◌then◌else◌, nat_beq, arith,
}
use rpc.Common.Words.{ℤ}
use rpc.Fsm.{
  State, state_idle, state_attack, state_go_home, Line, enters, ticks, exits, Fsm, attack_key,
  state_at, write, on_state_enter, on_state_exit, trans, on_state_tick, tick,
}

-- Where a state machine stands for its states: in one of them, or between two.
pub data Standing : Type 0 where
  inside : State → Standing
  between : Standing

abbrev pub same_state : State → State → Bool
same_state state_idle state_idle = true
same_state state_attack state_attack = true
same_state state_go_home state_go_home = true
same_state a b = false

-- A state is ticked and exited only while the machine is inside it, and entered only between two.
unfoldable pub accept : Standing → Line → Option Standing
accept (inside s) (ticks t) = if same_state s t then some (inside s) else none
accept (inside s) (exits t) = if same_state s t then some between else none
accept (inside s) (enters t) = none
accept between (enters t) = some (inside t)
accept between (ticks t) = none
accept between (exits t) = none

unfoldable pub replay : Standing → List Line → Option Standing
unfolding accept
replay p [] = some p
replay p (line ∷ lines) = elim (accept p line) [ none ↦ none | some p' ↦ replay p' lines ]

-- From `f` in the state `s` to `g` in the state `t`, writing what a replay accepts.
pub record Moves (f : Fsm) (s : State) (g : Fsm) (t : State) : Type 0 where
  pub states : g.all_states ≡ f.all_states
  pub now : state_at g.cur_state g.all_states ≡ some t
  pub lines : List Line
  pub written : g.output ≡ f.output ++ lines
  pub accepted : (rest : List Line) → replay (inside s) (lines ++ rest) ≡ replay (inside t) rest

same_state_refl : (s : State) → same_state s s ≡ true
same_state_refl state_idle = refl
same_state_refl state_attack = refl
same_state_refl state_go_home = refl

on_state_enter_lem :
    (t : State) (f : Fsm)
    → ((on_state_enter t f).all_states ≡ f.all_states)
      × ((on_state_enter t f).output ≡ f.output ++ enters t ∷ [])
unfolding on_state_enter
on_state_enter_lem state_idle f = (refl, refl)
on_state_enter_lem state_attack f = (refl, refl)
on_state_enter_lem state_go_home f = (refl, refl)

pub trans-Moves :
    (e : ℤ) (f : Fsm) (s t : State)
    → state_at f.cur_state f.all_states ≡ some s
    → state_at e f.all_states ≡ some t
    → (g : Fsm) × (trans e f ≡ some g) × Moves f s g t
unfolding trans replay accept
trans-Moves e f s t here there =
    let entered = on_state_enter t (on_state_exit s f) in
    let (states, output) = on_state_enter_lem t (on_state_exit s f) in
    (
      record entered { cur_state = e },
      ground (arith, here, there),
      record {
        states = states;
        now = ap (state_at e) states ∙ there;
        lines = exits s ∷ enters t ∷ [];
        written = output ∙ append_assoc f.output (exits s ∷ []) (enters t ∷ []);
        accepted = λ rest. ground (arith, same_state_refl s);
      },
    )

-- One line of a tick, before whatever the tick goes on to do.
tick_first :
    (f : Fsm) (n : ℕ) (s : State) (g : Fsm) (t : State)
    → Moves (record (write (ticks s) f) { test_counter = n }) s g t
    → Moves f s g t
unfolding replay accept
tick_first f n s g t m = record {
  states = m.states;
  now = m.now;
  lines = ticks s ∷ m.lines;
  written = m.written ∙ append_assoc f.output (ticks s ∷ []) m.lines;
  accepted = λ rest. ground (arith, same_state_refl s, m.accepted rest);
}

pub stays : (f : Fsm) (s : State) → state_at f.cur_state f.all_states ≡ some s → Moves f s f s
stays f s here = record {
  states = refl;
  now = here;
  lines = [];
  written = sym (append-nil f.output);
  accepted = λ rest. refl;
}

pub follows :
    (f : Fsm) (s : State) (g : Fsm) (t : State) (h : Fsm) (u : State)
    → Moves f s g t
    → Moves g t h u
    → Moves f s h u
follows f s g t h u m n = record {
  states = n.states ∙ m.states;
  now = n.now;
  lines = m.lines ++ n.lines;
  written = n.written ∙ ap (◌++ n.lines) m.written ∙ append_assoc f.output m.lines n.lines;
  accepted = λ rest.
      ap (replay (inside s)) (append_assoc m.lines n.lines rest)
      ∙ m.accepted (n.lines ++ rest)
      ∙ n.accepted rest;
}

pub tick-Moves :
    (f : Fsm) (s a : State)
    → state_at f.cur_state f.all_states ≡ some s
    → state_at attack_key f.all_states ≡ some a
    → (g : Fsm) × (t : State) × (tick f ≡ some g) × Moves f s g t
unfolding tick on_state_tick
tick-Moves f state_idle a here there = elim (Bool-cases (nat_beq (f.test_counter + 1) 5)) [
  | inl fifth ↦
      let f' : Fsm = record (write (ticks state_idle) f) { test_counter = f.test_counter + 1 } in
      let (g, ran, m) = trans-Moves attack_key f' state_idle a here there in
      (g, a, ground (arith, here, fifth, ran), tick_first f (f.test_counter + 1) state_idle g a m)
  | inr other ↦
      let f' : Fsm = record (write (ticks state_idle) f) { test_counter = f.test_counter + 1 } in
      (
        f',
        state_idle,
        ground (arith, here, other),
        tick_first f (f.test_counter + 1) state_idle f' state_idle (stays f' state_idle here),
      )
]
tick-Moves f state_attack a here there =
    let f' = write (ticks state_attack) f in
    (
      f',
      state_attack,
      ground (arith, here),
      tick_first f f.test_counter state_attack f' state_attack (stays f' state_attack here),
    )
tick-Moves f state_go_home a here there =
    let f' = write (ticks state_go_home) f in
    (
      f',
      state_go_home,
      ground (arith, here),
      tick_first f f.test_counter state_go_home f' state_go_home (stays f' state_go_home here),
    )

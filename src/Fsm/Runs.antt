-- ===== src/Fsm/Runs.antt =====
-- Any sequence of ticks and transitions, and its replay.
use rpc.Common.{
  ◌≡◌, refl, sym, ap, subst, ◌∙◌, Option, none, some, List, [], ◌∷◌, ◌++◌, append-nil, arith,
}
use rpc.Common.Dict.{Dict}
use rpc.Common.Words.{ℤ}
use rpc.Fsm.{State, Line, Fsm, attack_key, state_at, trans, tick}
use rpc.Fsm.Protocol.{inside, replay, Moves, stays, follows, trans-Moves, tick-Moves}

pub data Event : Type 0 where
  transits : ℤ → Event
  is_ticked : Event

unfoldable pub step : Event → Fsm → Option Fsm
step (transits e) f = trans e f
step is_ticked f = tick f

unfoldable pub run : List Event → Fsm → Option Fsm
unfolding step
run [] f = some f
run (e ∷ events) f = elim (step e f) [ none ↦ none | some f' ↦ run events f' ]

-- Every transition goes to a state that is registered.
abbrev pub AllKnown : List Event → Dict ℤ (Option State) → Type 0
AllKnown [] m = Unit
AllKnown (transits e ∷ events) m = ((s : State) × (state_at e m ≡ some s)) × AllKnown events m
AllKnown (is_ticked ∷ events) m = AllKnown events m

run-Moves :
    (events : List Event) (f : Fsm) (s a : State)
    → state_at f.cur_state f.all_states ≡ some s
    → state_at attack_key f.all_states ≡ some a
    → AllKnown events f.all_states
    → (g : Fsm) × (t : State) × (run events f ≡ some g) × Moves f s g t
unfolding run
run-Moves [] f s a here there known = (f, s, refl, stays f s here)
run-Moves (transits e ∷ events) f s a here there ((t, target), known) =
    let (g, ran, m) = trans-Moves e f s t here target in
    let (h, u, ran', n) =
      run-Moves events g t a m.now (ap (state_at attack_key) m.states ∙ there)
        (subst (AllKnown events) (sym m.states) known) in
    (h, u, ground (arith, ran, ran'), follows f s g t h u m n)
run-Moves (is_ticked ∷ events) f s a here there known =
    let (g, t, ran, m) = tick-Moves f s a here there in
    let (h, u, ran', n) =
      run-Moves events g t a m.now (ap (state_at attack_key) m.states ∙ there)
        (subst (AllKnown events) (sym m.states) known) in
    (h, u, ground (arith, ran, ran'), follows f s g t h u m n)

-- A state machine in the registered state s, with State_Attack registered, comes through any sequence
-- of ticks and of transitions to registered states, and is in a registered state t after it. In the
-- lines that are written meanwhile, a state is ticked and exited only while the machine is inside it
-- and entered only after the exit of the one before, from inside s to inside t.
pub run_replays :
    (events : List Event) (f : Fsm) (s a : State)
    → state_at f.cur_state f.all_states ≡ some s
    → state_at attack_key f.all_states ≡ some a
    → AllKnown events f.all_states
    → (g : Fsm) × (t : State) × (lines : List Line) × (run events f ≡ some g)
      × (state_at g.cur_state g.all_states ≡ some t)
      × (g.output ≡ f.output ++ lines)
      × (replay (inside s) lines ≡ some (inside t))
unfolding replay
run_replays events f s a here there known =
    let (g, t, ran, m) = run-Moves events f s a here there known in
    (
      g,
      t,
      m.lines,
      ran,
      m.now,
      m.written,
      sym (ap (replay (inside s)) (append-nil m.lines)) ∙ m.accepted [],
    )

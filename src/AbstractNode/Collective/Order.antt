-- ===== src/AbstractNode/Collective/Order.antt =====
-- In which order the requests and the messages of even-http/ps/core/abstract_node.cc meet.
use rpc.Common.{
  ℕ, ◌+◌, ◌<◌, ◌≡◌, refl, Bool, true, false, not, ◌&&◌, some, List, [], ◌∷◌, length, nat_eq, tag_eq,
  arith,
}
use rpc.Common.Dict.{get, has, get_or}
use rpc.Common.Words.{u64_mod}
use rpc.AbstractNode.Collective.{
  Collective, init, collective_receive_async, run_callback, is_received, Event, receives, arrives,
  calls_back, step, run,
}
use rpc.AbstractNode.Collective.History.{nth_receive, nth_arrival, used, is_some}
use rpc.AbstractNode.Collective.Matching.{Matches, init-Matches}
use rpc.AbstractNode.Collective.Matching.Receiving.{receives-Matches}
use rpc.AbstractNode.Collective.Matching.Arriving.{arrives-Matches, calls_back-Matches}

-- A history in which every request names a variable of its own, and memcpy_s copies each message.
abbrev pub IsValid : (ℕ → Bool) → List Event → List Event → Type 0
IsValid copies h [] = Unit
IsValid copies h (receives r o ∷ es) = (used o h ≡ false) × IsValid copies (receives r o ∷ h) es
IsValid copies h (arrives r d ∷ es) =
    (copies (length d) ≡ true) × IsValid copies (arrives r d ∷ h) es
IsValid copies h (calls_back t ∷ es) = IsValid copies (calls_back t ∷ h) es

-- The events `es` behind the history `h`.
abbrev pub past : List Event → List Event → List Event
past h [] = h
past h (e ∷ es) = past (e ∷ h) es

run-Matches :
    (copies : ℕ → Bool) (es h : List Event) (c : Collective)
    → IsValid copies h es
    → length es + length h < u64_mod
    → Matches h c
    → (c' : Collective) × (run copies es c ≡ some c') × Matches (past h es) c'
unfolding run step
run-Matches copies [] h c v small m = (c, refl, m)
run-Matches copies (receives r o ∷ es) h c (fresh, v) small m =
    run-Matches copies es (receives r o ∷ h) (collective_receive_async r o c).0 v (omega arith)
      (receives-Matches h c m (omega arith) r o fresh)
run-Matches copies (arrives r d ∷ es) h c (copied, v) small m =
    let (c1, stored, m1) = arrives-Matches h c m (omega arith) copies r d copied in
    let (c2, rest, m2) = run-Matches copies es (arrives r d ∷ h) c1 v (omega arith) m1 in
    (c2, ground (arith, stored, rest), m2)
run-Matches copies (calls_back t ∷ es) h c v small m =
    run-Matches copies es (calls_back t ∷ h) (run_callback t c) v (omega arith)
      (calls_back-Matches h c m (omega arith) t)

-- Whatever the order of requests, messages and callbacks (fewer than 2 ^ 64 of them, each request
-- with a variable of its own, and no message that memcpy_s refuses), the run has no fault; the `i`-th
-- request for a rank counts as received exactly when the rank's `i`-th message has come in and no
-- callback is due for it, and then its variable holds that message.
pub run_receives_in_order :
    (copies : ℕ → Bool) (es : List Event)
    → IsValid copies [] es
    → length es < u64_mod
    → (c : Collective) × (run copies es init ≡ some c)
      × ((r i : ℕ)
          → is_received (r, i) c ≡ (
              is_some (nth_receive r i (past [] es))
              && is_some (nth_arrival r i (past [] es))
              && not (has (r, i) c.running)))
      × ((r i o : ℕ) (d : List ℕ)
          → nth_receive r i (past [] es) ≡ some o
          → nth_arrival r i (past [] es) ≡ some d
          → has (r, i) c.running ≡ false
          → get o c.outputs ≡ some (some d))
unfolding is_received get_or
run_receives_in_order copies es v small =
    let (c, ran, m) = run-Matches copies es [] init v (omega arith) init-Matches in
    (c, ran, λ r i. ground (arith, m.done r i), m.written)

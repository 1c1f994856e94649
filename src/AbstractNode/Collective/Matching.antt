-- ===== src/AbstractNode/Collective/Matching.antt =====
-- What the maps of even-http/ps/core/abstract_node.h hold after a history of collective messages.
use rpc.Common.{
  ℕ, suc, ◌+◌, ◌%◌, ◌<◌, ◌≡◌, refl, inl, inr, Bool, true, false, not, ◌&&◌, Option, none, some,
  List, [], ◌∷◌, length, if◌then◌else◌, nat_beq, nat_eq, tag_eq, Option-cases, arith,
}
use rpc.Common.Dict.{Dict, get, has, put, get_or, get-put, get-erase, has-get, has-put, has-erase}
use rpc.Common.Words.{u64_mod}
use native.Mathlib.Nat.{mod-eq_of_lt}
use native.Mathlib.Decide.{ℕ_discrete}
use rpc.AbstractNode.Collective.{
  VectorPtr, Collective, init, next_rank_request_id, collective_receive_async, store_received,
  run_callback, Event, receives, arrives, calls_back,
}
use rpc.AbstractNode.Collective.History.{
  receive_count, arrival_count, nth_receive, nth_arrival, used, nth_receive_past, nth_arrival_past,
  receive_count_le, arrival_count_le, nth_receive-used, is_some,
}
pub mod Receiving
pub mod Arriving

-- What the maps hold for a tag: by its request, its message, and whether the server thread is about
-- to call back.
abbrev pub callback_of : Option ℕ → Option (List ℕ) → Bool → Option ℕ
callback_of none message w = none
callback_of (some o) none w = some o
callback_of (some o) (some d) w = if w then some o else none

abbrev pub data_of : Option ℕ → Option (List ℕ) → Bool → Option VectorPtr
data_of request none w = none
data_of none (some d) w = some (some d)
data_of (some o) (some d) w = if w then some (some d) else none

abbrev pub done_of : Option ℕ → Option (List ℕ) → Bool → Option Bool
done_of none message w = none
done_of (some o) none w = some false
done_of (some o) (some d) w = some (not w)

abbrev pub counted : ℕ → Option ℕ
counted n = if nat_beq n 0 then none else some n

pub record Matches (h : List Event) (c : Collective) : Type 0 where
  pub expected : (r : ℕ) → get r c.expected_rank_request_ids ≡ counted (receive_count r h)
  pub actual : (r : ℕ) → get r c.actual_rank_request_ids ≡ counted (arrival_count r h)
  pub callback :
      (r i : ℕ)
      → get (r, i) c.receive_callbacks
        ≡ callback_of (nth_receive r i h) (nth_arrival r i h) (has (r, i) c.running)
  pub received :
      (r i : ℕ)
      → get (r, i) c.received_data
        ≡ data_of (nth_receive r i h) (nth_arrival r i h) (has (r, i) c.running)
  pub done :
      (r i : ℕ)
      → get (r, i) c.receive_messages_done
        ≡ done_of (nth_receive r i h) (nth_arrival r i h) (has (r, i) c.running)
  pub due :
      (r i : ℕ)
      → has (r, i) c.running ≡ true
      → (is_some (nth_receive r i h) && is_some (nth_arrival r i h)) ≡ true
  pub written :
      (r i o : ℕ) (d : List ℕ)
      → nth_receive r i h ≡ some o
      → nth_arrival r i h ≡ some d
      → has (r, i) c.running ≡ false
      → get o c.outputs ≡ some (some d)
  pub apart :
      (r i s j o : ℕ) → nth_receive r i h ≡ some o → nth_receive s j h ≡ some o → (r ≡ s) × (i ≡ j)

pub init-Matches : Matches [] init
unfolding get has
init-Matches = record {
  expected = λ r. refl;
  actual = λ r. refl;
  callback = λ r i. refl;
  received = λ r i. refl;
  done = λ r i. refl;
  due = λ r i e. ground arith;
  written = λ r i o d e. absurd (ground arith);
  apart = λ r i s j o e. absurd (ground arith);
}

pub next_rank_request_id_lem :
    (r n : ℕ) (ids : Dict ℕ ℕ)
    → get r ids ≡ counted n
    → n + 1 < u64_mod
    → next_rank_request_id r ids ≡ (put r (suc n) ids, suc n)
unfolding next_rank_request_id
next_rank_request_id_lem r n ids e l = elim (ℕ_discrete n 0) [
  | yes z ↦ ground arith
  | no nz ↦ let fits : (n + 1) % u64_mod ≡ n + 1 = mod-eq_of_lt l in ground arith
]

-- ===== src/AbstractNode/Collective.antt =====
-- The collective messages of even-http/ps/core/abstract_node.cc: `CollectiveReceiveAsync` of a node
-- and `RunReceiveCallback` of its server thread, which meet in either order. A tag is the pair of a
-- rank and a rank request id. `output` points to a variable of the caller, here its number. A null
-- pointer to data is `none`. The lock is free between the first part of `RunReceiveCallback` and the
-- callback: `running` holds the tags for which the server thread is there. `copies` says for which
-- sizes memcpy_s succeeds; a failure throws (`none`).
pub mod History
pub mod Matching
pub mod Order
use rpc.Common.{
  ℕ, suc, ◌+◌, ◌%◌, Bool, true, false, Option, none, some, List, [], ◌∷◌, length, if◌then◌else◌,
  nat_eq, tag_eq,
}
use rpc.Common.Dict.{Dict, get, has, put, erase, get_or}
use rpc.Common.Words.{u64_mod}

abbrev pub VectorPtr : Type 0
VectorPtr = Option (List ℕ)

pub record Collective : Type 0 where
  pub expected_rank_request_ids : Dict ℕ ℕ
  pub actual_rank_request_ids : Dict ℕ ℕ
  pub received_data : Dict (ℕ × ℕ) VectorPtr
  pub receive_messages_done : Dict (ℕ × ℕ) Bool
  pub receive_callbacks : Dict (ℕ × ℕ) ℕ
  pub running : Dict (ℕ × ℕ) (Unit {0})
  pub outputs : Dict ℕ VectorPtr

abbrev pub init : Collective
init = record {
  expected_rank_request_ids = [];
  actual_rank_request_ids = [];
  received_data = [];
  receive_messages_done = [];
  receive_callbacks = [];
  running = [];
  outputs = [];
}

-- `NextExpectedRankRequestId` and `NextActualRankRequestId`, on their map.
unfoldable pub next_rank_request_id : ℕ → Dict ℕ ℕ → Dict ℕ ℕ × ℕ
unfolding get put
next_rank_request_id rank_id ids = elim (get rank_id ids) [
  | none ↦ (put rank_id 1 ids, 1)
  | some n ↦ let next = (n + 1) % u64_mod in (put rank_id next ids, next)
]

-- What the immediate branch and the callback both do.
abbrev take_data : ℕ × ℕ → ℕ → Collective → Collective
take_data tag output c = record c {
  outputs = put output (get_or tag none c.received_data) c.outputs;
  received_data = erase tag c.received_data;
  receive_messages_done = put tag true c.receive_messages_done;
}

-- The body of `CollectiveReceiveAsync` behind its check of the rank.
unfoldable pub collective_receive_async : ℕ → ℕ → Collective → Collective × (ℕ × ℕ)
unfolding next_rank_request_id
collective_receive_async rank_id output c =
    let (ids, id) = next_rank_request_id rank_id c.expected_rank_request_ids in
    let tag : ℕ × ℕ = (rank_id, id) in
    let waiting : Collective = record c {
      expected_rank_request_ids = ids;
      receive_messages_done = put tag false c.receive_messages_done;
    } in
    (
      if has tag c.received_data
          then take_data tag output waiting
          else record waiting { receive_callbacks = put tag output c.receive_callbacks },
      tag,
    )

-- `RunReceiveCallback` up to where it frees the lock to call the callback, if there is one.
unfoldable pub store_received : (ℕ → Bool) → ℕ → List ℕ → Collective → Option Collective
unfolding next_rank_request_id
store_received copies rank_id bytes c =
    let (ids, id) = next_rank_request_id rank_id c.actual_rank_request_ids in
    let tag : ℕ × ℕ = (rank_id, id) in
    let stored : Collective = record c {
      actual_rank_request_ids = ids;
      received_data = put tag (some bytes) c.received_data;
    } in
    if copies (length bytes)
    then some (
        if has tag c.receive_callbacks
        then record stored { running = put tag tt c.running }
        else stored)
    else none

-- The callback and the rest of `RunReceiveCallback`, for a tag for which they are due.
unfoldable pub run_callback : ℕ × ℕ → Collective → Collective
run_callback tag c =
    if has tag c.running
    then elim (get tag c.receive_callbacks) [
      | none ↦ c
      | some output ↦ record (take_data tag output c) {
        receive_callbacks = erase tag c.receive_callbacks;
        running = erase tag c.running;
      }
    ]
    else c

-- What `CollectiveWait` waits for.
unfoldable pub is_received : ℕ × ℕ → Collective → Bool
is_received tag c = get_or tag false c.receive_messages_done

-- What the threads of a node do, in any order.
pub data Event : Type 0 where
  receives : ℕ → ℕ → Event
  arrives : ℕ → List ℕ → Event
  calls_back : ℕ × ℕ → Event

unfoldable pub step : (ℕ → Bool) → Event → Collective → Option Collective
unfolding collective_receive_async store_received run_callback
step copies (receives rank_id output) c = some (collective_receive_async rank_id output c).0
step copies (arrives rank_id bytes) c = store_received copies rank_id bytes c
step copies (calls_back tag) c = some (run_callback tag c)

unfoldable pub run : (ℕ → Bool) → List Event → Collective → Option Collective
unfolding step
run copies [] c = some c
run copies (e ∷ es) c = elim (step copies e c) [ none ↦ none | some c' ↦ run copies es c' ]

-- ===== src/AbstractNode/Requests.antt =====
-- The requests of even-http/ps/core/abstract_node.cc and their answers: `Send` to several ranks with
-- an output, the tracker of outstanding requests, and the handling of a response, which the one
-- event loop of all clients does for one response after the other. `outputs` holds the output
-- variable of each request, by the request's id. A callback is known by the ranks it asks for. That
-- the clients transmit what they are given, and locks, are not modelled. `copies` says for which sizes
-- memcpy_s succeeds; the exception where it fails is `none`, and the response is then not counted.
pub mod Answers
use rpc.Common.{
  ℕ, suc, ◌+◌, ◌%◌, Bool, true, false, Option, none, some, List, [], ◌∷◌, ◌++◌, map, length,
  if◌then◌else◌, nat_beq, nat_eq, ◌||◌,
}
use rpc.Common.Dict.{Dict, get, put, erase, subscript, get_or}
use rpc.Common.Words.{u32_mod, u64_mod}
use rpc.AbstractNode.Collective.{VectorPtr}

pub record Requests : Type 0 where
  pub next_request_id : ℕ
  pub message_tracker : Dict ℕ (ℕ × ℕ)
  pub receive_messages : Dict ℕ (Dict ℕ (List ℕ))
  pub message_callbacks : Dict ℕ (List ℕ)
  pub outputs : Dict ℕ (List VectorPtr)

unfoldable pub add_message_track : ℕ → Requests → Requests × ℕ
add_message_track expected_response q =
    let request_id = (q.next_request_id + 1) % u64_mod in
    (
      record q {
        next_request_id = request_id;
        message_tracker = put request_id (expected_response % u32_mod, 0) q.message_tracker;
      },
      request_id,
    )

abbrev pub set_message_callback : ℕ → List ℕ → Requests → Requests
set_message_callback request_id rank_ids q = record q {
  message_callbacks = put request_id rank_ids q.message_callbacks;
}

-- `Send` up to its loop: the exception for lists of different lengths comes after the id is taken,
-- and leaves nobody to see the result.
unfoldable pub begin_send : List ℕ → List (List ℕ) → Requests → Option (Requests × ℕ)
unfolding add_message_track
begin_send rank_ids messages q =
    let (tracked, request_id) = add_message_track (length messages) q in
    if nat_beq (length rank_ids) (length messages)
    then some (set_message_callback request_id rank_ids tracked, request_id)
    else none

-- `message_tracker_[request_id]`, which gives a missing id two zeros.
unfoldable pub tracked_of : ℕ → Requests → ℕ × ℕ
unfolding get_or
tracked_of request_id q = get_or request_id (0, 0) q.message_tracker

unfoldable pub check_message_track : ℕ → Requests → Requests × Bool
unfolding tracked_of
check_message_track request_id q =
    let (expected, actual) = tracked_of request_id q in
    (
      record q { message_tracker = subscript request_id (0, 0) q.message_tracker },
      nat_beq expected ((actual + 1) % u32_mod),
    )

-- Where the data of a response goes once they are copied.
unfoldable pub store_response : ℕ → ℕ → List ℕ → Requests → Requests
unfolding get_or
store_response request_id rank_id received q = record q {
  receive_messages =
      put request_id (put rank_id received (get_or request_id [] q.receive_messages))
        q.receive_messages;
}

-- What the callback of `Send` appends to its output.
abbrev pub collect : List ℕ → Dict ℕ (List ℕ) → List VectorPtr
collect [] res = []
collect (r ∷ rank_ids) res = get r res ∷ collect rank_ids res

unfoldable pub call : ℕ → List ℕ → Requests → Requests
unfolding get_or
call request_id rank_ids q = record q {
  outputs =
      put request_id
        (get_or request_id [] q.outputs
          ++ collect rank_ids (get_or request_id [] q.receive_messages))
        q.outputs;
  receive_messages = erase request_id q.receive_messages;
}

unfoldable pub run_message_callback : ℕ → Requests → Requests
unfolding check_message_track call
run_message_callback request_id q =
    let (q', due) = check_message_track request_id q in
    if due
    then elim (get request_id q'.message_callbacks) [
      | none ↦ q'
      | some rank_ids ↦ record (call request_id rank_ids q') {
        message_callbacks = erase request_id q'.message_callbacks;
      }
    ]
    else q'

unfoldable pub notify_message_arrival : ℕ → Requests → Requests
unfolding tracked_of
notify_message_arrival request_id q =
    let (expected, actual) = tracked_of request_id q in
    record q {
      message_tracker = put request_id (expected, (actual + 1) % u32_mod) q.message_tracker;
    }

module _ (copies : ℕ → Bool) where
  -- Data of no bytes are not copied.
  abbrev pub is_copied : List ℕ → Bool
  is_copied received = nat_beq (length received) 0 || copies (length received)

  unfoldable pub process_send_data_resp : ℕ → ℕ → List ℕ → Requests → Option Requests
  process_send_data_resp request_id rank_id received q =
      if is_copied received then some (store_response request_id rank_id received q) else none

  -- A client's callback on the response to `SEND_DATA`.
  unfoldable pub handle_response : ℕ → ℕ → List ℕ → Requests → Option Requests
  unfolding process_send_data_resp
  handle_response request_id rank_id received q =
      elim (process_send_data_resp request_id rank_id received q) [
        | none ↦ none
        | some stored ↦
            some (notify_message_arrival request_id (run_message_callback request_id stored))
      ]

-- What `Wait` waits for, and how it ends: with that, or with a timeout.
unfoldable pub is_answered : ℕ → Requests → Bool
unfolding tracked_of
is_answered request_id q =
    let (expected, actual) = tracked_of request_id q in nat_beq expected actual

unfoldable pub end_wait : ℕ → Requests → Requests × Bool
unfolding is_answered
end_wait request_id q =
    (record q { message_tracker = erase request_id q.message_tracker }, is_answered request_id q)

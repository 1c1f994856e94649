-- ===== src/Tests/Sends.antt =====
-- Witnesses and tests for the sends of even-http/ps/core/abstract_node.cc and for server_node.cc beside
-- it.
use rpc.Common.{
  Bool, arith, ltb, ℕ, ◌≡◌, ◌≢◌, refl, true, none, some, List, [], ◌∷◌, length, if◌then◌else◌,
  nat_eq,
}
use rpc.Common.Dict.{Dict, get, has, put}
use rpc.Cluster.{server, worker}
use rpc.CommUtil.{validate_rank_id}
use rpc.AbstractNode.Collective.{init}
use rpc.AbstractNode.Requests.{Requests, begin_send, add_message_track, is_answered}
use rpc.AbstractNode.Requests.Answers.{Response, handle_all}
use rpc.ServerNode.Messages.{Server}
use rpc.ServerNode.Messages.Answering.{all_answer, answers_collected}
use rpc.AbstractNode.Sends.{Node, send_all}
use rpc.AbstractNode.Sends.Delivery.{deliveries, send_all_lem, address_of}

abbrev quiet : Requests
quiet = record {
  next_request_id = 4;
  message_tracker = [];
  receive_messages = [];
  message_callbacks = [];
  outputs = [];
}

abbrev worker_zero : Node
worker_zero = record {
  role = worker;
  rank_id = 0;
  server_num = 2;
  worker_num = 1;
  nodes_address = (0, ("10.0.0.2", 8000)) ∷ (1, ("10.0.0.3", 8001)) ∷ [];
  connected_nodes = [];
  requests = quiet;
  sent = [];
}

abbrev two_ranks : List ℕ
two_ranks = 1 ∷ 0 ∷ []

abbrev two_messages : List (List ℕ)
two_messages = (7 ∷ []) ∷ (8 ∷ []) ∷ []

send_all_lem_example :
    let (n', answer) = send_all server two_ranks two_messages (1 ∷ 1 ∷ []) 3 worker_zero in
    let due = deliveries server 5 3 two_ranks two_messages (1 ∷ 1 ∷ []) worker_zero in
    (length two_ranks ≡ length two_messages
      → (n'.sent ≡ due.0) × (answer ≡ (if due.1 then none else some 5)))
    × (length two_ranks ≢ length two_messages → (n'.sent ≡ []) × (answer ≡ none))
    × (get 5 n'.requests.message_tracker ≡ some (2, 0))
send_all_lem_example = send_all_lem server two_ranks two_messages (1 ∷ 1 ∷ []) 3 worker_zero

-- Both messages of the first test are due, to the servers in the order asked for.
two_due : length (deliveries server 5 3 two_ranks two_messages (1 ∷ 1 ∷ []) worker_zero).0 ≡ 2
unfolding deliveries validate_rank_id address_of get
two_due = refl

-- Memcpy_s refuses an empty block.
abbrev copies_some : ℕ → Bool
copies_some size = ltb 0 size

-- A service that puts the rank before the data.
abbrev with_rank : ℕ → List ℕ → List ℕ
with_rank rank_id bytes = rank_id ∷ bytes

abbrev server_at : ℕ → Server
server_at rank_id = record { role = server; rank_id = rank_id; collective = init; sent = [] }

abbrev begun : Requests
begun = record quiet {
  next_request_id = 5;
  message_tracker = (5, (2, 0)) ∷ [];
  message_callbacks = (5, 1 ∷ 0 ∷ []) ∷ [];
}

-- Server 0 is the first to come to its message.
abbrev asked : Dict ℕ (List ℕ)
asked = (0, 8 ∷ []) ∷ (1, 7 ∷ []) ∷ []

some_bytes : (r : ℕ) (bytes : List ℕ) → get r asked ≡ some bytes → copies_some (length bytes) ≡ true
unfolding get
some_bytes r bytes h = ground arith

answers_collected_example :
    (es : List Response) × (all_answer copies_some with_rank server_at 3 worker_zero 5 asked
      ≡ some es)
    × (done : Requests) × (handle_all copies_some es begun ≡ some done)
    × (is_answered 5 done ≡ true)
    × (get 5 done.outputs ≡ some (some (1 ∷ 7 ∷ []) ∷ some (0 ∷ 8 ∷ []) ∷ []))
unfolding get has begin_send add_message_track put
answers_collected_example =
    answers_collected copies_some with_rank server_at 3 worker_zero two_ranks two_messages quiet
      begun 5 asked (λ r. refl) some_bytes (λ r bytes h. ground arith) refl refl refl (ground arith)
      (ground arith) (refl, (refl, tt)) refl (refl, (refl, tt))

-- One length is missing: the first message is sent, and there is no result.
one_due :
    (length (deliveries server 5 3 two_ranks two_messages (1 ∷ []) worker_zero).0 ≡ 1)
    × ((deliveries server 5 3 two_ranks two_messages (1 ∷ []) worker_zero).1 ≡ true)
unfolding deliveries validate_rank_id address_of get
one_due = (refl, refl)

-- ===== src/Tests/Nodes.antt =====
-- Witnesses and tests for even-http/ps/core/abstract_node.cc.
use rpc.Common.{
  ℕ, ◌≡◌, refl, Bool, true, false, not, ◌&&◌, some, List, [], ◌∷◌, ltb, nat_eq, tag_eq, arith, ◌||◌,
  string_eq,
}
use rpc.Common.Dict.{get, has, put}
use rpc.AbstractNode.Collective.{
  VectorPtr, Collective, is_received, Event, receives, arrives, calls_back, run,
}
use rpc.Cluster.{worker}
use rpc.NodeManager.{init_node_num}
use rpc.SchedulerNode.{SchedulerNode, Response as Answer, process_register, process_heartbeat}
use rpc.SchedulerNode.Ranks.{started, started-Inv, Registered}
use rpc.AbstractNode.Member.{Member, register_message, receive}
use rpc.AbstractNode.Member.Registration.{told, registration_agrees, heartbeat_agrees}
use rpc.AbstractNode.Collective as Collective
use rpc.AbstractNode.Collective.History.{nth_receive, nth_arrival, is_some}
use rpc.AbstractNode.Collective.Order.{past, run_receives_in_order}
use rpc.AbstractNode.Requests.{Requests, begin_send, is_answered, add_message_track}
use rpc.AbstractNode.Requests.Answers.{Response, handle_all, begin_send_collects}

-- memcpy_s refuses an empty block.
abbrev copies_some : ℕ → Bool
copies_some n = ltb 0 n

-- Rank 3 is asked before its first message and after its second.
abbrev events : List Event
events =
    receives 3 10
    ∷ arrives 3 (7 ∷ [])
    ∷ calls_back (3, 1)
    ∷ arrives 3 (8 ∷ 9 ∷ [])
    ∷ receives 3 11
    ∷ []

run_receives_in_order_example :
    (c : Collective) × (run copies_some events Collective.init ≡ some c)
    × ((r i : ℕ)
        → is_received (r, i) c ≡ (
            is_some (nth_receive r i (past [] events))
            && is_some (nth_arrival r i (past [] events))
            && not (has (r, i) c.running)))
    × ((r i o : ℕ) (d : List ℕ)
        → nth_receive r i (past [] events) ≡ some o
        → nth_arrival r i (past [] events) ≡ some d
        → has (r, i) c.running ≡ false
        → get o c.outputs ≡ some (some d))
run_receives_in_order_example =
    run_receives_in_order copies_some events (refl, (refl, (refl, (refl, tt)))) (ground arith)

abbrev idle : Requests
idle = record {
  next_request_id = 4;
  message_tracker = [];
  receive_messages = [];
  message_callbacks = [];
  outputs = [];
}

-- What `Send` leaves for ranks 2 and 0.
abbrev begun : Requests
begun = record idle {
  next_request_id = 5;
  message_tracker = (5, (2, 0)) ∷ [];
  message_callbacks = (5, 2 ∷ 0 ∷ []) ∷ [];
}

abbrev responses : List Response
responses = (5, (0, 7 ∷ [])) ∷ (9, (1, 1 ∷ [])) ∷ (5, (2, 8 ∷ [])) ∷ []

begin_send_collects_example :
    (r : Requests) × (handle_all copies_some responses begun ≡ some r)
    × (is_answered 5 r ≡ true)
    × (get 5 r.outputs ≡ some (some (8 ∷ []) ∷ some (7 ∷ []) ∷ []))
unfolding get begin_send add_message_track put
begin_send_collects_example =
    begin_send_collects copies_some (2 ∷ 0 ∷ []) ((1 ∷ []) ∷ (2 ∷ []) ∷ []) idle begun 5 responses
      (refl, (refl, (refl, tt))) refl refl refl (ground arith) (ground arith) (ground arith)

abbrev node_a : Member
node_a = record {
  ip = "10.0.0.1";
  port = 8080;
  node_id = "a";
  role = worker;
  rank_id = 0;
  is_ready = false;
  is_finish = false;
  is_timeout = false;
  has_callback = true;
  events = [];
  finish_beats = 0;
  nodes_address = [];
}

registration_agrees_example :
    (s' : SchedulerNode) × (answer : Answer) × (n' : Member) × (process_register 100
        (register_message node_a)
        (started 1 1)
      ≡ some (s', answer))
    × (receive answer node_a ≡ some n')
    × Registered (register_message node_a) n'.rank_id 100 s'
unfolding init_node_num get
registration_agrees_example =
    registration_agrees (started 1 1) 0 100 node_a (started-Inv 1 1) (ground arith) (λ e. cc) refl

heartbeat_agrees_example :
    let (s', answer) = process_heartbeat 101 "a" true (started 1 1) in
    let m = s'.node_manager in
    (n' : Member) × (receive answer node_a ≡ some n')
    × (n'.is_timeout ≡ m.is_cluster_timeout)
    × (n'.is_finish ≡ (m.is_cluster_finish || false))
    × (n'.is_ready ≡ (m.is_cluster_ready || (m.is_cluster_timeout && true)))
    × (n'.events ≡ told m.is_cluster_timeout m.is_node_timeout node_a)
heartbeat_agrees_example = heartbeat_agrees (started 1 1) 101 true node_a

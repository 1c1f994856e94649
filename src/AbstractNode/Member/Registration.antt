-- ===== src/AbstractNode/Member/Registration.antt =====
-- `Register` of even-http/ps/core/abstract_node.cc against `ProcessRegister` of
-- even-http/ps/core/scheduler_node.cc, and heartbeats against their answers.
use rpc.Common.{
  List, [], ◌∷◌, ◌++◌, append-nil, append_assoc, if◌then◌else◌, Bool, ℕ, ◌≤◌, ◌<◌, ◌^◌, ◌≡◌, refl,
  ◌≢◌, ◌&&◌, ◌||◌, none, some, string_eq, equals_refl, arith,
}
use rpc.Common.Dict.{get}
use rpc.Common.Words.{pos, to_uint32}
use rpc.Cluster.{NodeRole, server, worker, scheduler}
use rpc.NodeManager.{NodeManager}
use rpc.NodeManager.History.{Inv}
use rpc.SchedulerNode.{SchedulerNode, Response, register_resp, process_register, process_heartbeat}
use rpc.SchedulerNode.Ranks.{ranked, Registered, process_register_lem}
use rpc.AbstractNode.Member.{
  Member, NodeEvent, cluster_timeout, node_timeout, set_ready, set_finish, set_timeout,
  report_node_timeout, register_message, receive, process_register_resp, process_heartbeat_resp,
}

ranked_le : (role : NodeRole) (k : ℕ) (m : NodeManager) → Inv k m → ranked role m ≤ k
ranked_le server k m v = v.1.0
ranked_le worker k m v = v.1.1
ranked_le scheduler k m v = omega arith

-- A server or worker that the scheduler does not know registers: if the table is in order and its
-- counters have gone up to `k` below 2 ^ 31 at most, the scheduler answers, the node takes the answer, and then
-- the node's rank is the one that the table holds for it, and the table's heartbeat is `now`.
pub registration_agrees :
    (s : SchedulerNode) (k now : ℕ) (n : Member)
    → Inv k s.node_manager
    → k < 2 ^ 31
    → n.role ≢ scheduler
    → get n.node_id s.node_manager.nodes_info ≡ none
    → (s' : SchedulerNode) × (answer : Response) × (n' : Member) × (process_register now
          (register_message n)
          s
        ≡ some (s', answer))
      × (receive answer n ≡ some n')
      × Registered (register_message n) n'.rank_id now s'
unfolding receive process_register_resp to_uint32
registration_agrees s k now n v small role fresh =
    let r = register_message n in
    let rank = ranked n.role s.node_manager in
    let (s', answered, entered) = process_register_lem s k now r v small role fresh in
    (
      s',
      register_resp n.node_id (pos rank),
      record n { rank_id = rank },
      answered,
      ground (arith, equals_refl n.node_id, ranked_le n.role k s.node_manager v),
      entered,
    )

-- What the event callback is told of one heartbeat, if there is a callback.
abbrev pub told : Bool → Bool → Member → List NodeEvent
told timed_out node_timed_out n =
    if n.has_callback
    then (if timed_out then cluster_timeout ∷ [] else [])
      ++ (if node_timed_out then node_timeout ∷ [] else [])
    else []

flags :
    (ready finished timed_out node_timed_out : Bool) (n : Member)
    → let n' = process_heartbeat_resp ready finished timed_out node_timed_out n in
      (n'.is_timeout ≡ timed_out)
      × (n'.is_finish ≡ (finished || n.is_finish))
      × (n'.is_ready ≡ (ready || (timed_out && n.has_callback)))
      × (n'.events ≡ n.events ++ told timed_out node_timed_out n)
unfolding process_heartbeat_resp set_ready set_finish set_timeout report_node_timeout
flags ready finished timed_out node_timed_out n = (
  ground arith,
  ground arith,
  ground arith,
  ground (
    arith,
    append-nil n.events,
    append_assoc n.events (cluster_timeout ∷ []) (node_timeout ∷ []),
  ),
)

-- A heartbeat and its answer: afterwards the node is timed out exactly if the cluster is for the
-- scheduler, it has finished if the cluster has or it had before, and it is ready if the cluster is, or
-- if the cluster is timed out and the node has an event callback. The callback is told of the cluster's
-- timeout, and of a node's, exactly where the scheduler says so, in this order.
pub heartbeat_agrees :
    (s : SchedulerNode) (now : ℕ) (finishing : Bool) (n : Member)
    → let (s', answer) = process_heartbeat now n.node_id finishing s in
      let m = s'.node_manager in
      (n' : Member) × (receive answer n ≡ some n')
      × (n'.is_timeout ≡ m.is_cluster_timeout)
      × (n'.is_finish ≡ (m.is_cluster_finish || n.is_finish))
      × (n'.is_ready ≡ (m.is_cluster_ready || (m.is_cluster_timeout && n.has_callback)))
      × (n'.events ≡ n.events ++ told m.is_cluster_timeout m.is_node_timeout n)
unfolding process_heartbeat receive
heartbeat_agrees s now finishing n =
    let m = (process_heartbeat now n.node_id finishing s).0.node_manager in
    let f = flags m.is_cluster_ready m.is_cluster_finish m.is_cluster_timeout m.is_node_timeout n in
    (
      process_heartbeat_resp m.is_cluster_ready m.is_cluster_finish m.is_cluster_timeout
          m.is_node_timeout n,
      refl,
      f.0,
      f.1,
      f.2,
      f.3,
    )

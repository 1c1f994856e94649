-- ===== src/SchedulerNode.antt =====
-- even-http/ps/core/scheduler_node.h and scheduler_node.cc: the handlers of the scheduler's messages
-- and the two halves of its timer's loop, between which it sleeps and handlers run. A request
-- is a message parsed by protobuf, under its command; a response is what is serialized and sent back.
-- `now` is the wall clock in seconds, `elapsed` says whether cluster_available_timeout has passed
-- since the timer started. An exception is `none`.
pub mod Ranks
use rpc.Common.{
  ℕ, Bool, true, false, not, ◌&&◌, ◌||◌, String, Option, none, some, List, [], ◌∷◌, if◌then◌else◌,
}
use rpc.Common.Words.{ℤ, pos, negsuc}
use rpc.Cluster.{RegisterMessage, ServersMeta}
use rpc.NodeManager.{
  NodeManager, next_rank_id, update_heartbeat, update_node_finish_state, check_nodes_finish_state,
  fetch_servers_meta, update_cluster_state, check_cluster_timeout, add_finish_node,
}

pub record SchedulerNode : Type 0 where
  pub node_manager : NodeManager
  pub is_ready : Bool
  pub is_finish : Bool

pub data Request : Type 0 where
  heartbeat : String → Bool → Request
  register : RegisterMessage → Request
  finish : String → Request
  fetch_server : Request
  unsupported : Request

pub data Response : Type 0 where
  heartbeat_resp : Bool → Bool → Bool → Bool → Response
  register_resp : String → ℤ → Response
  finish_resp : String → Response
  fetch_servers_resp : List ServersMeta → Response

unfoldable pub process_heartbeat : ℕ → String → Bool → SchedulerNode → SchedulerNode × Response
process_heartbeat now node_id is_node_finish s =
    let beaten = update_heartbeat node_id now s.node_manager in
    let m = if is_node_finish then update_node_finish_state node_id beaten else beaten in
    (
      record s {
        node_manager = m;
        is_finish = if is_node_finish && check_nodes_finish_state m then true else s.is_finish;
      },
      heartbeat_resp m.is_cluster_ready m.is_cluster_finish m.is_cluster_timeout m.is_node_timeout,
    )

unfoldable pub process_register :
    ℕ → RegisterMessage → SchedulerNode → Option (SchedulerNode × Response)
process_register now r s =
    let (m, rank_id) = next_rank_id r s.node_manager in
    elim rank_id [
      | negsuc n ↦ none
      | pos n ↦ some (
        record s { node_manager = update_heartbeat r.node_id now m },
        register_resp r.node_id (pos n),
      )
    ]

unfoldable pub process_finish : String → SchedulerNode → SchedulerNode × Response
process_finish node_id s =
    (record s { node_manager = add_finish_node node_id s.node_manager }, finish_resp node_id)

unfoldable pub process_fetch_servers : SchedulerNode → SchedulerNode × Response
process_fetch_servers s = (s, fetch_servers_resp (fetch_servers_meta s.node_manager))

-- The server's message callback: which handler a command has.
unfoldable pub handle : ℕ → Request → SchedulerNode → Option (SchedulerNode × Response)
unfolding process_heartbeat process_register process_finish process_fetch_servers
handle now (heartbeat node_id is_node_finish) s =
    some (process_heartbeat now node_id is_node_finish s)
handle now (register r) s = process_register now r s
handle now (finish node_id) s = some (process_finish node_id s)
handle now fetch_server s = some (process_fetch_servers s)
handle now unsupported s = none

-- The timer's loop up to its sleep, and behind it.
unfoldable pub check_start : Bool → SchedulerNode → SchedulerNode
check_start elapsed s =
    if not s.node_manager.is_cluster_ready && elapsed
    then record s { node_manager = check_cluster_timeout s.node_manager }
    else s

unfoldable pub update_state : ℕ → ℕ → SchedulerNode → SchedulerNode
update_state now heartbeat_timeout s =
    let m = update_cluster_state now heartbeat_timeout s.node_manager in
    record s {
      node_manager = m;
      is_ready = m.is_cluster_ready || s.is_ready;
      is_finish = m.is_cluster_finish || s.is_finish;
    }

-- What happens in a scheduler, in any order.
pub data Event : Type 0 where
  handles : ℕ → Request → Event
  checks_start : Bool → Event
  updates_state : ℕ → ℕ → Event

unfoldable pub step : Event → SchedulerNode → Option SchedulerNode
unfolding handle check_start update_state
step (handles now r) s = elim (handle now r s) [ none ↦ none | some (s', response) ↦ some s' ]
step (checks_start elapsed) s = some (check_start elapsed s)
step (updates_state now heartbeat_timeout) s = some (update_state now heartbeat_timeout s)

unfoldable pub run : List Event → SchedulerNode → Option SchedulerNode
unfolding step
run [] s = some s
run (e ∷ es) s = elim (step e s) [ none ↦ none | some s' ↦ run es s' ]

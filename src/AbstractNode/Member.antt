-- ===== src/AbstractNode/Member.antt =====
-- What the answers of the scheduler do to a node: the handlers of `InitCommandHandler` in
-- even-http/ps/core/abstract_node.cc. `events` logs the calls of the node's event callback, oldest
-- first, and `finish_beats` counts the heartbeats that say the node has finished. The handler that sends
-- one waits for its answer on the event loop's own thread, which alone could read it, so that wait ends
-- with its timeout and the handler goes on; what other threads do in that time is not modelled. The answers are
-- those of SchedulerNode, parsed by protobuf; an exception is `none`.
pub mod Registration
use rpc.Common.{
  ℕ, suc, ◌%◌, Bool, true, false, not, ◌&&◌, ◌||◌, String, Option, none, some, List, [], ◌∷◌, ◌++◌,
  if◌then◌else◌, ◌==◌, string_eq, nat_eq,
}
use rpc.Common.Dict.{Dict, put}
use rpc.Common.Words.{ℤ, pos, negsuc, to_uint32, u16_mod}
use rpc.Cluster.{NodeRole, RegisterMessage, ServersMeta}
use rpc.SchedulerNode.{Response, heartbeat_resp, register_resp, finish_resp, fetch_servers_resp}

pub data NodeEvent : Type 0 where
  cluster_timeout node_timeout scheduler_timeout : NodeEvent

pub record Member : Type 0 where
  pub ip : String
  pub port : ℕ
  pub node_id : String
  pub role : NodeRole
  pub rank_id : ℕ
  pub is_ready : Bool
  pub is_finish : Bool
  pub is_timeout : Bool
  pub has_callback : Bool
  pub events : List NodeEvent
  pub finish_beats : ℕ
  pub nodes_address : Dict ℕ (String × ℕ)

-- What `Register` sends.
abbrev pub register_message : Member → RegisterMessage
register_message n = record { ip = n.ip; port = n.port; node_id = n.node_id; role = n.role }

unfoldable pub process_register_resp : String → ℤ → Member → Option Member
process_register_resp node_id rank_id n =
    if node_id == n.node_id then some (record n { rank_id = to_uint32 rank_id }) else none

-- The parts of `ProcessHeartbeatResp`, in its order.
set_ready : Bool → Member → Member
set_ready ready n = record n { is_ready = ready }

set_finish : Bool → Member → Member
set_finish finished n =
    if finished then record n { is_finish = true; finish_beats = suc n.finish_beats } else n

set_timeout : Bool → Member → Member
set_timeout timed_out n =
    if timed_out && n.has_callback
    then record n {
      is_timeout = timed_out;
      is_ready = true;
      events = n.events ++ cluster_timeout ∷ [];
    }
    else record n { is_timeout = timed_out }

report_node_timeout : Bool → Member → Member
report_node_timeout timed_out n =
    if timed_out && n.has_callback then record n { events = n.events ++ node_timeout ∷ [] } else n

unfoldable pub process_heartbeat_resp : Bool → Bool → Bool → Bool → Member → Member
unfolding set_ready set_finish set_timeout report_node_timeout
process_heartbeat_resp ready finished timed_out node_timed_out n =
    report_node_timeout node_timed_out
      (set_timeout timed_out (set_finish finished (set_ready ready n)))

-- All keys have the role of a server, so the rank is enough.
unfoldable pub process_fetch_servers_resp : List ServersMeta → Member → Member
process_fetch_servers_resp [] n = n
process_fetch_servers_resp (meta ∷ metas) n = process_fetch_servers_resp metas (record n {
  nodes_address = put (to_uint32 meta.rank_id) (meta.ip, meta.port % u16_mod) n.nodes_address;
})

-- The message callback of the client to the scheduler.
unfoldable pub receive : Response → Member → Option Member
unfolding process_register_resp process_heartbeat_resp process_fetch_servers_resp
receive (heartbeat_resp ready finished timed_out node_timed_out) n =
    some (process_heartbeat_resp ready finished timed_out node_timed_out n)
receive (register_resp node_id rank_id) n = process_register_resp node_id rank_id n
receive (finish_resp node_id) n = some n
receive (fetch_servers_resp metas) n = some (process_fetch_servers_resp metas n)

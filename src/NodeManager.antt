-- ===== src/NodeManager.antt =====
-- even-http/ps/core/node_manager.h and node_manager.cc: the scheduler's table of nodes. The maps are
-- association lists, an unordered_set is a map to the unit; the wall clock (seconds) and the settings
-- of `ClusterConfig` are arguments. A method returns the new table beside its result.
pub mod Ranks
pub mod History
pub mod Registration
pub mod State
use rpc.Common.{
  ℕ, suc, ◌+◌, ◌%◌, Bool, true, false, not, ◌||◌, String, Option, none, some, List, [], ◌∷◌,
  if◌then◌else◌, ltb, nat_beq, string_eq,
}
use rpc.Common.Dict.{Dict, size, get, has, put, subscript, get_or}
use rpc.Common.Words.{ℤ, pos, negsuc, increment, to_uint32, to_int32, u16_mod}
use rpc.Cluster.{
  NodeRole, server, worker, scheduler, is_server, NodeInfo, default_node_info, RegisterMessage,
  ServersMeta,
}

pub record NodeManager : Type 0 where
  pub is_cluster_ready : Bool
  pub is_cluster_finish : Bool
  pub is_cluster_timeout : Bool
  pub is_node_timeout : Bool
  pub total_node_num : ℕ
  pub current_node_num : ℤ
  pub next_worker_rank_id : ℤ
  pub next_server_rank_id : ℤ
  pub nodes_info : Dict String NodeInfo
  pub heartbeats : Dict String ℕ
  pub heartbeats_finish_nodes : Dict String (Unit {0})
  pub timeout_nodes_info : Dict String NodeInfo
  pub finish_nodes_id : Dict String (Unit {0})

abbrev pub init : NodeManager
init = record {
  is_cluster_ready = false;
  is_cluster_finish = false;
  is_cluster_timeout = false;
  is_node_timeout = false;
  total_node_num = 0;
  current_node_num = negsuc 0;
  next_worker_rank_id = negsuc 0;
  next_server_rank_id = negsuc 0;
  nodes_info = [];
  heartbeats = [];
  heartbeats_finish_nodes = [];
  timeout_nodes_info = [];
  finish_nodes_id = [];
}

-- uint32_t addition wraps.
unfoldable pub init_node_num : ℕ → ℕ → NodeManager → NodeManager
init_node_num server_num worker_num m = record m {
  total_node_num = to_uint32 (pos (server_num + worker_num));
}

unfoldable pub server_info : RegisterMessage → ℤ → NodeInfo
server_info r rank = record {
  ip = r.ip;
  port = r.port % u16_mod;
  node_id = r.node_id;
  node_role = server;
  rank_id = to_uint32 rank;
}

unfoldable pub worker_info : RegisterMessage → ℤ → NodeInfo
worker_info r rank = record default_node_info {
  node_id = r.node_id;
  node_role = worker;
  rank_id = to_uint32 rank;
}

-- The branches of `NextRankId` for a node that is not in the table.
unfoldable pub assign_rank_id : NodeRole → RegisterMessage → NodeManager → NodeManager × ℤ
unfolding server_info worker_info
assign_rank_id server r m =
    let rank = increment m.next_server_rank_id in
    (
      record m {
        next_server_rank_id = rank;
        nodes_info = put r.node_id (server_info r rank) m.nodes_info;
      },
      rank,
    )
assign_rank_id worker r m =
    let rank = increment m.next_worker_rank_id in
    (
      record m {
        next_worker_rank_id = rank;
        nodes_info = put r.node_id (worker_info r rank) m.nodes_info;
      },
      rank,
    )
assign_rank_id scheduler r m = (m, negsuc 0)

unfoldable pub next_rank_id : RegisterMessage → NodeManager → NodeManager × ℤ
unfolding assign_rank_id
next_rank_id r m = elim (get r.node_id m.nodes_info) [
  | some info ↦ (m, to_int32 info.rank_id)
  | none ↦ assign_rank_id r.role r m
]

-- `nodes_info_[node_id]` is read for the log, and gives a missing node a default entry.
unfoldable pub update_heartbeat : String → ℕ → NodeManager → NodeManager
update_heartbeat node_id now m = record m {
  nodes_info = subscript node_id default_node_info m.nodes_info;
  heartbeats = put node_id now m.heartbeats;
}

pub update_node_finish_state : String → NodeManager → NodeManager
update_node_finish_state node_id m = record m {
  heartbeats_finish_nodes = put node_id tt m.heartbeats_finish_nodes;
}

pub check_nodes_finish_state : NodeManager → Bool
check_nodes_finish_state m = nat_beq (size m.heartbeats_finish_nodes) (size m.nodes_info)

servers_meta_of : Dict String NodeInfo → List ServersMeta
servers_meta_of [] = []
servers_meta_of ((id, info) ∷ nodes) =
    let rest = servers_meta_of nodes in
    if is_server info.node_role
    then record { rank_id = to_int32 info.rank_id; ip = info.ip; port = info.port } ∷ rest
    else rest

pub fetch_servers_meta : NodeManager → List ServersMeta
unfolding servers_meta_of
fetch_servers_meta m = servers_meta_of m.nodes_info

-- The first loop of `UpdateClusterState`: nodes whose last heartbeat is too old.
check_heartbeat : ℕ → ℕ → String → ℕ → NodeManager → NodeManager
check_heartbeat now timeout id seen m =
    if ltb (seen + timeout) now
    then record m {
      nodes_info = subscript id default_node_info m.nodes_info;
      timeout_nodes_info = put id (get_or id default_node_info m.nodes_info) m.timeout_nodes_info;
    }
    else m

collect_timeout_nodes : Dict String ℕ → ℕ → ℕ → NodeManager → NodeManager
collect_timeout_nodes [] now timeout m = m
collect_timeout_nodes ((id, seen) ∷ beats) now timeout m =
    collect_timeout_nodes beats now timeout (check_heartbeat now timeout id seen m)

-- The second loop: they count as finished.
finish_timeout_nodes : Dict String NodeInfo → Dict String (Unit {0}) → Dict String (Unit {0})
finish_timeout_nodes [] finished = finished
finish_timeout_nodes ((id, info) ∷ nodes) finished = finish_timeout_nodes nodes (put id tt finished)

abbrev eq_int : ℕ → ℤ → Bool
eq_int n (pos k) = nat_beq n k
eq_int n (negsuc k) = false

-- What `UpdateClusterState` does if some node is in the table of the timed out.
mark_timeout : Dict String NodeInfo → NodeManager → NodeManager
unfolding finish_timeout_nodes
mark_timeout [] m = m
mark_timeout (late ∷ nodes) m = record m {
  is_cluster_timeout = true;
  finish_nodes_id = finish_timeout_nodes (late ∷ nodes) m.finish_nodes_id;
}

update_timeout_state : ℕ → ℕ → NodeManager → NodeManager
unfolding collect_timeout_nodes mark_timeout
update_timeout_state now timeout m =
    let m' =
      collect_timeout_nodes m.heartbeats now timeout (record m { timeout_nodes_info = [] }) in
    mark_timeout m'.timeout_nodes_info m'

update_finish_state : NodeManager → NodeManager
update_finish_state m =
    let finished = size m.finish_nodes_id in
    if nat_beq finished m.total_node_num || eq_int finished m.current_node_num
    then record m { is_cluster_finish = true; is_cluster_ready = true }
    else m

update_ready_state : NodeManager → NodeManager
update_ready_state m =
    if nat_beq (size m.nodes_info) m.total_node_num then record m { is_cluster_ready = true } else m

pub update_cluster_state : ℕ → ℕ → NodeManager → NodeManager
unfolding update_timeout_state update_finish_state update_ready_state
update_cluster_state now timeout m =
    update_ready_state (update_finish_state (update_timeout_state now timeout m))

pub check_cluster_timeout : NodeManager → NodeManager
check_cluster_timeout m = if nat_beq m.total_node_num (size m.nodes_info) then m else record m {
  current_node_num = to_int32 (to_uint32 (pos (size m.nodes_info)));
  is_cluster_timeout = true;
}

pub add_finish_node : String → NodeManager → NodeManager
add_finish_node node_id m = record m { finish_nodes_id = put node_id tt m.finish_nodes_id }

pub set_cluster_timeout : Bool → NodeManager → NodeManager
set_cluster_timeout b m = record m { is_cluster_timeout = b }

-- One call on the table; the scheduler makes them in any order.
pub data Call : Type 0 where
  registers : RegisterMessage → Call
  beats : String → ℕ → Call
  finishes_heartbeat : String → Call
  finishes : String → Call
  updates : ℕ → ℕ → Call
  checks_timeout : Call

unfoldable pub step : Call → NodeManager → NodeManager
step (registers r) m = (next_rank_id r m).0
step (beats id now) m = update_heartbeat id now m
step (finishes_heartbeat id) m = update_node_finish_state id m
step (finishes id) m = add_finish_node id m
step (updates now timeout) m = update_cluster_state now timeout m
step checks_timeout m = check_cluster_timeout m

unfoldable pub run : List Call → NodeManager → NodeManager
run [] m = m
run (c ∷ cs) m = run cs (step c m)

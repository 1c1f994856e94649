-- ===== src/WorkerNode.antt =====
-- `Start` and `Stop` of even-http/ps/core/worker_node.cc. The heartbeat thread ends once the node has
-- finished, so joining it hangs before.
pub mod Stopping
use rpc.Common.{ℕ, Bool, true, false, not, List, [], ◌∷◌, ◌++◌, map, if◌then◌else◌}
use rpc.Cluster.{NodeRole, worker}
use rpc.NodeLife.{
  Effect, Exit, hangs, returns, throws, crashes, Env, NodeLife, does, join_cluster, creates_server,
  inits_client, joins_heartbeat, stops_client, stops_connected, joins_client, stops_server,
  joins_server,
}

unfoldable pub start : Env → NodeLife → NodeLife × Exit
unfolding join_cluster
start env n =
    join_cluster env
      (does (inits_client ∷ []) (record n { is_already_stopped = false; role = worker }))

unfoldable pub stop : NodeLife → NodeLife × Exit
stop n =
    let stopping : NodeLife = record n { is_ready = true; is_timeout = true; is_finish = true } in
    if n.is_already_stopped
    then (n, returns true)
    else if n.has_heart_beat_thread
    then if not stopping.is_finish then (stopping, hangs) else (
      does
          (joins_heartbeat
            ∷ stops_client
            ∷ (map stops_connected n.connected_nodes ++ joins_client ∷ []))
          (record stopping { is_already_stopped = true }),
      returns true,
    )
    else (stopping, crashes)

-- ===== src/WorkerNode/Stopping.antt =====
-- Stopping a node of even-http/ps/core/worker_node.cc.
use rpc.Common.{ℕ, ◌≡◌, true, false, ◌&&◌, List, [], ◌∷◌, ◌++◌, map, arith}
use rpc.Cluster.{worker}
use rpc.NodeLife.{
  Env, returns, throws, crashes, init, join_cluster, joins_heartbeat, stops_client, stops_connected,
  joins_client,
}
use rpc.WorkerNode.{start, stop}

-- A new worker node that has registered can be stopped once, whatever clients it has made: the threads and
-- connections are ended in this order, and another `Stop` does nothing. When the scheduler cannot be reached or does
-- not answer the registration, `Start` throws, and the next `Stop`, that of the destructor as well,
-- runs into the null pointer of the heartbeat thread.
pub stop_lem :
    (env : Env) (clients : List ℕ)
    → let (n, exit) = start env (init worker) in
      let (m, exit') = stop (record n { connected_nodes = clients }) in
      ((env.client_connects && env.register_answered) ≡ true
        → (exit' ≡ returns true)
          × (m.effects
              ≡ n.effects
                ++ joins_heartbeat
                  ∷ stops_client
                  ∷ (map stops_connected clients ++ joins_client ∷ []))
          × (stop m ≡ (m, returns true)))
      × ((env.client_connects && env.register_answered) ≡ false
          → (exit ≡ throws) × (exit' ≡ crashes))
unfolding start stop join_cluster
stop_lem env clients = ground arith

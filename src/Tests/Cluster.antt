-- ===== src/Tests/Cluster.antt =====
-- Witnesses and tests for even-http/ps/core/node_manager.cc.
use rpc.Common.{◌≡◌, refl, ◌||◌, String, some, List, [], ◌∷◌, nat_beq, string_eq, arith}
use rpc.Common.Words.{pos}
use rpc.Common.Dict.{get, has, size}
use rpc.Cluster.{NodeRole, server, worker, default_node_info, RegisterMessage}
use rpc.NodeManager.{
  init, next_rank_id, update_heartbeat, update_cluster_state, Call, registers, beats, updates, run,
}
use rpc.NodeManager.History.{IsValid, run-IsValid}
use rpc.NodeManager.Registration.{next_rank_id_stable, heartbeat_first_takes_rank_zero}
use rpc.NodeManager.State.{is_late, any_late, all_finished, update_cluster_state_lem}

abbrev from : String → NodeRole → RegisterMessage
from id role = record { ip = "10.0.0.1"; port = 8080; node_id = id; role = role }

-- Two servers and a worker come in, the first server is silent for too long.
abbrev history : List Call
history =
    registers (from "a" server)
    ∷ registers (from "b" worker)
    ∷ registers (from "c" server)
    ∷ beats "a" 100
    ∷ beats "c" 120
    ∷ updates 131 30
    ∷ []

run-IsValid_example : IsValid (run history init)
run-IsValid_example = run-IsValid history (ground arith)

next_rank_id_stable_example :
    let m = run history (next_rank_id (from "d" server) (run history init)).0 in
    next_rank_id (from "d" worker) m ≡ (m, (next_rank_id (from "d" server) (run history init)).1)
next_rank_id_stable_example =
    next_rank_id_stable (from "d" server) (from "d" worker) history history (ground arith) (λ e. cc)
      refl

heartbeat_first_takes_rank_zero_example :
    let m' = run (registers (from "b" server) ∷ []) (update_heartbeat "a" 5 init) in
    (next_rank_id (from "a" worker) m' ≡ (m', pos 0))
    × (get "a" m'.nodes_info ≡ some default_node_info)
unfolding get
heartbeat_first_takes_rank_zero_example =
    heartbeat_first_takes_rank_zero init (from "a" worker) 5 (registers (from "b" server) ∷ []) refl

update_cluster_state_lem_example :
    let m = run history init in
    let m' = update_cluster_state 200 30 m in
    ((id : String)
      → has id m'.finish_nodes_id ≡ (is_late id 200 30 m.heartbeats || has id m.finish_nodes_id))
    × (m'.is_cluster_timeout ≡ (m.is_cluster_timeout || any_late 200 30 m.heartbeats))
    × (m'.is_cluster_finish ≡ (m.is_cluster_finish || all_finished m'))
    × (m'.is_cluster_ready ≡ (
        m.is_cluster_ready || (all_finished m' || nat_beq (size m'.nodes_info) m'.total_node_num)))
update_cluster_state_lem_example = update_cluster_state_lem 200 30 (run history init)

-- ===== src/NodeLife.antt =====
-- How the nodes of even-http/ps/core start and end: what server_node.cc and worker_node.cc share; their
-- own parts are in ServerNode and WorkerNode. `effects` logs what a node does to its clients, its server and its
-- threads, oldest first; what these do to the node is not modelled here. `Env` is what the
-- environment answers.
use rpc.Common.{ℕ, Bool, true, false, ◌||◌, List, [], ◌∷◌, ◌++◌, if◌then◌else◌}
use rpc.Cluster.{NodeRole}

pub data Effect : Type 0 where
  creates_server inits_client registers starts_heartbeat fetches_servers disconnects : Effect
  joins_heartbeat stops_client joins_client stops_server joins_server : Effect
  stops_connected : ℕ → Effect

-- How a call ends: with a value, with an exception, at a null pointer, or not at all.
pub data Exit : Type 0 where
  returns : Bool → Exit
  throws crashes hangs : Exit

pub record Env : Type 0 where
  pub client_connects : Bool
  pub register_answered : Bool
  pub ready_in_time : Bool
  pub cluster_timed_out : Bool
  pub servers_answered : Bool

pub record NodeLife : Type 0 where
  pub role : NodeRole
  pub is_ready : Bool
  pub is_finish : Bool
  pub is_timeout : Bool
  pub is_already_stopped : Bool
  pub is_already_finished : Bool
  pub has_heart_beat_thread : Bool
  pub connected_nodes : List ℕ
  pub effects : List Effect

abbrev pub init : NodeRole → NodeLife
init role = record {
  role = role;
  is_ready = false;
  is_finish = false;
  is_timeout = false;
  is_already_stopped = true;
  is_already_finished = false;
  has_heart_beat_thread = false;
  connected_nodes = [];
  effects = [];
}

abbrev pub does : List Effect → NodeLife → NodeLife
does es n = record n { effects = n.effects ++ es }

-- `Start` of a server or a worker once it is initialized: the same text in both.
unfoldable pub join_cluster : Env → NodeLife → NodeLife × Exit
join_cluster env n =
    let beating : NodeLife =
      does (registers ∷ starts_heartbeat ∷ []) (record n { has_heart_beat_thread = true }) in
    let ready : NodeLife = record beating {
      is_timeout = env.cluster_timed_out;
      is_ready = env.ready_in_time;
    } in
    if env.client_connects
    then if env.register_answered
      then if env.ready_in_time
        then if env.cluster_timed_out then (ready, returns true) else (
          does (fetches_servers ∷ []) ready,
          if env.servers_answered then returns true else throws,
        )
        else (ready, returns false)
      else (does (registers ∷ []) n, throws)
    else (n, throws)

-- `Finish` of a server or a worker: the same text but for what is logged. `told` says whether the
-- node is told in time that the cluster has finished.
unfoldable pub finish : Bool → NodeLife → NodeLife × Exit
finish told n =
    let finished = n.is_finish || told in
    if n.is_already_finished then (n, returns true) else (
      does (disconnects ∷ []) (record n { is_already_finished = true; is_finish = finished }),
      returns finished,
    )

-- ===== src/NodeManager/History.antt =====
-- The numbering of the nodes over a whole history of calls on the table of
-- even-http/ps/core/node_manager.cc.
use rpc.Common.{
  ℕ, suc, ◌+◌, ◌≤◌, ◌<◌, ◌^◌, ◌≡◌, refl, inl, inr, String, none, List, [], ◌∷◌, length, string_eq,
  Option-cases, arith,
}
use rpc.Common.Dict.{Dict, get, subscript}
use rpc.Common.Words.{ℤ, pos, negsuc, increment, to_uint32}
use rpc.Cluster.{NodeRole, server, worker, scheduler, NodeInfo, default_node_info, RegisterMessage}
use rpc.NodeManager.{
  NodeManager, init, next_rank_id, assign_rank_id, server_info, worker_info, update_heartbeat,
  check_heartbeat, collect_timeout_nodes, mark_timeout, update_finish_state, update_ready_state,
  update_cluster_state, check_cluster_timeout, add_finish_node, update_node_finish_state, Call,
  registers, beats, finishes_heartbeat, finishes, updates, checks_timeout, step, run,
}
use rpc.NodeManager.Ranks.{
  issued, RanksAreDense, issued-increment, put-other, put-next, subscript-default,
}

-- Servers and workers are numbered apart.
abbrev pub IsValid : NodeManager → Type 0
IsValid m =
    RanksAreDense server m.next_server_rank_id m.nodes_info
    × RanksAreDense worker m.next_worker_rank_id m.nodes_info

pub init-IsValid : IsValid init
unfolding get increment
init-IsValid = (none_yet server, none_yet worker)
  where
    none_yet : (role : NodeRole) → RanksAreDense role (negsuc 0) []
    none_yet role = record {
      counts = refl;
      below = λ id x g r. absurd (ground arith);
      distinct = λ a b x y g h r s e. absurd (ground arith);
      taken = λ r l. absurd (omega arith);
    }

-- How far the two counters have gone.
abbrev pub IsWithin : ℕ → NodeManager → Type 0
IsWithin k m = (issued m.next_server_rank_id ≤ k) × (issued m.next_worker_rank_id ≤ k)

-- Both, of the table after some steps.
abbrev pub Inv : ℕ → NodeManager → Type 0
Inv k m = IsValid m × IsWithin k m

subscript-Inv :
    (k : ℕ) (m : NodeManager) (id : String)
    → Inv k m
    → Inv k (record m { nodes_info = subscript id default_node_info m.nodes_info })
subscript-Inv k m id ((s, w), b) = (
  (
    subscript-default server m.next_server_rank_id m.nodes_info s id (λ e. cc),
    subscript-default worker m.next_worker_rank_id m.nodes_info w id (λ e. cc),
  ),
  b,
)

pub rank_fits :
    (k : ℕ) (next : ℤ)
    → increment next ≡ pos (issued next)
    → issued next ≤ k
    → k < 2 ^ 31
    → to_uint32 (increment next) ≡ issued next
unfolding to_uint32
rank_fits k next c b small = ground arith

assign_rank_id-Inv :
    (role : NodeRole) (r : RegisterMessage) (m : NodeManager) (k : ℕ)
    → get r.node_id m.nodes_info ≡ none
    → k < 2 ^ 31
    → Inv k m
    → Inv (suc k) (assign_rank_id role r m).0
unfolding assign_rank_id
assign_rank_id-Inv server r m k fresh small ((s, w), b) =
    let next = m.next_server_rank_id in
    (
      (
        put-next server next m.nodes_info s r.node_id (server_info r (increment next)) fresh refl
            (rank_fits k next s.counts b.0 small),
        put-other worker m.next_worker_rank_id m.nodes_info w r.node_id _ fresh (λ e. cc),
      ),
      (omega (arith, issued-increment server next m.nodes_info s), omega arith),
    )
assign_rank_id-Inv worker r m k fresh small ((s, w), b) =
    let next = m.next_worker_rank_id in
    (
      (
        put-other server m.next_server_rank_id m.nodes_info s r.node_id _ fresh (λ e. cc),
        put-next worker next m.nodes_info w r.node_id (worker_info r (increment next)) fresh refl
            (rank_fits k next w.counts b.1 small),
      ),
      (omega arith, omega (arith, issued-increment worker next m.nodes_info w)),
    )
assign_rank_id-Inv scheduler r m k fresh small (v, b) = (v, (omega arith, omega arith))

next_rank_id-Inv :
    (r : RegisterMessage) (m : NodeManager) (k : ℕ)
    → k < 2 ^ 31
    → Inv k m
    → Inv (suc k) (next_rank_id r m).0
unfolding next_rank_id
next_rank_id-Inv r m k small (v, b) = elim (Option-cases (get r.node_id m.nodes_info)) [
  | inl fresh ↦ rw (fresh, next_rank_id) (assign_rank_id-Inv r.role r m k fresh small (v, b))
  | inr (info, known) ↦ rw (known, next_rank_id) (v, (omega arith, omega arith))
]

check_heartbeat-Inv :
    (now timeout : ℕ) (id : String) (seen k : ℕ) (m : NodeManager)
    → Inv k m
    → Inv k (check_heartbeat now timeout id seen m)
unfolding check_heartbeat
check_heartbeat-Inv now timeout id seen k m v = ground (arith, subscript-Inv k m id v)

collect_timeout_nodes-Inv :
    (bs : Dict String ℕ) (now timeout k : ℕ) (m : NodeManager)
    → Inv k m
    → Inv k (collect_timeout_nodes bs now timeout m)
unfolding collect_timeout_nodes
collect_timeout_nodes-Inv [] now timeout k m v = v
collect_timeout_nodes-Inv ((id, seen) ∷ bs) now timeout k m v =
    collect_timeout_nodes-Inv bs now timeout k (check_heartbeat now timeout id seen m)
      (check_heartbeat-Inv now timeout id seen k m v)

mark_timeout-Inv :
    (late : Dict String NodeInfo) (k : ℕ) (m : NodeManager) → Inv k m → Inv k (mark_timeout late m)
unfolding mark_timeout
mark_timeout-Inv [] k m v = v
mark_timeout-Inv (x ∷ late) k m v = v

update_finish_state-Inv : (k : ℕ) (m : NodeManager) → Inv k m → Inv k (update_finish_state m)
unfolding update_finish_state
update_finish_state-Inv k m v = ground arith

update_ready_state-Inv : (k : ℕ) (m : NodeManager) → Inv k m → Inv k (update_ready_state m)
unfolding update_ready_state
update_ready_state-Inv k m v = ground arith

update_cluster_state-Inv :
    (now timeout k : ℕ) (m : NodeManager) → Inv k m → Inv k (update_cluster_state now timeout m)
unfolding update_cluster_state
update_cluster_state-Inv now timeout k m v =
    let start = record m { timeout_nodes_info = [] } in
    let late = collect_timeout_nodes m.heartbeats now timeout start in
    let marked = mark_timeout late.timeout_nodes_info late in
    update_ready_state-Inv k (update_finish_state marked) (
      update_finish_state-Inv k marked (
        mark_timeout-Inv late.timeout_nodes_info k late
          (collect_timeout_nodes-Inv m.heartbeats now timeout k start v)))

check_cluster_timeout-Inv : (k : ℕ) (m : NodeManager) → Inv k m → Inv k (check_cluster_timeout m)
unfolding check_cluster_timeout
check_cluster_timeout-Inv k m v = ground arith

later : (k : ℕ) (m : NodeManager) → Inv k m → Inv (suc k) m
later k m (v, b) = (v, (omega arith, omega arith))

step-Inv : (c : Call) (k : ℕ) (m : NodeManager) → k < 2 ^ 31 → Inv k m → Inv (suc k) (step c m)
unfolding step update_heartbeat update_node_finish_state add_finish_node
step-Inv (registers r) k m small v = next_rank_id-Inv r m k small v
step-Inv (beats id now) k m small v = later k (update_heartbeat id now m) (subscript-Inv k m id v)
step-Inv (finishes_heartbeat id) k m small v = later k (update_node_finish_state id m) v
step-Inv (finishes id) k m small v = later k (add_finish_node id m) v
step-Inv (updates now timeout) k m small v =
    later k (update_cluster_state now timeout m) (update_cluster_state-Inv now timeout k m v)
step-Inv checks_timeout k m small v =
    later k (check_cluster_timeout m) (check_cluster_timeout-Inv k m v)

pub run-Inv :
    (cs : List Call) (k : ℕ) (m : NodeManager)
    → length cs + k ≤ 2 ^ 31
    → Inv k m
    → Inv (length cs + k) (run cs m)
unfolding run
run-Inv [] k m small v = (v.0, (omega arith, omega arith))
run-Inv (c ∷ cs) k m small v =
    let (valid, b) = run-Inv cs (suc k) (step c m) (omega arith) (step-Inv c k m (omega arith) v) in
    (valid, (omega arith, omega arith))

pub run-init-Inv : (cs : List Call) → length cs ≤ 2 ^ 31 → Inv (length cs) (run cs init)
run-init-Inv cs small =
    let (valid, b) = run-Inv cs 0 init (omega arith) (init-IsValid, (omega arith, omega arith)) in
    (valid, (omega arith, omega arith))

-- After any history of at most 2 ^ 31 calls (so that no counter passes the greatest int) the
-- servers hold the ranks from 0 up to their number, each rank at exactly one server, and so do the
-- workers: heartbeats, timeouts and finishing nodes never disturb the numbering.
pub run-IsValid : (cs : List Call) → length cs ≤ 2 ^ 31 → IsValid (run cs init)
run-IsValid cs small = (run-init-Inv cs small).0

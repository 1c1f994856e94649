-- ===== src/SchedulerNode/Ranks.antt =====
-- What the scheduler of even-http/ps/core/scheduler_node.cc does to its table, and the ranks it gives.
use rpc.Common.{
  ℕ, ◌+◌, ◌*◌, ◌≤◌, ◌<◌, ◌^◌, ◌≡◌, refl, sym, ap, subst, ◌≢◌, inl, inr, true, false, not, ◌&&◌,
  none, some, List, [], ◌∷◌, length, if◌then◌else◌, Option-cases, string_eq, arith,
}
use rpc.Common.Dict.{get, put, get-put_self, subscript_present}
use rpc.Common.Words.{pos, increment}
use rpc.Cluster.{NodeRole, server, worker, scheduler, NodeInfo, default_node_info, RegisterMessage}
use rpc.NodeManager.{
  NodeManager, init, init_node_num, next_rank_id, assign_rank_id, server_info, worker_info,
  update_heartbeat, Call, registers, beats, finishes_heartbeat, finishes, updates, checks_timeout,
}
use rpc.NodeManager.Ranks.{issued}
use rpc.NodeManager as NodeManager
use rpc.NodeManager.History.{Inv, IsValid, run-Inv, init-IsValid, rank_fits}
use rpc.SchedulerNode.{
  SchedulerNode, register_resp, heartbeat, register, finish, fetch_server, unsupported,
  process_heartbeat, process_register, process_finish, check_start, update_state, Event, handles,
  checks_start, updates_state, step, run,
}

-- The calls on the table that an event makes.
calls : Event → SchedulerNode → List Call
calls (handles now (heartbeat id true)) s = beats id now ∷ finishes_heartbeat id ∷ []
calls (handles now (heartbeat id false)) s = beats id now ∷ []
calls (handles now (register r)) s = registers r ∷ beats r.node_id now ∷ []
calls (handles now (finish id)) s = finishes id ∷ []
calls (handles now fetch_server) s = []
calls (handles now unsupported) s = []
calls (checks_start elapsed) s =
    if not s.node_manager.is_cluster_ready && elapsed then checks_timeout ∷ [] else []
calls (updates_state now timeout) s = updates now timeout ∷ []

calls_few : (e : Event) (s : SchedulerNode) → length (calls e s) ≤ 2
unfolding calls
calls_few (handles now (heartbeat id true)) s = ground arith
calls_few (handles now (heartbeat id false)) s = ground arith
calls_few (handles now (register r)) s = ground arith
calls_few (handles now (finish id)) s = ground arith
calls_few (handles now fetch_server) s = ground arith
calls_few (handles now unsupported) s = ground arith
calls_few (checks_start elapsed) s = ground arith
calls_few (updates_state now timeout) s = ground arith

step-calls :
    (e : Event) (s s' : SchedulerNode)
    → step e s ≡ some s'
    → s'.node_manager ≡ NodeManager.run (calls e s) s.node_manager
unfolding calls step NodeManager.run NodeManager.step process_heartbeat process_register
    process_finish check_start update_state
step-calls (handles now (heartbeat id true)) s s' e = ground (arith, e)
step-calls (handles now (heartbeat id false)) s s' e = ground (arith, e)
step-calls (handles now (register r)) s s' e = ground (arith, e)
step-calls (handles now (finish id)) s s' e = ground (arith, e)
step-calls (handles now fetch_server) s s' e = ground (arith, e)
step-calls (handles now unsupported) s s' e = absurd (ground (arith, e))
step-calls (checks_start elapsed) s s' e = ground (arith, e)
step-calls (updates_state now timeout) s s' e = ground (arith, e)

-- A scheduler as `CreateTcpServer` leaves it, for a cluster of so many nodes.
abbrev pub started : ℕ → ℕ → SchedulerNode
started server_num worker_num = record {
  node_manager = init_node_num server_num worker_num init;
  is_ready = false;
  is_finish = false;
}

pub started-Inv : (server_num worker_num : ℕ) → Inv 0 (started server_num worker_num).node_manager
unfolding init_node_num
started-Inv server_num worker_num = (init-IsValid, (omega arith, omega arith))

run-Inv-Inv :
    (es : List Event) (k : ℕ) (s s' : SchedulerNode)
    → 2 * length es + k ≤ 2 ^ 31
    → Inv k s.node_manager
    → run es s ≡ some s'
    → IsValid s'.node_manager
unfolding run
run-Inv-Inv [] k s s' small v e =
    let same : s.node_manager ≡ s'.node_manager = ground (arith, e) in
    subst (λ m. IsValid m) same v.0
run-Inv-Inv (x ∷ es) k s s' small v e = elim (Option-cases (step x s)) [
  | inl failed ↦ absurd (ground (arith, e, failed))
  | inr (t, stepped) ↦
      let few = calls_few x s in
      let made = step-calls x s t stepped in
      let next = run-Inv (calls x s) k s.node_manager (omega arith) v in
      run-Inv-Inv es (length (calls x s) + k) t s' (omega arith)
        (subst (λ m. Inv (length (calls x s) + k) m) (sym made) next) (ground (arith, e, stepped))
]

-- Whatever a scheduler handles and its timer does, in any order and for at most 2 ^ 30 events, as long
-- as no exception ends it, the servers hold the ranks from 0 up to their number, each exactly one, and
-- so do the workers.
pub run_keeps_ranks :
    (server_num worker_num : ℕ) (es : List Event) (s : SchedulerNode)
    → length es ≤ 2 ^ 30
    → run es (started server_num worker_num) ≡ some s
    → IsValid s.node_manager
run_keeps_ranks server_num worker_num es s small e =
    run-Inv-Inv es 0 (started server_num worker_num) s (omega arith)
      (started-Inv server_num worker_num) e

-- How many nodes of a role have a rank.
abbrev pub ranked : NodeRole → NodeManager → ℕ
ranked server m = issued m.next_server_rank_id
ranked worker m = issued m.next_worker_rank_id
ranked scheduler m = 0

-- What a registration answered with `rank` leaves in the scheduler.
abbrev pub Registered : RegisterMessage → ℕ → ℕ → SchedulerNode → Type 0
Registered r rank now s =
    (x : NodeInfo) × (get r.node_id s.node_manager.nodes_info ≡ some x)
    × (x.node_role ≡ r.role)
    × (x.rank_id ≡ rank)
    × (get r.node_id s.node_manager.heartbeats ≡ some now)

-- That it is answered so.
abbrev pub IsRegistered : RegisterMessage → ℕ → SchedulerNode → ℕ → Type 0
IsRegistered r now s rank =
    (s' : SchedulerNode) × (process_register now r s
      ≡ some (s', register_resp r.node_id (pos rank)))
    × Registered r rank now s'

register_as :
    (s : SchedulerNode) (k now : ℕ) (r : RegisterMessage) (info : NodeInfo) (m : NodeManager)
    (rank : ℕ)
    → next_rank_id r s.node_manager ≡ (m, pos rank)
    → get r.node_id m.nodes_info ≡ some info
    → info.node_role ≡ r.role
    → info.rank_id ≡ rank
    → IsRegistered r now s rank
unfolding process_register update_heartbeat
register_as s k now r info m rank assigned entered own same = (
  record s { node_manager = update_heartbeat r.node_id now m },
  ground (arith, assigned),
  (
    info,
    subst (λ d. get r.node_id d ≡ some info)
        (sym (subscript_present r.node_id default_node_info info m.nodes_info entered)) entered,
    own,
    same,
    get-put_self r.node_id now m.heartbeats,
  ),
)

-- A server or worker that the table does not know is registered without an exception, if the table is
-- in order and its counters have gone up to `k` below 2 ^ 31 at most: it is answered with the number of
-- nodes of its role so far, which is its rank from then on, and its registration is its heartbeat.
pub process_register_lem :
    (s : SchedulerNode) (k now : ℕ) (r : RegisterMessage)
    → Inv k s.node_manager
    → k < 2 ^ 31
    → r.role ≢ scheduler
    → get r.node_id s.node_manager.nodes_info ≡ none
    → IsRegistered r now s (ranked r.role s.node_manager)
unfolding next_rank_id assign_rank_id server_info worker_info
process_register_lem s k now r v small role fresh = by_role r.role refl
  where
    m : NodeManager
    m = s.node_manager

    by_role : (a : NodeRole) → r.role ≡ a → IsRegistered r now s (ranked r.role m)
    by_role server e =
        let next = m.next_server_rank_id in
        let counts = v.0.0.counts in
        let info = server_info r (increment next) in
        let entered : NodeManager = record m {
          next_server_rank_id = increment next;
          nodes_info = put r.node_id info m.nodes_info;
        } in
        subst (λ rank. IsRegistered r now s rank) (sym (ap (λ a. ranked a m) e))
          (register_as s k now r info entered (issued next) (ground (arith, fresh, e, counts))
            (get-put_self r.node_id info m.nodes_info) (sym e)
            (rank_fits k next counts v.1.0 small))
    by_role worker e =
        let next = m.next_worker_rank_id in
        let counts = v.0.1.counts in
        let info = worker_info r (increment next) in
        let entered : NodeManager = record m {
          next_worker_rank_id = increment next;
          nodes_info = put r.node_id info m.nodes_info;
        } in
        subst (λ rank. IsRegistered r now s rank) (sym (ap (λ a. ranked a m) e))
          (register_as s k now r info entered (issued next) (ground (arith, fresh, e, counts))
            (get-put_self r.node_id info m.nodes_info) (sym e)
            (rank_fits k next counts v.1.1 small))
    by_role scheduler e = absurd (role e)

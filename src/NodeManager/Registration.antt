-- ===== src/NodeManager/Registration.antt =====
-- What a node gets back from `NextRankId` of even-http/ps/core/node_manager.cc, first and later.
use rpc.Common.{
  ℕ, ◌<◌, ◌^◌, ◌≡◌, refl, sym, ap, ◌∙◌, ◌≢◌, inl, inr, String, none, some, List, [], ◌∷◌, length,
  string_eq, Option-cases, arith,
}
use rpc.Common.Dict.{Dict, get, subscript, get-put, get-subscript, get-put_self, subscript_absent}
use rpc.Common.Words.{ℤ, pos, increment, to_uint32, to_int32}
use rpc.Cluster.{NodeRole, server, worker, scheduler, NodeInfo, default_node_info, RegisterMessage}
use rpc.NodeManager.{
  NodeManager, init, next_rank_id, assign_rank_id, update_heartbeat, server_info, worker_info,
  check_heartbeat, collect_timeout_nodes, mark_timeout, update_cluster_state, check_cluster_timeout,
  add_finish_node, update_node_finish_state, Call, registers, beats, finishes_heartbeat, finishes,
  updates, checks_timeout, step, run,
}
use rpc.NodeManager.History.{Inv, run-init-Inv}

-- An entry of the table is never changed nor removed.
abbrev Keeps : String → NodeInfo → NodeManager → Type 0
Keeps id x m = get id m.nodes_info ≡ some x

module _ (id : String) (x : NodeInfo) where
  subscript-Keeps :
      (j : String) (m : NodeManager)
      → Keeps id x m
      → get id (subscript j default_node_info m.nodes_info) ≡ some x
  subscript-Keeps j m h = rw (get-subscript j id default_node_info m.nodes_info, h)

  assign_rank_id-Keeps :
      (role : NodeRole) (r : RegisterMessage) (m : NodeManager)
      → get r.node_id m.nodes_info ≡ none
      → Keeps id x m
      → Keeps id x (assign_rank_id role r m).0
  unfolding assign_rank_id
  assign_rank_id-Keeps server r m fresh h = ground (
    arith,
    get-put r.node_id id (server_info r (increment m.next_server_rank_id)) m.nodes_info,
    string_eq.equals_iff r.node_id id,
  )
  assign_rank_id-Keeps worker r m fresh h = ground (
    arith,
    get-put r.node_id id (worker_info r (increment m.next_worker_rank_id)) m.nodes_info,
    string_eq.equals_iff r.node_id id,
  )
  assign_rank_id-Keeps scheduler r m fresh h = h

  next_rank_id-Keeps :
      (r : RegisterMessage) (m : NodeManager) → Keeps id x m → Keeps id x (next_rank_id r m).0
  unfolding next_rank_id
  next_rank_id-Keeps r m h = elim (Option-cases (get r.node_id m.nodes_info)) [
    | inl fresh ↦ rw (fresh, next_rank_id) (assign_rank_id-Keeps r.role r m fresh h)
    | inr (info, known) ↦ rw (known, next_rank_id) h
  ]

  check_heartbeat-Keeps :
      (now timeout : ℕ) (j : String) (seen : ℕ) (m : NodeManager)
      → Keeps id x m
      → Keeps id x (check_heartbeat now timeout j seen m)
  unfolding check_heartbeat
  check_heartbeat-Keeps now timeout j seen m h = ground (arith, subscript-Keeps j m h)

  collect_timeout_nodes-Keeps :
      (bs : Dict String ℕ) (now timeout : ℕ) (m : NodeManager)
      → Keeps id x m
      → Keeps id x (collect_timeout_nodes bs now timeout m)
  unfolding collect_timeout_nodes
  collect_timeout_nodes-Keeps [] now timeout m h = h
  collect_timeout_nodes-Keeps ((j, seen) ∷ bs) now timeout m h =
      collect_timeout_nodes-Keeps bs now timeout (check_heartbeat now timeout j seen m)
        (check_heartbeat-Keeps now timeout j seen m h)

  mark_timeout-Keeps :
      (late : Dict String NodeInfo) (m : NodeManager)
      → Keeps id x m
      → Keeps id x (mark_timeout late m)
  unfolding mark_timeout
  mark_timeout-Keeps [] m h = h
  mark_timeout-Keeps (l ∷ late) m h = h

  update_cluster_state-Keeps :
      (now timeout : ℕ) (m : NodeManager)
      → Keeps id x m
      → Keeps id x (update_cluster_state now timeout m)
  unfolding update_cluster_state
  update_cluster_state-Keeps now timeout m h =
      let start = record m { timeout_nodes_info = [] } in
      let late = collect_timeout_nodes m.heartbeats now timeout start in
      ground (
        arith,
        mark_timeout-Keeps late.timeout_nodes_info late
            (collect_timeout_nodes-Keeps m.heartbeats now timeout start h),
      )

  step-Keeps : (c : Call) (m : NodeManager) → Keeps id x m → Keeps id x (step c m)
  unfolding step update_heartbeat update_node_finish_state add_finish_node check_cluster_timeout
  step-Keeps (registers r) m h = next_rank_id-Keeps r m h
  step-Keeps (beats j now) m h = subscript-Keeps j m h
  step-Keeps (finishes_heartbeat j) m h = h
  step-Keeps (finishes j) m h = h
  step-Keeps (updates now timeout) m h = update_cluster_state-Keeps now timeout m h
  step-Keeps checks_timeout m h = ground arith

  run-Keeps : (cs : List Call) (m : NodeManager) → Keeps id x m → Keeps id x (run cs m)
  unfolding run
  run-Keeps [] m h = h
  run-Keeps (c ∷ cs) m h = run-Keeps cs (step c m) (step-Keeps c m h)

-- The entry that a registration makes or finds, and the rank that it answers with.
abbrev Registers : RegisterMessage → NodeManager × ℤ → Type 0
Registers r (m, rank) = (x : NodeInfo) × Keeps r.node_id x m × (rank ≡ to_int32 x.rank_id)

assign_rank_id-Registers :
    (role : NodeRole) (r : RegisterMessage) (m : NodeManager) (k : ℕ)
    → role ≢ scheduler
    → k < 2 ^ 31
    → Inv k m
    → Registers r (assign_rank_id role r m)
unfolding assign_rank_id server_info worker_info to_uint32 to_int32
assign_rank_id-Registers server r m k role small ((s, w), b) = (
  server_info r (increment m.next_server_rank_id),
  get-put_self r.node_id (server_info r (increment m.next_server_rank_id)) m.nodes_info,
  ground (arith, s.counts),
)
assign_rank_id-Registers worker r m k role small ((s, w), b) = (
  worker_info r (increment m.next_worker_rank_id),
  get-put_self r.node_id (worker_info r (increment m.next_worker_rank_id)) m.nodes_info,
  ground (arith, w.counts),
)
assign_rank_id-Registers scheduler r m k role small v = absurd (role refl)

next_rank_id-Registers :
    (r : RegisterMessage) (m : NodeManager) (k : ℕ)
    → r.role ≢ scheduler
    → k < 2 ^ 31
    → Inv k m
    → Registers r (next_rank_id r m)
unfolding next_rank_id
next_rank_id-Registers r m k role small v = elim (Option-cases (get r.node_id m.nodes_info)) [
  | inl fresh ↦ rw (fresh, next_rank_id) (assign_rank_id-Registers r.role r m k role small v)
  | inr (info, known) ↦ rw (known, next_rank_id) (info, known, refl)
]

known_rank :
    (r : RegisterMessage) (m : NodeManager) (x : NodeInfo)
    → Keeps r.node_id x m
    → next_rank_id r m ≡ (m, to_int32 x.rank_id)
unfolding next_rank_id
known_rank r m x h = rw (h, next_rank_id)

-- A server or worker that registers again under its id, with any message and after any calls in
-- between, changes nothing in the table and is answered with the rank of its first registration,
-- if the table had seen fewer than 2 ^ 31 calls by then.
pub next_rank_id_stable :
    (r s : RegisterMessage) (before between : List Call)
    → length before < 2 ^ 31
    → r.role ≢ scheduler
    → s.node_id ≡ r.node_id
    → let m = run between (next_rank_id r (run before init)).0 in
      next_rank_id s m ≡ (m, (next_rank_id r (run before init)).1)
next_rank_id_stable r s before between small role same =
    let start = run before init in
    let (x, kept, rank) =
      next_rank_id-Registers r start (length before) role small
        (run-init-Inv before (omega arith)) in
    let m = run between (next_rank_id r start).0 in
    let later : get s.node_id m.nodes_info ≡ some x =
      rw same (run-Keeps r.node_id x between _ kept) in
    known_rank s m x later ∙ ap (λ k. (m, k)) (sym rank)

-- A heartbeat of a node that is not in the table enters it as a scheduler of rank 0: after any
-- further calls a registration under its id, whatever its role, changes nothing in the table and is
-- answered with rank 0.
pub heartbeat_first_takes_rank_zero :
    (m : NodeManager) (r : RegisterMessage) (now : ℕ) (between : List Call)
    → get r.node_id m.nodes_info ≡ none
    → let m' = run between (update_heartbeat r.node_id now m) in
      (next_rank_id r m' ≡ (m', pos 0)) × (get r.node_id m'.nodes_info ≡ some default_node_info)
unfolding update_heartbeat to_int32
heartbeat_first_takes_rank_zero m r now between unknown =
    let entered : Keeps r.node_id default_node_info (update_heartbeat r.node_id now m) =
      rw (subscript_absent r.node_id default_node_info m.nodes_info unknown)
        (get-put_self r.node_id default_node_info m.nodes_info) in
    let m' = run between (update_heartbeat r.node_id now m) in
    let kept = run-Keeps r.node_id default_node_info between _ entered in
    (known_rank r m' default_node_info kept, kept)

-- ===== src/NodeManager/State.antt =====
-- What `UpdateClusterState` of even-http/ps/core/node_manager.cc makes of the table.
use rpc.Common.{
  ℕ, ◌+◌, ◌≡◌, refl, Bool, true, false, ◌&&◌, ◌||◌, String, [], ◌∷◌, ltb, nat_beq, string_eq, arith,
}
use rpc.Common.Dict.{Dict, size, has, put, get_or, has-put}
use rpc.Cluster.{NodeInfo, default_node_info}
use rpc.NodeManager.{
  NodeManager, check_heartbeat, collect_timeout_nodes, finish_timeout_nodes, mark_timeout,
  update_timeout_state, update_finish_state, update_ready_state, update_cluster_state, eq_int,
}

-- Whether a node's heartbeat is too old at `now`, and whether some node's is.
abbrev pub is_late : String → ℕ → ℕ → Dict String ℕ → Bool
is_late id now timeout [] = false
is_late id now timeout ((j, seen) ∷ bs) =
    (string_eq.equals j id && ltb (seen + timeout) now) || is_late id now timeout bs

abbrev pub any_late : ℕ → ℕ → Dict String ℕ → Bool
any_late now timeout [] = false
any_late now timeout ((j, seen) ∷ bs) = ltb (seen + timeout) now || any_late now timeout bs

abbrev is_nonempty : Dict String NodeInfo → Bool
is_nonempty [] = false
is_nonempty (e ∷ m) = true

is_nonempty-put :
    (id : String) (x : NodeInfo) (m : Dict String NodeInfo) → is_nonempty (put id x m) ≡ true
unfolding put
is_nonempty-put id x [] = refl
is_nonempty-put id x (e ∷ m) = ground arith

module _ (now timeout : ℕ) where
  check_has :
      (id j : String) (seen : ℕ) (m : NodeManager)
      → has id (check_heartbeat now timeout j seen m).timeout_nodes_info
        ≡ (has id m.timeout_nodes_info || (string_eq.equals j id && ltb (seen + timeout) now))
  unfolding check_heartbeat
  check_has id j seen m =
      let info = get_or j default_node_info m.nodes_info in
      ground (arith, has-put j id info m.timeout_nodes_info)

  check_any :
      (j : String) (seen : ℕ) (m : NodeManager)
      → is_nonempty (check_heartbeat now timeout j seen m).timeout_nodes_info
        ≡ (is_nonempty m.timeout_nodes_info || ltb (seen + timeout) now)
  unfolding check_heartbeat
  check_any j seen m =
      let info = get_or j default_node_info m.nodes_info in
      ground (arith, is_nonempty-put j info m.timeout_nodes_info)

  collect_has :
      (id : String) (bs : Dict String ℕ) (m : NodeManager)
      → has id (collect_timeout_nodes bs now timeout m).timeout_nodes_info
        ≡ (has id m.timeout_nodes_info || is_late id now timeout bs)
  unfolding collect_timeout_nodes
  collect_has id [] m = ground arith
  collect_has id ((j, seen) ∷ bs) m =
      ground
        (arith, collect_has id bs (check_heartbeat now timeout j seen m), check_has id j seen m)

  collect_any :
      (bs : Dict String ℕ) (m : NodeManager)
      → is_nonempty (collect_timeout_nodes bs now timeout m).timeout_nodes_info
        ≡ (is_nonempty m.timeout_nodes_info || any_late now timeout bs)
  unfolding collect_timeout_nodes
  collect_any [] m = ground arith
  collect_any ((j, seen) ∷ bs) m =
      ground (arith, collect_any bs (check_heartbeat now timeout j seen m), check_any j seen m)

  -- The loop touches two of the maps and nothing else.
  check_rest :
      (j : String) (seen : ℕ) (m : NodeManager)
      → let c = check_heartbeat now timeout j seen m in
        c ≡ record m { nodes_info = c.nodes_info; timeout_nodes_info = c.timeout_nodes_info }
  unfolding check_heartbeat
  check_rest j seen m = ground arith

  collect_rest :
      (bs : Dict String ℕ) (m : NodeManager)
      → let c = collect_timeout_nodes bs now timeout m in
        c ≡ record m { nodes_info = c.nodes_info; timeout_nodes_info = c.timeout_nodes_info }
  unfolding collect_timeout_nodes
  collect_rest [] m = refl
  collect_rest ((j, seen) ∷ bs) m =
      ground (arith, collect_rest bs (check_heartbeat now timeout j seen m), check_rest j seen m)

finish_has :
    (id : String) (nodes : Dict String NodeInfo) (f : Dict String (Unit {0}))
    → has id (finish_timeout_nodes nodes f) ≡ (has id nodes || has id f)
unfolding finish_timeout_nodes has
finish_has id [] f = refl
finish_has id ((j, x) ∷ nodes) f =
    ground (arith, finish_has id nodes (put j tt f), has-put j id tt f)

finish_cases :
    (late : Dict String NodeInfo) (m : NodeManager)
    → (m.is_cluster_timeout || is_nonempty late) ≡ (mark_timeout late m).is_cluster_timeout
unfolding mark_timeout
finish_cases [] m = ground arith
finish_cases (l ∷ late) m = ground arith

mark_has :
    (id : String) (late : Dict String NodeInfo) (m : NodeManager)
    → has id (mark_timeout late m).finish_nodes_id ≡ (has id late || has id m.finish_nodes_id)
unfolding mark_timeout has
mark_has id [] m = refl
mark_has id (l ∷ late) m = finish_has id (l ∷ late) m.finish_nodes_id

-- As many nodes have finished as the cluster has, or as it had when its start timed out.
abbrev pub all_finished : NodeManager → Bool
all_finished m =
    nat_beq (size m.finish_nodes_id) m.total_node_num
    || eq_int (size m.finish_nodes_id) m.current_node_num

-- The last two parts of `UpdateClusterState` set two flags and leave the rest alone.
settle_lem :
    (m : NodeManager)
    → update_ready_state (update_finish_state m) ≡ record m {
      is_cluster_finish = m.is_cluster_finish || all_finished m;
      is_cluster_ready =
          m.is_cluster_ready || (all_finished m || nat_beq (size m.nodes_info) m.total_node_num);
    }
unfolding update_ready_state update_finish_state
settle_lem m = ground arith

mark_rest :
    (late : Dict String NodeInfo) (m : NodeManager)
    → ((mark_timeout late m).is_cluster_finish ≡ m.is_cluster_finish)
      × ((mark_timeout late m).is_cluster_ready ≡ m.is_cluster_ready)
unfolding mark_timeout
mark_rest [] m = (refl, refl)
mark_rest (l ∷ late) m = (refl, refl)

-- The periodic update adds exactly the nodes with a late heartbeat to the finished ones, raises the
-- timeout flag if there is one, the finish flag if all have finished then, and the ready flag if all
-- have finished or all have registered; it lowers none of the flags.
pub update_cluster_state_lem :
    (now timeout : ℕ) (m : NodeManager)
    → let m' = update_cluster_state now timeout m in
      ((id : String)
        → has id m'.finish_nodes_id
          ≡ (is_late id now timeout m.heartbeats || has id m.finish_nodes_id))
      × (m'.is_cluster_timeout ≡ (m.is_cluster_timeout || any_late now timeout m.heartbeats))
      × (m'.is_cluster_finish ≡ (m.is_cluster_finish || all_finished m'))
      × (m'.is_cluster_ready ≡ (
          m.is_cluster_ready
          || (all_finished m' || nat_beq (size m'.nodes_info) m'.total_node_num)))
unfolding update_cluster_state update_timeout_state has
update_cluster_state_lem now timeout m =
    let start : NodeManager = record m { timeout_nodes_info = [] } in
    let c = collect_timeout_nodes m.heartbeats now timeout start in
    let kept = collect_rest now timeout m.heartbeats start in
    let settled = settle_lem (mark_timeout c.timeout_nodes_info c) in
    (
      λ id. ground (
        arith,
        settled,
        kept,
        mark_has id c.timeout_nodes_info c,
        collect_has now timeout id m.heartbeats start,
      ),
      ground (
        arith,
        settled,
        kept,
        finish_cases c.timeout_nodes_info c,
        collect_any now timeout m.heartbeats start,
      ),
      ground (arith, settled, kept, mark_rest c.timeout_nodes_info c),
      ground (arith, settled, kept, mark_rest c.timeout_nodes_info c),
    )

-- ===== src/Tests/Scheduler.antt =====
-- Witnesses and tests for even-http/ps/core/scheduler_node.cc and comm_util.cc.
use rpc.Common.{ℕ, Bool, nat_beq, refl, false, List, [], ◌∷◌, string_eq, arith}
use rpc.Common.Words.{pos, increment, to_uint32}
use rpc.Common.Dict.{get, put, has, subscript}
use rpc.Cluster.{server, RegisterMessage}
use rpc.CommUtil.{retry}
use rpc.CommUtil.Attempts.{Ends, retry-Ends}
use rpc.NodeManager.{
  init, init_node_num, next_rank_id, assign_rank_id, server_info, update_heartbeat,
}
use rpc.NodeManager.History.{IsValid}
use rpc.SchedulerNode.{
  SchedulerNode, register, fetch_server, Event, handles, checks_start, run, process_register, step,
  handle, check_start,
}
use rpc.SchedulerNode.Ranks.{
  started, IsRegistered, run_keeps_ranks, process_register_lem, started-Inv,
}

abbrev from_a : RegisterMessage
from_a = record { ip = "10.0.0.1"; port = 8080; node_id = "a"; role = server }

abbrev events : List Event
events = handles 100 (register from_a) ∷ checks_start false ∷ handles 101 fetch_server ∷ []

abbrev after_events : SchedulerNode
after_events = record (started 1 1) {
  node_manager = record (init_node_num 1 1 init) {
    next_server_rank_id = pos 0;
    nodes_info =
        (
          "a",
          record { ip = "10.0.0.1"; port = 8080; node_id = "a"; node_role = server; rank_id = 0 },
        )
        ∷ [];
    heartbeats = ("a", 100) ∷ [];
  };
}

run_keeps_ranks_example : IsValid after_events.node_manager
unfolding run init_node_num next_rank_id assign_rank_id server_info update_heartbeat increment
    to_uint32 get put has subscript process_register step handle check_start
run_keeps_ranks_example = run_keeps_ranks 1 1 events after_events (ground arith) refl

process_register_lem_example : IsRegistered from_a 100 (started 1 1) 0
unfolding init_node_num get
process_register_lem_example =
    process_register_lem (started 1 1) 0 100 from_a (started-Inv 1 1) (ground arith) (λ e. cc) refl

-- The third call succeeds.
abbrev third : ℕ → Bool
third n = nat_beq n 2

retry-Ends_example : Ends third 0 5 (retry third 5)
retry-Ends_example = retry-Ends third 5

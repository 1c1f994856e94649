-- ===== src/CommUtil.antt =====
-- even-http/ps/core/comm_util.cc: the check of a rank, and retrying. The settings of `ClusterConfig`
-- are arguments. The function that `Retry` calls is given by the results of its calls, in order;
-- the sleep between two calls is left out.
pub mod Attempts
use rpc.Common.{ℕ, zero, suc, ◌+◌, ◌-◌, ◌%◌, Bool, true, false, if◌then◌else◌, ltb}
use rpc.Common.Words.{u32_mod}
use rpc.Cluster.{NodeRole, server, worker, scheduler}

-- uint32_t subtraction wraps.
unfoldable pub validate_rank_id : ℕ → ℕ → NodeRole → ℕ → Bool
validate_rank_id server_num worker_num server rank_id =
    if ltb ((server_num + u32_mod - 1) % u32_mod) rank_id then false else true
validate_rank_id server_num worker_num worker rank_id =
    if ltb ((worker_num + u32_mod - 1) % u32_mod) rank_id then false else true
validate_rank_id server_num worker_num scheduler rank_id = true

-- `attempts` more attempts, of which the next is call `n`: the result, and how many calls were made.
unfoldable pub retry_from : (ℕ → Bool) → ℕ → ℕ → Bool × ℕ
retry_from func n zero = (false, n)
retry_from func n (suc attempts) =
    let rest = retry_from func (suc n) attempts in if func n then (true, suc n) else rest

unfoldable pub retry : (ℕ → Bool) → ℕ → Bool × ℕ
unfolding retry_from
retry func max_attempts = retry_from func 0 max_attempts

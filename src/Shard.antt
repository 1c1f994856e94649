-- ===== src/Shard.antt =====
-- mindspore/ps/util.h and util.cc: how the rows of a table are dealt out to the servers. The map of
-- `AllRankLocalShard`, whose keys are the ranks from 0 up, is the list of its values; an exception is
-- `none`.
pub mod Balance
use rpc.Common.{
  ℕ, zero, suc, ◌+◌, ◌%◌, Option, none, some, List, [], ◌∷◌, replicate, get_elem?, if◌then◌else◌,
  ltb, Bool, true, false, ◌||◌,
}
use rpc.Common.Words.{ℤ, pos, negsuc}

-- `shard_dims[i] = shard_dims[i] + 1`.
unfoldable pub bump : ℕ → List ℕ → List ℕ
bump i [] = []
bump zero (d ∷ dims) = (d + 1) ∷ dims
bump (suc i) (d ∷ dims) = d ∷ bump i dims

-- The loop over the rows; `next` is the source's `server_index + 1`.
unfoldable pub deal : ℕ → ℕ → ℕ → List ℕ → List ℕ
deal zero next n dims = dims
deal (suc rows) next n dims =
    let server_index = next % n in deal rows (server_index + 1) n (bump server_index dims)

-- The guards. (The two guards on the map's size and keys below them in the source cannot fail.)
unfoldable pub all_rank_local_shard : ℤ → ℤ → ℤ → Option (List ℕ)
unfolding deal bump
all_rank_local_shard (pos (suc rows)) (pos rank_id) (pos (suc servers)) =
    if ltb rank_id (suc servers)
    then some (deal (suc rows) 0 (suc servers) (replicate (suc servers) 0))
    else none
all_rank_local_shard _ _ _ = none

unfoldable pub local_shard : ℤ → ℤ → ℤ → Option ℕ
unfolding all_rank_local_shard
local_shard first_dim (pos rank_id) server_num =
    elim (all_rank_local_shard first_dim (pos rank_id) server_num) [
      | none ↦ none
      | some dims ↦ get_elem? dims rank_id
    ]
local_shard first_dim (negsuc r) server_num = none

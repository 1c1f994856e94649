-- ===== src/Tests/Servers.antt =====
-- Witnesses and tests for mindspore/ps/util.cc, mindspore/ps/worker.cc and
-- consistent_hash/consistent_hash.h.
use rpc.Common.{ℕ, ◌≡◌, refl, ◌≤◌, ◌&&◌, some, List, [], ◌∷◌, if◌then◌else◌, ltb, nat_eq, arith}
use rpc.Common.Words.{ℤ, pos, negsuc, int_eq, to_uint64}
use rpc.Common.Dict.{Dict, get, has}
use rpc.ConsistentHash.{ConsistentHashMap, empty, find, insert, erase_node}
use rpc.ConsistentHash.Lookup.{IsRing, clockwise, find_serves_nearest}
use rpc.ConsistentHash.Updates.{erase_node-insert}
use rpc.Shard.{local_shard}
use rpc.Shard.Balance.{local_shard_lem}
use rpc.Worker.{EmbeddingTableShardMetadata, Worker, do_ps_embedding_lookup}
use rpc.Worker.Ranges.{IsPartition}
use rpc.Worker.Slicers.{KvMessage}
use rpc.Worker.Lookup.{asked_of, owns, asked, contains, do_ps_embedding_lookup_asks_owner}

local_shard_lem_example : local_shard (pos 10) (pos 1) (pos 3) ≡ some 3
local_shard_lem_example = local_shard_lem 10 1 3 (ground arith) (ground arith)

abbrev three_servers : Worker
three_servers = record {
  server_num = 3;
  embedding_table_ranges = [];
  embedding_row_cnt = [];
  key_to_server_id = [];
  init_keys = [];
}

-- Ten rows on two servers.
abbrev halves : List EmbeddingTableShardMetadata
halves = record { begin = 0; «end» = 4 } ∷ record { begin = 5; «end» = 9 } ∷ []

abbrev two_servers : Worker
two_servers = record three_servers { server_num = 2; embedding_table_ranges = (7, halves) ∷ [] }

halves-IsPartition : IsPartition 10 2 halves
halves-IsPartition = (refl, λ id. ground arith)

do_ps_embedding_lookup_asks_owner_example :
    (rs : List (ℕ × Dict ℤ (Unit {0}))) × (do_ps_embedding_lookup 7
        (pos 3 ∷ negsuc 0 ∷ pos 6 ∷ pos 3 ∷ [])
        two_servers
      ≡ some rs)
    × ((to : ℕ) (id : ℤ)
        → asked_of to id rs ≡ (
            if contains id (pos 3 ∷ negsuc 0 ∷ pos 6 ∷ pos 3 ∷ []) && owns to id halves
            then 1
            else 0))
    × ((id : ℤ)
        → asked id rs ≡ (
            if contains id (pos 3 ∷ negsuc 0 ∷ pos 6 ∷ pos 3 ∷ []) && ltb (to_uint64 id) 10
            then 1
            else 0))
unfolding get
do_ps_embedding_lookup_asks_owner_example =
    do_ps_embedding_lookup_asks_owner 7 10 (pos 3 ∷ negsuc 0 ∷ pos 6 ∷ pos 3 ∷ []) two_servers
      halves refl halves-IsPartition

-- A ring of 100 positions, where a node's hash is itself.
abbrev ring : ConsistentHashMap ℕ
ring = record { nodes = (20, 20) ∷ (50, 50) ∷ (90, 90) ∷ [] }

abbrev itself : ℕ → ℕ
itself n = n

ring-IsRing : IsRing 100 ring
unfolding get
ring-IsRing = record { rising = ground arith; within = λ j w g. ground arith }

find_serves_nearest_example :
    (k : ℕ) × (v : ℕ) × (find 95 ring ≡ some (k, v))
    × (get k ring.nodes ≡ some v)
    × ((j : ℕ) (w : ℕ) → get j ring.nodes ≡ some w → clockwise 100 95 k ≤ clockwise 100 95 j)
unfolding empty
find_serves_nearest_example = find_serves_nearest 100 95 ring ring-IsRing (ground arith) refl

erase_node-insert_example : erase_node itself 60 (insert itself 60 ring).0 ≡ (ring, 1)
unfolding has
erase_node-insert_example = erase_node-insert itself 0 ring 60 100 ring-IsRing refl

-- Rows 3 and 6 with two values each, in table 7.
abbrev update : KvMessage ℕ
update = record { keys = pos 7 ∷ []; values = 1 ∷ 2 ∷ 3 ∷ 4 ∷ []; len = pos 3 ∷ pos 6 ∷ [] }

-- ===== src/Worker.antt =====
-- mindspore/ps/worker.h and worker.cc with mindspore/ps/embedding_table_shard_metadata.h and .cc:
-- the tables of a worker and the slicing of lookups. `server_num_` is a constant of the source, 3;
-- here it is a field. An exception, and a read through the null pointer of a table that was never
-- added, are `none`.
pub mod Ranges
pub mod Lookup
pub mod Slicers
use rpc.Common.{
  ℕ, zero, suc, ◌+◌, ◌-◌, ◌%◌, Bool, true, false, not, ◌&&◌, Option, none, some, List, [], ◌∷◌,
  ◌++◌, map, if◌then◌else◌, ltb, leb, nat_beq, nat_eq,
}
use rpc.Common.Dict.{Dict, get, put, get_or}
use rpc.Common.Words.{ℤ, pos, negsuc, int_eq, to_uint64, to_int64, u64_mod}
use rpc.Shard.{local_shard}

-- Both ends belong to the range.
pub record EmbeddingTableShardMetadata : Type 0 where
  pub begin : ℕ
  pub «end» : ℕ

pub record Worker : Type 0 where
  pub server_num : ℕ
  pub embedding_table_ranges : Dict ℕ (List EmbeddingTableShardMetadata)
  pub embedding_row_cnt : Dict ℕ ℕ
  pub key_to_server_id : Dict ℕ ℕ
  pub init_keys : Dict ℕ Bool

-- The body of the loop of `AddEmbeddingTable`: the range of server `i` behind the last range's end.
unfoldable pub next_range : ℕ → ℕ → ℕ → EmbeddingTableShardMetadata
next_range zero last local_row_cnt = record {
  begin = 0;
  «end» = (local_row_cnt + u64_mod - 1) % u64_mod;
}
next_range (suc i) last local_row_cnt = record {
  begin = (last + 1) % u64_mod;
  «end» = (last + local_row_cnt) % u64_mod;
}

-- The loop, for `left` more servers.
unfoldable pub add_ranges :
    ℕ → ℕ → ℕ → ℕ → ℕ → List EmbeddingTableShardMetadata → Option (List EmbeddingTableShardMetadata)
unfolding next_range
add_ranges server_num row_count i zero last ranges = some ranges
add_ranges server_num row_count i (suc left) last ranges =
    elim (local_shard (to_int64 row_count) (pos i) (pos server_num)) [
      | none ↦ none
      | some local_row_cnt ↦
          let range = next_range i last local_row_cnt in
          add_ranges server_num row_count (suc i) left range.«end» (ranges ++ range ∷ [])
    ]

unfoldable pub add_embedding_table : ℕ → ℕ → Worker → Option Worker
unfolding add_ranges
add_embedding_table key row_count w =
    elim (add_ranges w.server_num row_count 0 w.server_num 0
      (get_or key [] w.embedding_table_ranges)) [
        | none ↦ none
        | some ranges ↦ some (record w {
          embedding_table_ranges =
              if nat_beq w.server_num 0
              then w.embedding_table_ranges
              else put key ranges w.embedding_table_ranges;
          embedding_row_cnt = put key row_count w.embedding_row_cnt;
        })
      ]

pub add_key_by_hash_mod : ℕ → Worker → Option Worker
add_key_by_hash_mod key w =
    if nat_beq w.server_num 0
    then none
    else some (record w { key_to_server_id = put key (key % w.server_num) w.key_to_server_id })

pub is_key_init : ℕ → Worker → Bool
is_key_init key w = get_or key false w.init_keys

-- The comparison of an int32_t with the uint64_t ends: a negative id is taken for a huge one.
unfoldable pub in_range : EmbeddingTableShardMetadata → ℤ → Bool
in_range range lookup_id =
    leb range.begin (to_uint64 lookup_id) && leb (to_uint64 lookup_id) range.«end»

-- The ids of a lookup that fall into a range, each once.
unfoldable pub unique_ids : EmbeddingTableShardMetadata → List ℤ → Dict ℤ (Unit {0})
unfolding in_range
unique_ids range [] = []
unique_ids range (id ∷ ids) =
    let rest = unique_ids range ids in if in_range range id then put id tt rest else rest

abbrev pub Slice : Type 0
Slice = Bool × Dict ℤ (Unit {0})

unfoldable pub slice_ids : List ℤ → EmbeddingTableShardMetadata → Slice
unfolding unique_ids
slice_ids ids range =
    let keys = unique_ids range ids in (elim keys [ [] ↦ false | _ ∷ _ ↦ true ], keys)

unfoldable pub lookup_id_slicer : ℕ → List ℤ → Worker → Option (List Slice)
unfolding slice_ids
lookup_id_slicer key ids w = elim (get key w.embedding_table_ranges) [
  | none ↦ none
  | some ranges ↦ some (map (slice_ids ids) ranges)
]

-- The loop of `DoPSEmbeddingLookup`: which servers are asked, and for what.
unfoldable pub requests : ℕ → List Slice → List (ℕ × Dict ℤ (Unit {0}))
requests i [] = []
requests i ((wanted, keys) ∷ slices) =
    let rest = requests (suc i) slices in if wanted then (i, keys) ∷ rest else rest

unfoldable pub do_ps_embedding_lookup : ℕ → List ℤ → Worker → Option (List (ℕ × Dict ℤ (Unit {0})))
unfolding lookup_id_slicer requests
do_ps_embedding_lookup key ids w = elim (lookup_id_slicer key ids w) [
  | none ↦ none
  | some slices ↦ some (requests 0 slices)
]

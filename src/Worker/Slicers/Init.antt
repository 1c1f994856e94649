-- ===== src/Worker/Slicers/Init.antt =====
-- `WorkerInitEmbeddingSlicer` of mindspore/ps/worker.cc: how the first values of a table are dealt out.
use rpc.Common.{
  ℕ, ◌+◌, ◌-◌, ◌*◌, ◌/◌, ◌%◌, Bool, true, ◌&&◌, Option, none, some, List, [], ◌∷◌, ◌++◌, length,
  take, drop, replicate, if◌then◌else◌, leb, ltb, nat_beq, nat_eq,
}
use rpc.Common.Dict.{get, get_or}
use rpc.Common.Words.{to_uint64, u64_mod}
use rpc.Worker.{EmbeddingTableShardMetadata, Worker}
use rpc.Worker.Slicers.{KvMessage}
use rpc.Worker.Slicers.RoundRobin.{empty_slice}

module _ {ℓ} {V : Type ℓ} where
  -- The values of the rows of one range; none where they reach past the end of the vector.
  unfoldable pub init_slice :
      KvMessage V → ℕ → EmbeddingTableShardMetadata → Option (Bool × KvMessage V)
  init_slice send col_cnt range =
      let offset_begin = range.begin * col_cnt % u64_mod in
      let offset_end = (range.«end» + 1) % u64_mod * col_cnt % u64_mod in
      if leb offset_begin offset_end && leb offset_end (length send.values)
      then some (
        true,
        record {
          keys = send.keys;
          values = take (offset_end - offset_begin) (drop offset_begin send.values);
          len = [];
        },
      )
      else none

  unfoldable pub init_slices :
      KvMessage V → ℕ → List EmbeddingTableShardMetadata → Option (List (Bool × KvMessage V))
  unfolding init_slice
  init_slices send col_cnt [] = some []
  init_slices send col_cnt (range ∷ ranges) =
      let rest = init_slices send col_cnt ranges in
      elim (init_slice send col_cnt range) [
        | none ↦ none
        | some slice ↦ elim rest [ none ↦ none | some slices ↦ some (slice ∷ slices) ]
      ]

  -- `sliced` has one element for each server; `at` throws for a range past them.
  unfoldable pub worker_init_embedding_slicer :
      KvMessage V → Worker → Option (List (Bool × KvMessage V))
  unfolding init_slices get_or
  worker_init_embedding_slicer send w = elim send.keys [
    | [] ↦ none
    | key ∷ _ ↦
        let row_cnt = get_or (to_uint64 key) 0 w.embedding_row_cnt in
        elim (get (to_uint64 key) w.embedding_table_ranges) [
          | none ↦ none
          | some ranges ↦
              if nat_beq row_cnt 0
              then none
              else if ltb w.server_num (length ranges)
              then none
              else elim (init_slices send (length send.values / row_cnt) ranges) [
                | none ↦ none
                | some slices ↦
                    some (slices ++ replicate (w.server_num - length slices) empty_slice)
              ]
        ]
  ]

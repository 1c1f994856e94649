-- ===== src/Worker/Slicers.antt =====
-- `UpdateEmbeddingSlicer` of mindspore/ps/worker.cc: how a message of keys and values is cut up for
-- the servers. Values are of any type. Keys and ids are 32 bits wide, so an id that is made a
-- uint64_t and a key again is itself. A division by zero, a message without a key, and a table that
-- was never added are `none`.
pub mod Update
pub mod RoundRobin
pub mod Init
pub mod Deals
use rpc.Common.{
  ℕ, zero, suc, ◌+◌, ◌*◌, ◌/◌, Bool, true, false, Option, none, some, List, [], ◌∷◌, ◌++◌, map,
  length, take, drop, if◌then◌else◌, nat_beq, ltb, nat_eq,
}
use rpc.Common.Dict.{get}
use rpc.Common.Words.{ℤ, to_uint64}
use rpc.Worker.{EmbeddingTableShardMetadata, Worker, in_range}

pub record KvMessage {ℓ} (V : Type ℓ) : Type ℓ where
  pub keys : List ℤ
  pub values : List V
  pub len : List ℤ

module _ {ℓ} {V : Type ℓ} where
  -- The loop over the looked up ids: those of a range, and their rows of `dim` values.
  unfoldable pub update_rows : EmbeddingTableShardMetadata → ℕ → List ℤ → List V → List ℤ × List V
  update_rows range dim [] values = ([], [])
  update_rows range dim (id ∷ ids) values =
      let (keys, rows) = update_rows range dim ids (drop dim values) in
      if in_range range id then (id ∷ keys, take dim values ++ rows) else (keys, rows)

  unfoldable pub update_slice :
      ℤ → ℕ → List ℤ → List V → EmbeddingTableShardMetadata → Bool × KvMessage V
  unfolding update_rows
  update_slice key dim ids values range =
      let (keys, rows) = update_rows range dim ids values in
      (ltb 1 (length (key ∷ keys)), record { keys = key ∷ keys; values = rows; len = [] })

  unfoldable pub update_embedding_slicer : KvMessage V → Worker → Option (List (Bool × KvMessage V))
  unfolding update_slice
  update_embedding_slicer send w = elim send.keys [
    | [] ↦ none
    | key ∷ _ ↦ elim (get (to_uint64 key) w.embedding_table_ranges) [
      | none ↦ none
      | some ranges ↦
          if nat_beq (length send.len) 0
          then none
          else some (
              map (update_slice key (length send.values / length send.len) send.len send.values)
                ranges)
    ]
  ]

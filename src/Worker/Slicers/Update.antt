-- ===== src/Worker/Slicers/Update.antt =====
-- To which servers `UpdateEmbeddingSlicer` of mindspore/ps/worker.cc sends the rows.
use rpc.Common.{
  ℕ, ◌+◌, ◌*◌, ◌/◌, ◌≤◌, ◌<◌, ◌≡◌, ◌∙◌, Bool, ◌&&◌, some, List, [], ◌∷◌, map, length, take, drop,
  if◌then◌else◌, nat_beq, ltb, leb, nat_eq, Bool-cases, inl, inr, length-append, length-take,
  length-drop, arith,
}
use rpc.Common.Dict.{get}
use rpc.Common.Words.{ℤ, to_uint64}
use rpc.Worker.{EmbeddingTableShardMetadata, Worker, in_range}
use rpc.Worker.Ranges.{owners, IsPartition}
use rpc.Worker.Slicers.{KvMessage, update_rows, update_slice, update_embedding_slicer}
use native.Mathlib.Nat.{mul-suc, suc-mul, mul_comm, div-mul-le_self}

-- How often a row occurs in a list of ids.
abbrev pub lookups : ℕ → List ℤ → ℕ
lookups row [] = 0
lookups row (id ∷ ids) = (if nat_beq (to_uint64 id) row then 1 else 0) + lookups row ids

-- The keys of a message behind the first, which names the table.
abbrev pub row_keys : List ℤ → List ℤ
row_keys [] = []
row_keys (key ∷ keys) = keys

module _ {ℓ} {V : Type ℓ} where
  -- How often all messages together send a row.
  abbrev pub sends : ℕ → List (Bool × KvMessage V) → ℕ
  sends row [] = 0
  sends row ((wanted, kvs) ∷ slices) = lookups row (row_keys kvs.keys) + sends row slices

  -- Each message has `dim` values for each of its rows, and is marked if it has a row.
  abbrev pub AllWhole : ℕ → List (Bool × KvMessage V) → Type 0
  AllWhole dim [] = Unit
  AllWhole dim ((wanted, kvs) ∷ slices) =
      (length kvs.values ≡ dim * length (row_keys kvs.keys))
      × (wanted ≡ ltb 0 (length (row_keys kvs.keys)))
      × AllWhole dim slices

  lookups-update_rows :
      (row : ℕ) (range : EmbeddingTableShardMetadata) (dim : ℕ) (ids : List ℤ) (values : List V)
      → lookups row (update_rows range dim ids values).0
        ≡ (if leb range.begin row && leb row range.«end» then lookups row ids else 0)
  unfolding update_rows in_range
  lookups-update_rows row range dim [] values = ground arith
  lookups-update_rows row range dim (id ∷ ids) values =
      ground (arith, lookups-update_rows row range dim ids (drop dim values))

  length-update_rows :
      (range : EmbeddingTableShardMetadata) (dim : ℕ) (ids : List ℤ) (values : List V)
      → length ids * dim ≤ length values
      → length (update_rows range dim ids values).1
        ≡ dim * length (update_rows range dim ids values).0
  unfolding update_rows
  length-update_rows range dim [] values h = ground arith
  length-update_rows range dim (id ∷ ids) values h =
      let rest = update_rows range dim ids (drop dim values) in
      let left : length ids * dim ≤ length (drop dim values) =
        omega (arith, length-drop dim values) in
      let enough : dim ≤ length values = omega (arith, suc-mul (length ids) dim) in
      let row : length (take dim values) ≡ dim = omega (arith, length-take dim values) in
      let induction = length-update_rows range dim ids (drop dim values) left in
      elim (Bool-cases (in_range range id)) [
        | inl inside ↦ rw inside (
            length-append (take dim values) rest.1
            ∙ omega (arith, row, induction, mul-suc dim (length rest.0)))
        | inr outside ↦ rw outside induction
      ]

  sends-slices :
      (row : ℕ) (key : ℤ) (dim : ℕ) (ids : List ℤ) (values : List V)
      (ranges : List EmbeddingTableShardMetadata)
      → sends row (map (update_slice key dim ids values) ranges)
        ≡ owners row ranges * lookups row ids
  unfolding update_slice
  sends-slices row key dim ids values [] = ground arith
  sends-slices row key dim ids values (range ∷ ranges) = ground (
    arith,
    lookups-update_rows row range dim ids values,
    sends-slices row key dim ids values ranges,
  )

  slices-AllWhole :
      (key : ℤ) (dim : ℕ) (ids : List ℤ) (values : List V)
      (ranges : List EmbeddingTableShardMetadata)
      → length ids * dim ≤ length values
      → AllWhole dim (map (update_slice key dim ids values) ranges)
  unfolding update_slice
  slices-AllWhole key dim ids values [] h = tt
  slices-AllWhole key dim ids values (range ∷ ranges) h = (
    length-update_rows range dim ids values h,
    ground arith,
    slices-AllWhole key dim ids values ranges h,
  )

  -- If the ranges of a table are a partition of its rows, an update with at least one id sends every
  -- row that is looked up, as often as it is looked up, all to one server, and an id that is no row to
  -- nobody; each message has as many values for each of its rows as the update has for each id, and
  -- is marked for sending exactly if it has a row.
  pub update_embedding_slicer_lem :
      (send : KvMessage V) (key : ℤ) (keys : List ℤ) (row_count : ℕ) (w : Worker)
      (ranges : List EmbeddingTableShardMetadata)
      → send.keys ≡ key ∷ keys
      → get (to_uint64 key) w.embedding_table_ranges ≡ some ranges
      → IsPartition row_count w.server_num ranges
      → 0 < length send.len
      → (slices : List (Bool × KvMessage V)) × (update_embedding_slicer send w ≡ some slices)
        × AllWhole (length send.values / length send.len) slices
        × ((row : ℕ) → sends row slices ≡ (if ltb row row_count then lookups row send.len else 0))
  unfolding update_embedding_slicer
  update_embedding_slicer_lem send key keys row_count w ranges named known parts some_ids =
      let dim = length send.values / length send.len in
      (
        map (update_slice key dim send.len send.values) ranges,
        ground (arith, named, known),
        slices-AllWhole key dim send.len send.values ranges (
            omega (
              arith,
              div-mul-le_self (length send.values) (length send.len),
              mul_comm (length send.len) dim,
            )),
        λ row. ground (arith, sends-slices row key dim send.len send.values ranges, parts.1 row),
      )

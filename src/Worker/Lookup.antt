-- ===== src/Worker/Lookup.antt =====
-- Which server is asked for which id: `LookupIdSlicer` and `DoPSEmbeddingLookup` of
-- mindspore/ps/worker.cc.
use rpc.Common.{
  ℕ, suc, ◌+◌, ◌≡◌, refl, ap, ◌∙◌, Bool, true, false, ◌&&◌, ◌||◌, some, List, [], ◌∷◌, map,
  if◌then◌else◌, ltb, leb, nat_beq, nat_eq, ◌-◌, zero, none, get_elem?, arith,
}
use rpc.Common.Dict.{Dict, get, has, has-put}
use rpc.Common.Words.{ℤ, int_beq, int_eq, to_uint64}
use rpc.Worker.{
  EmbeddingTableShardMetadata, Worker, in_range, unique_ids, Slice, slice_ids, lookup_id_slicer,
  requests, do_ps_embedding_lookup,
}
use rpc.Worker.Ranges.{owners, IsPartition}

-- Whether an id is asked for.
abbrev pub contains : ℤ → List ℤ → Bool
contains id [] = false
contains id (j ∷ ids) = int_beq j id || contains id ids

-- How many requests ask for an id.
abbrev pub asked : ℤ → List (ℕ × Dict ℤ (Unit {0})) → ℕ
asked id [] = 0
asked id ((server, keys) ∷ rs) = (if has id keys then 1 else 0) + asked id rs

-- How many requests to one server ask for an id.
abbrev pub asked_of : ℕ → ℤ → List (ℕ × Dict ℤ (Unit {0})) → ℕ
asked_of to id [] = 0
asked_of to id ((server, keys) ∷ rs) =
    (if nat_beq server to && has id keys then 1 else 0) + asked_of to id rs

-- Whether the range at a position is there and has the id.
abbrev pub owns : ℕ → ℤ → List EmbeddingTableShardMetadata → Bool
owns to id ranges = elim (get_elem? ranges to) [ none ↦ false | some range ↦ in_range range id ]

has-unique_ids :
    (range : EmbeddingTableShardMetadata) (ids : List ℤ) (id : ℤ)
    → has id (unique_ids range ids) ≡ (contains id ids && in_range range id)
unfolding unique_ids has
has-unique_ids range [] id = refl
has-unique_ids range (j ∷ ids) id = ground (
  arith,
  has-unique_ids range ids id,
  has-put j id tt (unique_ids range ids),
  int_eq.equals_iff j id,
)

-- A server that no id falls to is not asked.
asked-slice :
    (id : ℤ) (i : ℕ) (keys : Dict ℤ (Unit {0})) (slices : List Slice)
    → asked id (requests i ((elim keys [ [] ↦ false | _ ∷ _ ↦ true ], keys) ∷ slices))
      ≡ (if has id keys then 1 else 0) + asked id (requests (suc i) slices)
unfolding requests has
asked-slice id i [] slices = ground arith
asked-slice id i (k ∷ keys) slices = refl

asked-requests :
    (ids : List ℤ) (id : ℤ) (i : ℕ) (ranges : List EmbeddingTableShardMetadata)
    → asked id (requests i (map (slice_ids ids) ranges))
      ≡ (if contains id ids then owners (to_uint64 id) ranges else 0)
unfolding requests slice_ids in_range has
asked-requests ids id i [] = ground arith
asked-requests ids id i (range ∷ ranges) = ground (
  arith,
  asked-slice id i (unique_ids range ids) (map (slice_ids ids) ranges),
  has-unique_ids range ids id,
  asked-requests ids id (suc i) ranges,
)

asked_of-slice :
    (to : ℕ) (id : ℤ) (i : ℕ) (keys : Dict ℤ (Unit {0})) (slices : List Slice)
    → asked_of to id (requests i ((elim keys [ [] ↦ false | _ ∷ _ ↦ true ], keys) ∷ slices))
      ≡ (if nat_beq i to && has id keys then 1 else 0) + asked_of to id (requests (suc i) slices)
unfolding requests has
asked_of-slice to id i [] slices = ground arith
asked_of-slice to id i (k ∷ keys) slices = refl

owns-cons :
    (k : ℕ) (id : ℤ) (range : EmbeddingTableShardMetadata)
    (ranges : List EmbeddingTableShardMetadata)
    → owns k id (range ∷ ranges)
      ≡ (if nat_beq k 0 then in_range range id else owns (k - 1) id ranges)
owns-cons zero id range ranges = refl
owns-cons (suc k) id range ranges =
    let same : k ≡ suc k - 1 = omega arith in ap (λ j. owns j id ranges) same ∙ ground arith

-- From the server `i` on.
asked_of-requests :
    (to : ℕ) (ids : List ℤ) (id : ℤ) (i : ℕ) (ranges : List EmbeddingTableShardMetadata)
    → asked_of to id (requests i (map (slice_ids ids) ranges))
      ≡ (if leb i to && (contains id ids && owns (to - i) id ranges) then 1 else 0)
unfolding requests slice_ids
asked_of-requests to ids id i [] = ground arith
asked_of-requests to ids id i (range ∷ ranges) =
    let later : to - i - 1 ≡ to - suc i = omega arith in
    ground (
      arith,
      asked_of-slice to id i (unique_ids range ids) (map (slice_ids ids) ranges),
      has-unique_ids range ids id,
      asked_of-requests to ids id (suc i) ranges,
      owns-cons (to - i) id range ranges,
      ap (λ j. owns j id ranges) later,
    )

pub do_ps_embedding_lookup_asks_owner :
    (key row_count : ℕ) (ids : List ℤ) (w : Worker) (ranges : List EmbeddingTableShardMetadata)
    → get key w.embedding_table_ranges ≡ some ranges
    → IsPartition row_count w.server_num ranges
    → (rs : List (ℕ × Dict ℤ (Unit {0}))) × (do_ps_embedding_lookup key ids w ≡ some rs)
      × ((to : ℕ) (id : ℤ)
          → asked_of to id rs ≡ (if contains id ids && owns to id ranges then 1 else 0))
      × ((id : ℤ)
          → asked id rs ≡ (if contains id ids && ltb (to_uint64 id) row_count then 1 else 0))
unfolding do_ps_embedding_lookup lookup_id_slicer
do_ps_embedding_lookup_asks_owner key row_count ids w ranges known parts = (
  requests 0 (map (slice_ids ids) ranges),
  ground arith,
  λ to id. ground (arith, asked_of-requests to ids id 0 ranges),
  λ id. ground (arith, asked-requests ids id 0 ranges, parts.1 (to_uint64 id)),
)

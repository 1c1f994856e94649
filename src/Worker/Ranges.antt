-- ===== src/Worker/Ranges.antt =====
-- The ranges that `AddEmbeddingTable` of mindspore/ps/worker.cc gives the servers.
use rpc.Common.{
  ℕ, zero, suc, ◌+◌, ◌-◌, ◌*◌, ◌/◌, ◌%◌, ◌^◌, ◌≤◌, ◌<◌, ◌≡◌, refl, sym, ap, subst, ◌&&◌, none, some,
  List, [], ◌∷◌, ◌++◌, append-nil, append_assoc, length, if◌then◌else◌, ltb, leb, nat_eq, arith,
}
use rpc.Common.Dict.{get, put, get_or, get-put_self}
use rpc.Common.Words.{to_int64}
use rpc.Shard.Balance.{shares, sum, sum-shares, local_shard_lem}
use rpc.Worker.{EmbeddingTableShardMetadata, Worker, next_range, add_ranges, add_embedding_table}
use native.Mathlib.Nat.{div-add-mod', mod-lt, mul_comm}
use native.Mathlib.Decide.{ℕ_discrete}

-- Consecutive ranges of given sizes, from `start` on.
abbrev spans : ℕ → List ℕ → List EmbeddingTableShardMetadata
spans start [] = []
spans start (n ∷ ns) = record { begin = start; «end» = start + n - 1 } ∷ spans (start + n) ns

-- How many ranges hold row `id`.
abbrev pub owners : ℕ → List EmbeddingTableShardMetadata → ℕ
owners id [] = 0
owners id (range ∷ ranges) =
    (if leb range.begin id && leb id range.«end» then 1 else 0) + owners id ranges

owners-spans :
    (id start : ℕ) (ns : List ℕ)
    → 0 < start
    → owners id (spans start ns) ≡ (if leb start id && ltb id (start + sum ns) then 1 else 0)
owners-spans id start [] h = ground arith
owners-spans id start (n ∷ ns) h = ground (arith, owners-spans id (start + n) ns)

module _ (row_count servers : ℕ) (some_rows : 0 < row_count) (fits : row_count < 2 ^ 63) where
  add_ranges-spans :
      (i left last : ℕ) (ranges : List EmbeddingTableShardMetadata)
      → suc i + left ≡ servers
      → let counts = shares (suc i) left (row_count / servers) (row_count % servers) in
        last + sum counts < 2 ^ 63
        → add_ranges servers row_count (suc i) left last ranges
          ≡ some (ranges ++ spans (last + 1) counts)
  unfolding add_ranges next_range to_int64
  add_ranges-spans i zero last ranges e small = ground (arith, append-nil ranges)
  add_ranges-spans i (suc left) last ranges e small =
      let q = row_count / servers in
      let r = row_count % servers in
      let c = if ltb (suc i) r then q + 1 else q in
      let range : EmbeddingTableShardMetadata = record { begin = last + 1; «end» = last + c } in
      ground (
        arith,
        local_shard_lem row_count (suc i) servers some_rows (omega arith),
        add_ranges-spans (suc i) left (last + c) (ranges ++ range ∷ []) (omega arith)
            (ground arith),
        append_assoc ranges (range ∷ []) (spans (last + 1 + c) (shares (suc (suc i)) left q r)),
      )

  -- All servers' counts.
  abbrev counts : List ℕ
  counts = shares 0 servers (row_count / servers) (row_count % servers)

  sum-counts : 0 < servers → sum counts ≡ row_count
  sum-counts h = omega (
    arith,
    sum-shares 0 servers (row_count / servers) (row_count % servers),
    div-add-mod' row_count servers,
    mod-lt row_count h,
    mul_comm servers (row_count / servers),
  )

  first_count :
      0 < servers
      → 0 < (if ltb 0 (row_count % servers) then row_count / servers + 1 else row_count / servers)
  first_count h = elim (ℕ_discrete (row_count / servers) 0) [
    | yes z ↦
        let whole : row_count % servers ≡ row_count =
          omega (arith, div-add-mod' row_count servers, ap (λ (t : ℕ). t * servers) z) in
        ground arith
    | no nz ↦ ground arith
  ]

length-spans : (start : ℕ) (ns : List ℕ) → length (spans start ns) ≡ length ns
length-spans start [] = refl
length-spans start (n ∷ ns) = ap suc (length-spans (start + n) ns)

length-shares : (i len q r : ℕ) → length (shares i len q r) ≡ len
length-shares i zero q r = refl
length-shares i (suc len) q r = ap suc (length-shares (suc i) len q r)

-- The ranges of a new table: one for each server, and together they hold every row just once.
abbrev pub IsPartition : ℕ → ℕ → List EmbeddingTableShardMetadata → Type 0
IsPartition row_count servers ranges =
    (length ranges ≡ servers) × ((id : ℕ) → owners id ranges ≡ (if ltb id row_count then 1 else 0))

-- Ranges that follow one another from row `start` to the row before `stop`.
abbrev pub Covers : ℕ → ℕ → List EmbeddingTableShardMetadata → Type 0
Covers start stop [] = start ≡ stop
Covers start stop (range ∷ ranges) =
    (range.begin ≡ start) × (start ≤ range.«end» + 1) × Covers (range.«end» + 1) stop ranges

spans-Covers :
    (start stop : ℕ) (ns : List ℕ)
    → 0 < start
    → start + sum ns ≡ stop
    → Covers start stop (spans start ns)
spans-Covers start stop [] h e = omega arith
spans-Covers start stop (n ∷ ns) h e =
    let next : start + n - 1 + 1 ≡ start + n = omega arith in
    (
      refl,
      omega arith,
      subst (λ k. Covers k stop (spans (start + n) ns)) (sym next)
          (spans-Covers (start + n) stop ns (omega arith) (omega arith)),
    )

module _ (row_count k : ℕ) (some_rows : 0 < row_count) (fits : row_count < 2 ^ 63) where
  add_ranges-IsPartition :
      (ranges : List EmbeddingTableShardMetadata) × (add_ranges (suc k) row_count 0 (suc k) 0 []
        ≡ some ranges)
      × IsPartition row_count (suc k) ranges
      × Covers 0 row_count ranges
  unfolding add_ranges next_range to_int64
  add_ranges-IsPartition =
      let n = suc k in
      let q = row_count / n in
      let r = row_count % n in
      let c = if ltb 0 r then q + 1 else q in
      let rest = shares 1 k q r in
      let range : EmbeddingTableShardMetadata = record { begin = 0; «end» = c - 1 } in
      let total = sum-counts row_count n some_rows fits (omega arith) in
      let positive = first_count row_count n some_rows fits (omega arith) in
      (
        range ∷ spans (c - 1 + 1) rest,
        ground (
          arith,
          local_shard_lem row_count 0 n some_rows (omega arith),
          add_ranges-spans row_count n some_rows fits 0 k (c - 1) (range ∷ []) (omega arith)
              (ground arith),
          total,
          positive,
        ),
        (
          omega (arith, length-spans (c - 1 + 1) rest, length-shares 1 k q r),
          λ id. ground (arith, owners-spans id (c - 1 + 1) rest (omega arith), total, positive),
        ),
        (
          refl,
          omega arith,
          spans-Covers (c - 1 + 1) row_count rest (omega arith) (ground (arith, total, positive)),
        ),
      )

pub fresh_ranges :
    (row_count n : ℕ)
    → 0 < row_count
    → row_count < 2 ^ 63
    → 0 < n
    → (ranges : List EmbeddingTableShardMetadata) × (add_ranges n row_count 0 n 0 [] ≡ some ranges)
      × IsPartition row_count n ranges
      × Covers 0 row_count ranges
fresh_ranges row_count zero some_rows fits servers = absurd (omega arith)
fresh_ranges row_count (suc k) some_rows fits servers =
    add_ranges-IsPartition row_count k some_rows fits

-- Adding a table of at least one and fewer than 2 ^ 63 rows under a new key, with at least one
-- server, gives each server one range of rows, such that every row of the table lies in the range of
-- exactly one server and no other row in any.
pub add_embedding_table-IsPartition :
    (key row_count : ℕ) (w : Worker)
    → 0 < row_count
    → row_count < 2 ^ 63
    → 0 < w.server_num
    → get key w.embedding_table_ranges ≡ none
    → (w' : Worker) × (ranges : List EmbeddingTableShardMetadata) × (add_embedding_table key
          row_count w
        ≡ some w')
      × (get key w'.embedding_table_ranges ≡ some ranges)
      × IsPartition row_count w.server_num ranges
unfolding add_embedding_table get_or
add_embedding_table-IsPartition key row_count w some_rows fits servers fresh =
    let (ranges, added, parts, _) = fresh_ranges row_count w.server_num some_rows fits servers in
    (
      record w {
        embedding_table_ranges = put key ranges w.embedding_table_ranges;
        embedding_row_cnt = put key row_count w.embedding_row_cnt;
      },
      ranges,
      ground (arith, added),
      get-put_self key ranges w.embedding_table_ranges,
      parts,
    )

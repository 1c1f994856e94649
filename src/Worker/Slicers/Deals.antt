-- ===== src/Worker/Slicers/Deals.antt =====
-- The slices of `WorkerInitEmbeddingSlicer` of mindspore/ps/worker.cc, put together.
use rpc.Common.{
  ℕ, zero, suc, ◌+◌, ◌-◌, ◌*◌, ◌/◌, ◌%◌, ◌^◌, ◌≤◌, ◌<◌, ◌≡◌, refl, sym, ap, ◌∙◌, Bool, true, none,
  some, List, [], ◌∷◌, ◌++◌, length, take, drop, leb, nat_eq, arith, drop_all, take-append-drop,
  append_assoc, append-nil,
}
use rpc.Common.Dict.{get, put, get_or, get-put_self}
use rpc.Common.Words.{ℤ, to_uint64, u64_mod}
use native.Mathlib.Nat.{mod-eq_of_lt, mul-le-mul_right, mul-div_right}
use rpc.Worker.{EmbeddingTableShardMetadata, Worker, add_embedding_table}
use rpc.Worker.Ranges.{Covers, fresh_ranges}
use rpc.Worker.Slicers.{KvMessage}
use rpc.Worker.Slicers.Init.{init_slice, init_slices, worker_init_embedding_slicer}

Covers-le :
    (start stop : ℕ) (ranges : List EmbeddingTableShardMetadata)
    → Covers start stop ranges
    → start ≤ stop
Covers-le start stop [] c = omega arith
Covers-le start stop (range ∷ ranges) (_, up, c) =
    omega (arith, Covers-le (range.«end» + 1) stop ranges c)

module _ {ℓ} {V : Type ℓ} where
  drop-drop : (m n : ℕ) (xs : List V) → drop m (drop n xs) ≡ drop (n + m) xs
  drop-drop m zero xs = let same : 0 + m ≡ m = omega arith in ap (λ k. drop k xs) (sym same)
  drop-drop m (suc n) [] = drop_all m [] (omega arith) ∙ sym (drop_all (suc n + m) [] (omega arith))
  drop-drop m (suc n) (x ∷ xs) =
      let same : suc n + m ≡ suc (n + m) = omega arith in
      drop-drop m n xs ∙ ap (λ k. drop k (x ∷ xs)) (sym same)

  take-drop_next :
      (b e : ℕ) (xs : List V) → b ≤ e → take (e - b) (drop b xs) ++ drop e xs ≡ drop b xs
  take-drop_next b e xs l =
      let same : b + (e - b) ≡ e = omega arith in
      ap (λ k. take (e - b) (drop b xs) ++ k)
        (ap (λ k. drop k xs) (sym same) ∙ sym (drop-drop (e - b) b xs))
      ∙ take-append-drop (e - b) (drop b xs)

  -- Every slice is for its server and has the keys.
  abbrev pub AllFor : List ℤ → List (Bool × KvMessage V) → Type 0
  AllFor keys [] = Unit
  AllFor keys ((wanted, kvs) ∷ slices) = (wanted ≡ true) × (kvs.keys ≡ keys) × AllFor keys slices

  abbrev pub values_of : List (Bool × KvMessage V) → List V
  values_of [] = []
  values_of ((wanted, kvs) ∷ slices) = kvs.values ++ values_of slices

  -- A range's slice, its offsets far from where 64 bits end.
  init_slice_lem :
      (send : KvMessage V) (col_cnt : ℕ) (range : EmbeddingTableShardMetadata)
      → range.begin ≤ range.«end» + 1
      → range.«end» + 1 < u64_mod
      → (range.«end» + 1) * col_cnt ≤ length send.values
      → length send.values < u64_mod
      → init_slice send col_cnt range
        ≡ some (
          true,
          record {
            keys = send.keys;
            values =
                take
                  ((range.«end» + 1) * col_cnt - range.begin * col_cnt)
                  (drop (range.begin * col_cnt) send.values);
            len = [];
          },
        )
  unfolding init_slice
  init_slice_lem send col_cnt range up small within fits =
      let rows : (range.«end» + 1) % u64_mod ≡ range.«end» + 1 = mod-eq_of_lt small in
      let mono = mul-le-mul_right col_cnt up in
      let front : range.begin * col_cnt % u64_mod ≡ range.begin * col_cnt =
        mod-eq_of_lt {n = range.begin * col_cnt} {m = u64_mod} (omega (arith, mono)) in
      let back : (range.«end» + 1) * col_cnt % u64_mod ≡ (range.«end» + 1) * col_cnt =
        mod-eq_of_lt {n = (range.«end» + 1) * col_cnt} {m = u64_mod} (omega arith) in
      let low : leb (range.begin * col_cnt) ((range.«end» + 1) * col_cnt) ≡ true =
        ground (arith, mono) in
      let high : leb ((range.«end» + 1) * col_cnt) (length send.values) ≡ true = ground arith in
      rw (rows, front, back, low, high) refl

  init_slices-Covers :
      (send : KvMessage V) (col_cnt start stop : ℕ) (ranges : List EmbeddingTableShardMetadata)
      → Covers start stop ranges
      → stop < u64_mod
      → stop * col_cnt ≤ length send.values
      → length send.values < u64_mod
      → (slices : List (Bool × KvMessage V)) × (init_slices send col_cnt ranges ≡ some slices)
        × (length slices ≡ length ranges)
        × AllFor send.keys slices
        × (values_of slices ++ drop (stop * col_cnt) send.values
            ≡ drop (start * col_cnt) send.values)
  unfolding init_slices
  init_slices-Covers send col_cnt start stop [] c small within fits =
      ([], refl, refl, tt, ap (λ k. drop (k * col_cnt) send.values) (sym c))
  init_slices-Covers send col_cnt start stop (range ∷ ranges) (from, up, c) small within fits =
      let next = range.«end» + 1 in
      let below = Covers-le next stop ranges c in
      let mono = mul-le-mul_right col_cnt below in
      let first =
        init_slice_lem send col_cnt range (omega arith) (omega arith) (omega (arith, mono)) fits in
      let (slices, e, count, all, rest) =
        init_slices-Covers send col_cnt next stop ranges c small within fits in
      let part =
        take (next * col_cnt - range.begin * col_cnt) (drop (range.begin * col_cnt) send.values) in
      (
        (true, record { keys = send.keys; values = part; len = [] }) ∷ slices,
        ground (arith, first, e),
        ap suc count,
        (refl, refl, all),
        append_assoc part (values_of slices) (drop (stop * col_cnt) send.values)
            ∙ ap (part ++◌) rest
            ∙ take-drop_next (range.begin * col_cnt) (next * col_cnt) send.values
                (mul-le-mul_right col_cnt (omega arith))
            ∙ ap (λ k. drop (k * col_cnt) send.values) from,
      )

  -- After a table of at least one and fewer than 2 ^ 63 rows is added under a new key, with at least one
  -- server, the slicing of `columns` values for each row, fewer than 2 ^ 64 in all, gives every server
  -- one slice, marked as wanted and with the keys of the message, and the values of the slices, one
  -- after the other, are the values of the message.
  pub worker_init_embedding_slicer_lem :
      (key : ℤ) (keys : List ℤ) (values : List V) (len : List ℤ) (row_count columns : ℕ)
      (w : Worker)
      → 0 < row_count
      → row_count < 2 ^ 63
      → 0 < w.server_num
      → get (to_uint64 key) w.embedding_table_ranges ≡ none
      → length values ≡ row_count * columns
      → length values < u64_mod
      → (w' : Worker) × (slices : List (Bool × KvMessage V)) × (add_embedding_table
            (to_uint64 key)
            row_count
            w
          ≡ some w')
        × (worker_init_embedding_slicer
              (record { keys = key ∷ keys; values = values; len = len })
              w'
            ≡ some slices)
        × (length slices ≡ w.server_num)
        × AllFor (key ∷ keys) slices
        × (values_of slices ≡ values)
  unfolding worker_init_embedding_slicer add_embedding_table get_or
  worker_init_embedding_slicer_lem key keys values len row_count columns w some_rows fits servers
        fresh whole small =
      let send : KvMessage V = record { keys = key ∷ keys; values = values; len = len } in
      let (ranges, added, parts, covers) =
        fresh_ranges row_count w.server_num some_rows fits servers in
      let w' : Worker = record w {
        embedding_table_ranges = put (to_uint64 key) ranges w.embedding_table_ranges;
        embedding_row_cnt = put (to_uint64 key) row_count w.embedding_row_cnt;
      } in
      let (slices, e, count, all, joined) =
        init_slices-Covers send columns 0 row_count ranges covers (omega arith) (omega arith)
          small in
      let cols : length values / row_count ≡ columns =
        ap (λ k. k / row_count) whole ∙ mul-div_right columns some_rows in
      let none_more : drop (row_count * columns) values ≡ [] =
        drop_all (row_count * columns) values (omega arith) in
      let zero_cols : 0 * columns ≡ 0 = omega arith in
      let full : w.server_num - length slices ≡ 0 = omega (arith, count, parts.0) in
      let found = get-put_self (to_uint64 key) ranges w.embedding_table_ranges in
      let rows = get-put_self (to_uint64 key) row_count w.embedding_row_cnt in
      let run : init_slices send (length values / row_count) ranges ≡ some slices =
        ap (λ k. init_slices send k ranges) cols ∙ e in
      (
        w',
        slices,
        ground (arith, added),
        ground (arith, found, rows, parts.0, run, append-nil slices, full),
        count ∙ parts.0,
        all,
        sym (append-nil (values_of slices))
            ∙ ap (values_of slices ++◌) (sym none_more)
            ∙ joined
            ∙ ap (λ k. drop k values) zero_cols,
      )

-- ===== src/Tests/Slices.antt =====
-- Witnesses and tests for `RoundRobinSlicer` of mindspore/ps/worker.cc.
use rpc.Common.{ℕ, ◌≡◌, refl, Bool, true, some, List, [], ◌∷◌, length, nat_eq, arith}
use rpc.Common.Dict.{get, get_or}
use rpc.Common.Words.{pos, to_uint64}
use rpc.Worker.{Worker}
use rpc.Worker.Slicers.{KvMessage}
use rpc.Worker.{add_embedding_table}
use rpc.Worker.Slicers.Init.{worker_init_embedding_slicer}
use rpc.Worker.Slicers.Deals.{AllFor, values_of, worker_init_embedding_slicer_lem}
use rpc.Worker.Slicers.RoundRobin.{due, Fits, empty_slice, server_of}

-- Key 5 is server 1's; key 4 was given to nobody.
abbrev two_servers : Worker
two_servers = record {
  server_num = 2;
  embedding_table_ranges = [];
  embedding_row_cnt = [];
  key_to_server_id = (5, 1) ∷ [];
  init_keys = [];
}

abbrev two_keys : KvMessage ℕ
two_keys = record {
  keys = pos 5 ∷ pos 4 ∷ [];
  values = 10 ∷ 11 ∷ 12 ∷ [];
  len = pos 2 ∷ pos 1 ∷ [];
}

two_keys-Fits : Fits two_keys.keys two_keys.len two_keys.values two_servers
unfolding server_of get get_or to_uint64
two_keys-Fits = (ground arith, ground arith, (ground arith, ground arith, tt))

-- The first key's values are due at server 1.
due_at_one :
    due 1 two_servers two_keys.keys two_keys.len two_keys.values empty_slice
    ≡ (true, record { keys = pos 5 ∷ []; values = 10 ∷ 11 ∷ []; len = pos 2 ∷ [] })
unfolding due server_of get get_or to_uint64
due_at_one = refl

-- Five rows of two values on two servers, for a new table.
abbrev first_values : List ℕ
first_values = 1 ∷ 2 ∷ 3 ∷ 4 ∷ 5 ∷ 6 ∷ 7 ∷ 8 ∷ 9 ∷ 10 ∷ []

abbrev new_table : KvMessage ℕ
new_table = record { keys = pos 6 ∷ []; values = first_values; len = [] }

worker_init_embedding_slicer_lem_example :
    (w' : Worker) × (slices : List (Bool × KvMessage ℕ)) × (add_embedding_table 6 5 two_servers
      ≡ some w')
    × (worker_init_embedding_slicer new_table w' ≡ some slices)
    × (length slices ≡ 2)
    × AllFor (pos 6 ∷ []) slices
    × (values_of slices ≡ first_values)
unfolding to_uint64 get
worker_init_embedding_slicer_lem_example =
    worker_init_embedding_slicer_lem (pos 6) [] first_values [] 5 2 two_servers (omega arith)
      (omega arith) (omega arith) refl refl (omega arith)

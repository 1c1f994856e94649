-- ===== src/Worker/Slicers/RoundRobin.antt =====
-- `RoundRobinSlicer` of mindspore/ps/worker.cc: each key goes, with its values, to the server that the
-- key was given to. The values behind those of the keys so far are handed on, where the source adds up
-- the lengths so far. A key without a length, more values than there are, a negative length, and a
-- server past the last are `none`.
use rpc.Common.{
  get_elem?-set, get_elem?-below, ℕ, zero, suc, ◌≤◌, ◌<◌, ◌≡◌, refl, ap, ◌∙◌, Bool, true, false,
  Option, none, some, List, [], ◌∷◌, ◌++◌, length, take, drop, replicate, get_elem?, set,
  if◌then◌else◌, nat_beq, nat_beq_iff, leb, nat_eq, arith, length-set, length-replicate,
}
use rpc.Common.Dict.{get_or, subscript, get-subscript}
use rpc.Common.Words.{ℤ, pos, negsuc, to_uint64}
use rpc.Worker.{Worker}
use rpc.Worker.Slicers.{KvMessage}

-- `key_to_server_id_[key]`: a key that was given to no server goes to server 0.
unfoldable pub server_of : ℤ → Worker → ℕ
unfolding get_or
server_of key w = get_or (to_uint64 key) 0 w.key_to_server_id

-- A key that is read is in the map from then on.
abbrev known : ℤ → Worker → Worker
known key w = record w { key_to_server_id = subscript (to_uint64 key) 0 w.key_to_server_id }

server_of-known : (k key : ℤ) (w : Worker) → server_of k (known key w) ≡ server_of k w
unfolding server_of
server_of-known k key w =
    ground (arith, get-subscript (to_uint64 key) (to_uint64 k) 0 w.key_to_server_id)

module _ {ℓ} {V : Type ℓ} where
  abbrev pub empty_slice : Bool × KvMessage V
  empty_slice = (false, record { keys = []; values = []; len = [] })

  -- What a key adds to the slice of its server.
  abbrev add_to_slice : ℤ → ℕ → List V → Bool × KvMessage V → Bool × KvMessage V
  add_to_slice key len values (_, kv) = (
    true,
    record {
      keys = kv.keys ++ key ∷ [];
      values = kv.values ++ values;
      len = kv.len ++ pos len ∷ [];
    },
  )

  unfoldable pub round_robin_loop :
      List ℤ
      → List ℤ
      → List V
      → Worker
      → List (Bool × KvMessage V)
      → Option (Worker × List (Bool × KvMessage V))
  unfolding server_of subscript
  round_robin_loop [] lens values w sliced = some (w, sliced)
  round_robin_loop (key ∷ keys) [] values w sliced = none
  round_robin_loop (key ∷ keys) (negsuc n ∷ lens) values w sliced = none
  round_robin_loop (key ∷ keys) (pos len ∷ lens) values w sliced =
      elim (get_elem? sliced (server_of key w)) [
        | none ↦ none
        | some slice ↦
            if leb len (length values)
            then round_robin_loop keys lens (drop len values) (known key w)
                (set sliced (server_of key w) (add_to_slice key len (take len values) slice))
            else none
      ]

  unfoldable pub round_robin_slicer :
      KvMessage V → Worker → Option (Worker × List (Bool × KvMessage V))
  unfolding round_robin_loop
  round_robin_slicer send w =
      round_robin_loop send.keys send.len send.values w (replicate w.server_num empty_slice)

  -- The slice of a server: its keys of the message, in their order, each with its values.
  unfoldable pub due :
      ℕ → Worker → List ℤ → List ℤ → List V → Bool × KvMessage V → Bool × KvMessage V
  unfolding server_of
  due j w (key ∷ keys) (pos len ∷ lens) values slice =
      due j w keys lens (drop len values) (
        if nat_beq (server_of key w) j then add_to_slice key len (take len values) slice else slice)
  due j w [] lens values slice = slice
  due j w (key ∷ keys) [] values slice = slice
  due j w (key ∷ keys) (negsuc n ∷ lens) values slice = slice

module _ {ℓ} {V : Type ℓ} where
  due-known :
      (j : ℕ) (w v : Worker)
      → ((k : ℤ) → server_of k v ≡ server_of k w)
      → (keys lens : List ℤ) (values : List V) (slice : Bool × KvMessage V)
      → due j v keys lens values slice ≡ due j w keys lens values slice
  unfolding due
  due-known j w v same [] lens values slice = refl
  due-known j w v same (key ∷ keys) [] values slice = refl
  due-known j w v same (key ∷ keys) (negsuc n ∷ lens) values slice = refl
  due-known j w v same (key ∷ keys) (pos len ∷ lens) values slice =
      let next =
        if nat_beq (server_of key w) j
        then add_to_slice key len (take len values) slice
        else slice in
      ap
        (λ s.
          due j v keys lens (drop len values)
            (if nat_beq s j then add_to_slice key len (take len values) slice else slice))
        (same key)
      ∙ due-known j w v same keys lens (drop len values) next

  -- The keys have their lengths, the values are enough, and the servers of the keys are there.
  abbrev pub Fits : List ℤ → List ℤ → List V → Worker → Type 0
  Fits [] lens values w = Unit
  Fits (key ∷ keys) [] values w = ⊥
  Fits (key ∷ keys) (negsuc n ∷ lens) values w = ⊥
  Fits (key ∷ keys) (pos len ∷ lens) values w =
      (len ≤ length values) × (server_of key w < w.server_num) × Fits keys lens (drop len values) w

  Fits-known :
      (w : Worker) (first : ℤ) (keys lens : List ℤ) (values : List V)
      → Fits keys lens values w
      → Fits keys lens values (known first w)
  Fits-known w first [] lens values f = tt
  Fits-known w first (key ∷ keys) [] values f = f
  Fits-known w first (key ∷ keys) (negsuc n ∷ lens) values f = f
  Fits-known w first (key ∷ keys) (pos len ∷ lens) values (enough, there, f) = (
    enough,
    omega (arith, server_of-known key first w),
    Fits-known w first keys lens (drop len values) f,
  )

  round_robin_loop_lem :
      (keys lens : List ℤ) (values : List V) (w : Worker) (sliced : List (Bool × KvMessage V))
      → Fits keys lens values w
      → length sliced ≡ w.server_num
      → (w' : Worker) × (sliced' : List (Bool × KvMessage V)) × (round_robin_loop keys lens values w
            sliced
          ≡ some (w', sliced'))
        × (length sliced' ≡ w.server_num)
        × ((j : ℕ) (slice : Bool × KvMessage V)
            → get_elem? sliced j ≡ some slice
            → get_elem? sliced' j ≡ some (due j w keys lens values slice))
  unfolding round_robin_loop due
  round_robin_loop_lem [] lens values w sliced f l = (w, sliced, refl, l, λ j slice e. e)
  round_robin_loop_lem (key ∷ keys) [] values w sliced f l = absurd f
  round_robin_loop_lem (key ∷ keys) (negsuc n ∷ lens) values w sliced f l = absurd f
  round_robin_loop_lem (key ∷ keys) (pos len ∷ lens) values w sliced (enough, there, f) l =
      let s = server_of key w in
      let (slice, at_s) = get_elem?-below sliced s (omega arith) in
      let added = add_to_slice key len (take len values) slice in
      let (w', sliced', e, size, each) =
        round_robin_loop_lem keys lens (drop len values) (known key w) (set sliced s added)
          (Fits-known w key keys lens (drop len values) f) (length-set sliced s added ∙ l) in
      (
        w',
        sliced',
        ground (arith, at_s, e),
        size,
        λ j other h.
            each j (if nat_beq s j then add_to_slice key len (take len values) other else other)
              (ground (arith, get_elem?-set sliced s j slice added at_s, nat_beq_iff s j))
            ∙ ap some (
                due-known j w (known key w) (λ k. server_of-known k key w) keys lens
                  (drop len values) _),
      )

  -- On a message whose keys have their lengths and their values, for a worker whose keys have servers
  -- below `server_num`, `RoundRobinSlicer` has a result, with a slice for each server: its keys of
  -- the message, in their order, each with its length and its values, and no other. A key that was
  -- given to no server counts as one of server 0.
  pub round_robin_slicer_lem :
      (send : KvMessage V) (w : Worker)
      → Fits send.keys send.len send.values w
      → (w' : Worker) × (sliced : List (Bool × KvMessage V)) × (round_robin_slicer send w
          ≡ some (w', sliced))
        × (length sliced ≡ w.server_num)
        × ((j : ℕ)
            → j < w.server_num
            → get_elem? sliced j ≡ some (due j w send.keys send.len send.values empty_slice))
  unfolding round_robin_slicer
  round_robin_slicer_lem send w f =
      let (w', sliced, e, size, each) =
        round_robin_loop_lem send.keys send.len send.values w (replicate w.server_num empty_slice) f
          (length-replicate w.server_num empty_slice) in
      (w', sliced, e, size, λ j l. each j empty_slice (get-replicate w.server_num j empty_slice l))
    where
      get-replicate :
          (n j : ℕ) (a : Bool × KvMessage V) → j < n → get_elem? (replicate n a) j ≡ some a
      get-replicate zero j a l = absurd (omega arith)
      get-replicate (suc n) zero a l = refl
      get-replicate (suc n) (suc j) a l = get-replicate n j a (omega arith)

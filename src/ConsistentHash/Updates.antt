-- ===== src/ConsistentHash/Updates.antt =====
-- What `insert` and `erase` of consistent_hash/consistent_hash.h change: the ring stays in order,
-- and only the lookups that the node gains or loses are sent elsewhere.
use rpc.Common.{ℕ, ◌<◌, ◌≡◌, refl, ◌≢◌, ◌⊎◌, inl, inr, true, false, some, [], ◌∷◌, nat_eq, arith}
use rpc.Common.Dict.{Dict, has, erase, get-erase}
use rpc.ConsistentHash.{ConsistentHashMap, find, insert, erase_node}
use rpc.ConsistentHash.OrderedMap.{
  insert_new, first, insert_new-Above, erase-Above, get-insert_new, lower_bound-erase,
  lower_bound-erase-none, lower_bound-insert_new, erase-insert_new,
}
use rpc.ConsistentHash.Lookup.{IsRing, find-cases, find_lem}

module _ {ℓ} {T : Type ℓ} (hasher : T → ℕ) (range : ℕ) (m : ConsistentHashMap T) (node : T) where
  -- The insertion of a node whose hash is within the range keeps a ring in order and within its range.
  pub insert-IsRing : IsRing range m → hasher node < range → IsRing range (insert hasher node m).0
  unfolding insert
  insert-IsRing r b = record {
    rising = insert_new-Above 0 (hasher node) node m.nodes (omega arith) r.rising;
    within = λ j w g.
        ground (arith, get-insert_new 0 (hasher node) j node m.nodes r.rising, r.within j w);
  }

  -- A removal keeps a ring in order and within its range.
  pub erase_node-IsRing : IsRing range m → IsRing range (erase_node hasher node m).0
  unfolding erase_node
  erase_node-IsRing r = record {
    rising = erase-Above 0 (hasher node) m.nodes r.rising;
    within = λ j w g. ground (arith, get-erase (hasher node) j m.nodes, r.within j w);
  }

module _ {ℓ} {T : Type ℓ} (hasher : T → ℕ) (h : ℕ) (m : ConsistentHashMap T) (node : T) where
  first-erase :
      (x : ℕ) (l : Dict ℕ T) (k : ℕ) (v : T)
      → first l ≡ some (k, v)
      → x ≢ k
      → first (erase x l) ≡ some (k, v)
  unfolding first erase
  first-erase x [] k v e d = absurd (ground arith)
  first-erase x ((i, u) ∷ l) k v e d = ground arith

  -- A hash that is served by an entry other than the removed one is served by it still after the
  -- removal.
  pub find-erase_node :
      (k : ℕ) (v : T)
      → find h m ≡ some (k, v)
      → hasher node ≢ k
      → find h (erase_node hasher node m).0 ≡ some (k, v)
  unfolding erase_node
  find-erase_node k v e d =
      let x = hasher node in
      elim (find-cases h m k v e) [
        | inl above ↦
            ground (arith, find_lem h (erase x m.nodes), lower_bound-erase h x m.nodes k v above d)
        | inr (up, start) ↦ ground (
          arith,
          find_lem h (erase x m.nodes),
          lower_bound-erase-none h x m.nodes up,
          first-erase x m.nodes k v start d,
        )
      ]

  first-insert_new :
      (x : ℕ) (u : T) (l : Dict ℕ T)
      → (first (insert_new x u l) ≡ first l) ⊎ (first (insert_new x u l) ≡ some (x, u))
  unfolding first insert_new
  first-insert_new x u [] = inr refl
  first-insert_new x u ((i, w) ∷ l) = ground arith

  -- After an insertion every lookup is answered as before or with the new node.
  pub find-insert :
      (find h (insert hasher node m).0 ≡ find h m)
      ⊎ (find h (insert hasher node m).0 ≡ some (hasher node, node))
  unfolding insert
  find-insert =
      let x = hasher node in
      ground (
        arith,
        find_lem h (insert_new x node m.nodes),
        find_lem h m.nodes,
        lower_bound-insert_new h x node m.nodes,
        first-insert_new x node m.nodes,
      )

  has-insert_new : (x : ℕ) (u : T) (l : Dict ℕ T) → has x (insert_new x u l) ≡ true
  unfolding has insert_new
  has-insert_new x u [] = ground arith
  has-insert_new x u ((i, w) ∷ l) = ground (arith, has-insert_new x u l)

  -- Inserting a node at a hash that no entry has and removing it again gives the same ring, and the
  -- removal counts one entry.
  pub erase_node-insert :
      (range : ℕ)
      → IsRing range m
      → has (hasher node) m.nodes ≡ false
      → erase_node hasher node (insert hasher node m).0 ≡ (m, 1)
  unfolding erase_node insert
  erase_node-insert range r free =
      let x = hasher node in
      ground (arith, erase-insert_new 0 x node m.nodes r.rising free, has-insert_new x node m.nodes)

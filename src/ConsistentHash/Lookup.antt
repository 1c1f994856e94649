-- ===== src/ConsistentHash/Lookup.antt =====
-- Where `find` of consistent_hash/consistent_hash.h sends a hash, on a ring of `range` positions.
use rpc.Common.{
  ℕ, suc, ◌+◌, ◌-◌, ◌%◌, ◌≤◌, ◌<◌, ◌≡◌, refl, ◌⊎◌, inl, inr, false, none, some, [], ◌∷◌,
  Option-cases, nat_eq, arith,
}
use rpc.Common.Dict.{Dict, get}
use rpc.ConsistentHash.{ConsistentHashMap, empty, find}
use rpc.ConsistentHash.OrderedMap.{
  Above, Above-le, lower_bound, first, lower_bound-some, lower_bound_least, lower_bound-none,
}

-- How far one walks up from `h` to `k`, past the end to the start where `k` lies below.
abbrev pub clockwise : ℕ → ℕ → ℕ → ℕ
clockwise range h k = (k + range - h) % range

pub record IsRing {ℓ} {T : Type ℓ} (range : ℕ) (m : ConsistentHashMap T) : Type ℓ where
  pub rising : Above 0 m.nodes
  pub within : (j : ℕ) (w : T) → get j m.nodes ≡ some w → j < range

clockwise_up : (range h k : ℕ) → h ≤ k → k < range → clockwise range h k ≡ k - h
clockwise_up range h k l b = grind arith

clockwise_wrap : (range h k : ℕ) → k < h → h < range → clockwise range h k ≡ k + range - h
clockwise_wrap range h k l b = grind arith

module _ {ℓ} {T : Type ℓ} (range h : ℕ) (inside : h < range) where
  -- The entry that `find` gives up to: at or above `h`, or the first where none is.
  nearest_up :
      (m : Dict ℕ T) (k : ℕ) (v : T) (j : ℕ) (w : T)
      → Above 0 m
      → k < range
      → j < range
      → lower_bound h m ≡ some (k, v)
      → get j m ≡ some w
      → clockwise range h k ≤ clockwise range h j
  nearest_up m k v j w s kb jb e g = grind (
    arith,
    lower_bound-some 0 h m k v s e,
    lower_bound_least 0 h m k v j w s e g,
    clockwise_up range h k,
    clockwise_up range h j,
    clockwise_wrap range h j,
  )

  nearest_wrapped :
      (m : Dict ℕ T) (k : ℕ) (v : T) (j : ℕ) (w : T)
      → Above 0 m
      → lower_bound h m ≡ none
      → first m ≡ some (k, v)
      → get j m ≡ some w
      → clockwise range h k ≤ clockwise range h j
  unfolding first get
  nearest_wrapped [] k v j w s e f g = absurd (ground arith)
  nearest_wrapped ((i, u) ∷ m) k v j w s e f g = grind (
    arith,
    Above-le (suc i) m j w s.1,
    lower_bound-none h ((i, u) ∷ m) j w e g,
    lower_bound-none h ((i, u) ∷ m) i u e,
    clockwise_wrap range h i,
    clockwise_wrap range h j,
  )

first-get {ℓ} :
    {T : Type ℓ} (m : Dict ℕ T) (k : ℕ) (v : T) → first m ≡ some (k, v) → get k m ≡ some v
unfolding first get
first-get [] k v e = absurd (ground arith)
first-get ((i, u) ∷ m) k v e = ground arith

module _ {ℓ} {T : Type ℓ} where
  -- A ring with a node answers every lookup.
  pub find_total :
      (h : ℕ) (m : ConsistentHashMap T) → empty m ≡ false → (e : ℕ × T) × (find h m ≡ some e)
  unfolding find empty first
  find_total h m n = elim (Option-cases (lower_bound h m.nodes)) [
    | inl none_above ↦ wrapped m.nodes refl none_above
    | inr (e, found) ↦ (e, ground arith)
  ]
    where
      wrapped :
          (l : Dict ℕ T)
          → m.nodes ≡ l
          → lower_bound h m.nodes ≡ none
          → (e : ℕ × T) × (find h m ≡ some e)
      wrapped [] p q = absurd (ground arith)
      wrapped (e ∷ l) p q = (e, ground arith)

  -- The test for the empty ring changes nothing.
  pub find_lem :
      (h : ℕ) (l : Dict ℕ T)
      → find h (record { nodes = l })
        ≡ elim (lower_bound h l) [ none ↦ first l | some it ↦ some it ]
  unfolding find empty lower_bound first
  find_lem h [] = refl
  find_lem h (e ∷ l) = refl

  pub find-cases :
      (h : ℕ) (m : ConsistentHashMap T) (k : ℕ) (v : T)
      → find h m ≡ some (k, v)
      → (lower_bound h m.nodes ≡ some (k, v))
        ⊎ ((lower_bound h m.nodes ≡ none) × (first m.nodes ≡ some (k, v)))
  unfolding find empty
  find-cases h m k v e = ground arith

  pub find-nearest :
      (range h : ℕ) (m : ConsistentHashMap T) (k : ℕ) (v : T)
      → IsRing range m
      → h < range
      → find h m ≡ some (k, v)
      → (get k m.nodes ≡ some v)
        × ((j : ℕ) (w : T) → get j m.nodes ≡ some w → clockwise range h k ≤ clockwise range h j)
  find-nearest range h m k v r inside e = elim (find-cases h m k v e) [
    | inl above ↦
        let here = (lower_bound-some 0 h m.nodes k v r.rising above).1 in
        (
          here,
          λ j w g.
              nearest_up range h inside m.nodes k v j w r.rising (r.within k v here)
                (r.within j w g) above g,
        )
    | inr (up, start) ↦ (
      first-get m.nodes k v start,
      λ j w g. nearest_wrapped range h inside m.nodes k v j w r.rising up start g,
    )
  ]

  -- On a ring with a node, every hash within the range is served, by an entry of the ring that no
  -- other entry precedes on the way up from the hash (past the end the way goes on at the start).
  pub find_serves_nearest :
      (range h : ℕ) (m : ConsistentHashMap T)
      → IsRing range m
      → h < range
      → empty m ≡ false
      → (k : ℕ) × (v : T) × (find h m ≡ some (k, v))
        × (get k m.nodes ≡ some v)
        × ((j : ℕ) (w : T) → get j m.nodes ≡ some w → clockwise range h k ≤ clockwise range h j)
  find_serves_nearest range h m r inside n =
      let ((k, v), e) = find_total h m n in
      let (here, nearest) = find-nearest range h m k v r inside e in (k, v, e, here, nearest)

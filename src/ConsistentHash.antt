-- ===== src/ConsistentHash.antt =====
-- consistent_hash/consistent_hash.h: the hash ring. `nodes_` (a std::map) is a list of entries in
-- rising order of hash; an iterator is the entry that it points to, and `none` is `end()`. The
-- hash functor is a parameter.
pub mod OrderedMap
pub mod Lookup
pub mod Updates
use rpc.Common.{
  ℕ, suc, Bool, true, false, not, Option, none, some, List, [], ◌∷◌, if◌then◌else◌, nat_eq,
}
use rpc.Common.Dict.{Dict, size, get, has, erase}
use OrderedMap.{insert_new, lower_bound, first}

pub record ConsistentHashMap {ℓ} (T : Type ℓ) : Type ℓ where
  pub nodes : Dict ℕ T

module _ {ℓ} {T : Type ℓ} where
  unfoldable pub empty : ConsistentHashMap T → Bool
  empty m = elim m.nodes [ [] ↦ true | _ ∷ _ ↦ false ]

  -- `end()` gives `none`; past the last entry the search wraps round to `begin()`.
  unfoldable pub find : ℕ → ConsistentHashMap T → Option (ℕ × T)
  unfolding empty
  find hash m =
      if empty m
      then none
      else elim (lower_bound hash m.nodes) [ none ↦ first m.nodes | some it ↦ some it ]

  -- `erase(iterator)`.
  pub erase_at : ℕ × T → ConsistentHashMap T → ConsistentHashMap T
  erase_at (hash, _) m = record { nodes = erase hash m.nodes }

module _ {ℓ} {T : Type ℓ} (hasher : T → ℕ) where
  -- The ring, and the pair that std::map::insert returns.
  pub insert : T → ConsistentHashMap T → ConsistentHashMap T × (Option T × Bool)
  insert node m =
      let nodes = insert_new (hasher node) node m.nodes in
      (record { nodes = nodes }, (get (hasher node) nodes, not (has (hasher node) m.nodes)))

  -- `erase(const T &)`: the ring, and how many entries went.
  pub erase_node : T → ConsistentHashMap T → ConsistentHashMap T × ℕ
  erase_node node m =
      (record { nodes = erase (hasher node) m.nodes }, if has (hasher node) m.nodes then 1 else 0)

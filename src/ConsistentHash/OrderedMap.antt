-- ===== src/ConsistentHash/OrderedMap.antt =====
-- What consistent_hash/consistent_hash.h uses of std::map: entries in rising order of their keys.
use rpc.Common.{
  ℕ, suc, ◌≤◌, ◌<◌, ◌≡◌, refl, ◌≢◌, ◌⊎◌, false, Option, none, some, [], ◌∷◌, if◌then◌else◌, ltb,
  nat_beq, nat_eq, arith,
}
use rpc.Common.Dict.{Dict, get, has, erase}

module _ {ℓ} {T : Type ℓ} where
  unfoldable pub insert_new : ℕ → T → Dict ℕ T → Dict ℕ T
  insert_new k v [] = (k, v) ∷ []
  insert_new k v ((j, w) ∷ m) =
      let rest = insert_new k v m in
      if ltb k j then (k, v) ∷ (j, w) ∷ m else if nat_beq k j then (j, w) ∷ m else (j, w) ∷ rest

  unfoldable pub lower_bound : ℕ → Dict ℕ T → Option (ℕ × T)
  lower_bound h [] = none
  lower_bound h ((j, w) ∷ m) = let rest = lower_bound h m in if ltb j h then rest else some (j, w)

  unfoldable pub first : Dict ℕ T → Option (ℕ × T)
  first [] = none
  first (e ∷ m) = some e

  -- The keys rise and are at least `n`.
  abbrev pub Above : ℕ → Dict ℕ T → Type 0
  Above n [] = Unit {0}
  Above n ((k, v) ∷ m) = (n ≤ k) × Above (suc k) m

module _ {ℓ} {T : Type ℓ} where
  pub Above-mono : (a b : ℕ) (m : Dict ℕ T) → a ≤ b → Above b m → Above a m
  Above-mono a b [] h s = tt
  Above-mono a b ((k, v) ∷ m) h s = (omega arith, s.1)

  pub Above-le : (n : ℕ) (m : Dict ℕ T) (j : ℕ) (w : T) → Above n m → get j m ≡ some w → n ≤ j
  unfolding get
  Above-le n [] j w s g = absurd (ground arith)
  Above-le n ((k, v) ∷ m) j w s g = ground (arith, Above-le (suc k) m j w s.1)

  pub insert_new-Above :
      (n k : ℕ) (v : T) (m : Dict ℕ T) → n ≤ k → Above n m → Above n (insert_new k v m)
  unfolding insert_new
  insert_new-Above n k v [] h s = (h, tt)
  insert_new-Above n k v ((j, w) ∷ m) h s = ground (arith, insert_new-Above (suc j) k v m)

  pub erase-Above : (n k : ℕ) (m : Dict ℕ T) → Above n m → Above n (erase k m)
  unfolding erase
  erase-Above n k [] s = tt
  erase-Above n k ((j, w) ∷ m) s =
      ground (arith, erase-Above (suc j) k m s.1, Above-mono n (suc j) (erase k m))

  pub get-insert_new :
      (n k j : ℕ) (v : T) (m : Dict ℕ T)
      → Above n m
      → get j (insert_new k v m)
        ≡ (if nat_beq k j then (if has k m then get k m else some v) else get j m)
  unfolding get has insert_new
  get-insert_new n k j v [] s = refl
  get-insert_new n k j v ((i, w) ∷ m) s =
      ground (arith, get-insert_new (suc i) k j v m s.1, absent (suc i) k m s.1)
    where
      absent : (n k : ℕ) (m : Dict ℕ T) → Above n m → k < n → has k m ≡ false
      absent n k [] s h = refl
      absent n k ((i, w) ∷ m) s h = ground (arith, absent (suc i) k m s.1)

  -- `lower_bound` finds an entry that is not below `h`,
  pub lower_bound-some :
      (n h : ℕ) (m : Dict ℕ T) (k : ℕ) (v : T)
      → Above n m
      → lower_bound h m ≡ some (k, v)
      → (h ≤ k) × (get k m ≡ some v)
  unfolding lower_bound get
  lower_bound-some n h [] k v s e = absurd (ground arith)
  lower_bound-some n h ((i, u) ∷ m) k v s e =
      ground (arith, lower_bound-some (suc i) h m k v s.1, Above-le (suc i) m k v s.1)

  -- the least of them,
  pub lower_bound_least :
      (n h : ℕ) (m : Dict ℕ T) (k : ℕ) (v : T) (j : ℕ) (w : T)
      → Above n m
      → lower_bound h m ≡ some (k, v)
      → get j m ≡ some w
      → h ≤ j
      → k ≤ j
  unfolding lower_bound get
  lower_bound_least n h [] k v j w s e g l = absurd (ground arith)
  lower_bound_least n h ((i, u) ∷ m) k v j w s e g l =
      ground (arith, lower_bound_least (suc i) h m k v j w s.1, Above-le (suc i) m j w s.1)

  -- and fails only if all entries are below `h`.
  pub lower_bound-none :
      (h : ℕ) (m : Dict ℕ T) (j : ℕ) (w : T) → lower_bound h m ≡ none → get j m ≡ some w → j < h
  unfolding lower_bound get
  lower_bound-none h [] j w e g = absurd (ground arith)
  lower_bound-none h ((i, u) ∷ m) j w e g = ground (arith, lower_bound-none h m j w)

  pub lower_bound-erase :
      (h x : ℕ) (m : Dict ℕ T) (k : ℕ) (v : T)
      → lower_bound h m ≡ some (k, v)
      → x ≢ k
      → lower_bound h (erase x m) ≡ some (k, v)
  unfolding lower_bound erase
  lower_bound-erase h x [] k v e d = absurd (ground arith)
  lower_bound-erase h x ((i, u) ∷ m) k v e d = ground (arith, lower_bound-erase h x m k v)

  pub lower_bound-erase-none :
      (h x : ℕ) (m : Dict ℕ T) → lower_bound h m ≡ none → lower_bound h (erase x m) ≡ none
  unfolding lower_bound erase
  lower_bound-erase-none h x [] e = refl
  lower_bound-erase-none h x ((i, u) ∷ m) e = ground (arith, lower_bound-erase-none h x m)

  pub lower_bound-insert_new :
      (h x : ℕ) (u : T) (m : Dict ℕ T)
      → (lower_bound h (insert_new x u m) ≡ lower_bound h m)
        ⊎ (lower_bound h (insert_new x u m) ≡ some (x, u))
  unfolding lower_bound insert_new
  lower_bound-insert_new h x u [] = ground arith
  lower_bound-insert_new h x u ((i, w) ∷ m) = ground (arith, lower_bound-insert_new h x u m)

  pub erase-insert_new :
      (n k : ℕ) (v : T) (m : Dict ℕ T)
      → Above n m
      → has k m ≡ false
      → erase k (insert_new k v m) ≡ m
  unfolding erase insert_new has
  erase-insert_new n k v [] s h = ground arith
  erase-insert_new n k v ((i, w) ∷ m) s h =
      ground (arith, erase-insert_new (suc i) k v m s.1, erase_absent k m)
    where
      erase_absent : (k : ℕ) (m : Dict ℕ T) → has k m ≡ false → erase k m ≡ m
      erase_absent k [] h = refl
      erase_absent k ((i, w) ∷ m) h = ground (arith, erase_absent k m)

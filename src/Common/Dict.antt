-- ===== src/Common/Dict.antt =====
-- Maps and sets of the C++ library as association lists in order of insertion.
-- `get` is `find`, `put` is `m[k] = v`, `has` is `count(k) > 0`.
use rpc.Common.Tests.{Key, ◌==◌, if◌then◌else◌, equals_refl}
use rpc.Common.Lists.{length}
use Prim.Native.Nat.{ℕ, suc}
use mathlib.Core.Path.{◌≡◌, refl}
use mathlib.Core.Bool.{Bool, true, false}
use mathlib.Core.List.{List, [], ◌∷◌}
use mathlib.Core.Option.{Option, none, some}
use native.Mathlib.Omega.{arith}

abbrev pub Dict {ℓ κ} : Type ℓ → Type κ → Type (ℓ ⊔ κ)
Dict K V = List (K × V)

module _ {ℓ κ} {K : Type ℓ} {V : Type κ} where
  abbrev pub size : Dict K V → ℕ
  size = length

module _ {ℓ κ} {K : Type ℓ} {V : Type κ} ⦃e : Key K⦄ where
  unfoldable pub get : K → Dict K V → Option V
  get k [] = none
  get k ((j, v) ∷ m) = if j == k then some v else get k m

  unfoldable pub has : K → Dict K V → Bool
  has k [] = false
  has k ((j, v) ∷ m) = if j == k then true else has k m

  unfoldable pub put : K → V → Dict K V → Dict K V
  put k v [] = (k, v) ∷ []
  put k v ((j, w) ∷ m) = if j == k then (k, v) ∷ m else (j, w) ∷ put k v m

  unfoldable pub erase : K → Dict K V → Dict K V
  erase k [] = []
  erase k ((j, w) ∷ m) = let rest = erase k m in if j == k then rest else (j, w) ∷ rest

  -- `m[k]` read: a missing key is first given the default value.
  unfoldable pub subscript : K → V → Dict K V → Dict K V
  unfolding has put
  subscript k default m = if has k m then m else put k default m

  unfoldable pub get_or : K → V → Dict K V → V
  unfolding get
  get_or k default m = elim (get k m) [ none ↦ default | some v ↦ v ]

module _ {ℓ κ} {K : Type ℓ} {V : Type κ} ⦃e : Key K⦄ where
  pub get-put :
      (k j : K) (v : V) (m : Dict K V) → get j (put k v m) ≡ (if k == j then some v else get j m)
  unfolding get put
  get-put k j v [] = refl
  get-put k j v ((i, w) ∷ m) =
      ground (arith, e.equals_iff k j, e.equals_iff i k, e.equals_iff i j, get-put k j v m)

  pub get-put_self : (k : K) (v : V) (m : Dict K V) → get k (put k v m) ≡ some v
  get-put_self k v m = simp (get-put, equals_refl)

  pub get-erase : (k j : K) (m : Dict K V) → get j (erase k m) ≡ (if k == j then none else get j m)
  unfolding get erase
  get-erase k j [] = ground arith
  get-erase k j ((i, w) ∷ m) =
      ground (arith, e.equals_iff k j, e.equals_iff i k, e.equals_iff i j, get-erase k j m)

  pub has-get : (k : K) (m : Dict K V) → has k m ≡ elim (get k m) [ none ↦ false | some _ ↦ true ]
  unfolding get has
  has-get k [] = refl
  has-get k ((j, w) ∷ m) = ground (arith, has-get k m)

  pub has-put :
      (k j : K) (v : V) (m : Dict K V) → has j (put k v m) ≡ (if k == j then true else has j m)
  unfolding has put
  has-put k j v [] = refl
  has-put k j v ((i, w) ∷ m) =
      ground (arith, e.equals_iff k j, e.equals_iff i k, e.equals_iff i j, has-put k j v m)

  pub has-erase : (k j : K) (m : Dict K V) → has j (erase k m) ≡ (if k == j then false else has j m)
  unfolding has erase
  has-erase k j [] = ground arith
  has-erase k j ((i, w) ∷ m) =
      ground (arith, e.equals_iff k j, e.equals_iff i k, e.equals_iff i j, has-erase k j m)

  pub size-put :
      (k : K) (v : V) (m : Dict K V) → size (put k v m) ≡ (if has k m then size m else suc (size m))
  unfolding has put
  size-put k v [] = refl
  size-put k v ((i, w) ∷ m) = ground (arith, size-put k v m)

  pub get-subscript :
      (k j : K) (v : V) (m : Dict K V)
      → get j (subscript k v m)
        ≡ elim (get j m) [ none ↦ if k == j then some v else none | some w ↦ some w ]
  unfolding subscript
  get-subscript k j v m = ground (arith, e.equals_iff k j, get-put k j v m, has-get k m)

  pub subscript_present : (k : K) (v w : V) (m : Dict K V) → get k m ≡ some w → subscript k v m ≡ m
  unfolding subscript
  subscript_present k v w m h = ground (arith, has-get k m)

  pub subscript_absent :
      (k : K) (v : V) (m : Dict K V) → get k m ≡ none → subscript k v m ≡ put k v m
  unfolding subscript
  subscript_absent k v m h = ground (arith, has-get k m)

-- No key stands twice.
module _ {ℓ κ} {K : Type ℓ} {V : Type κ} ⦃e : Key K⦄ where
  abbrev pub Distinct : Dict K V → Type 0
  Distinct [] = Unit
  Distinct ((k, v) ∷ m) = (has k m ≡ false) × Distinct m

module _ {ℓ κ} {K : Type ℓ} {V : Type κ} ⦃e : Key K⦄ where
  pub Distinct-put : (k : K) (v : V) (m : Dict K V) → Distinct m → Distinct (put k v m)
  unfolding put has
  Distinct-put k v [] d = (refl, tt)
  Distinct-put k v ((j, w) ∷ m) (a, d) =
      ground (arith, Distinct-put k v m d, has-put k j v m, e.equals_iff k j, e.equals_iff j k)

  pub Distinct-erase : (k : K) (m : Dict K V) → Distinct m → Distinct (erase k m)
  unfolding erase has
  Distinct-erase k [] d = tt
  Distinct-erase k ((j, w) ∷ m) (a, d) = ground (arith, Distinct-erase k m d, has-erase k j m)

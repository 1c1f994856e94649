-- ===== src/Shard/Balance.antt =====
-- The shares of `LocalShard` in mindspore/ps/util.cc.
use rpc.Common.{
  ℕ, zero, suc, min, ◌+◌, ◌-◌, ◌*◌, ◌/◌, ◌%◌, ◌≤◌, ◌<◌, ◌≡◌, refl, ◌∙◌, some, List, [], ◌∷◌,
  replicate, get_elem?, if◌then◌else◌, ltb, arith,
}
use rpc.Common.Words.{pos}
use rpc.Shard.{bump, deal, all_rank_local_shard, local_shard}
use native.Mathlib.Nat.{
  mod-eq_of_lt, mod_self, mul-add-div_right, div-eq_of_lt, add-zero, sub-zero, zero-mod,
  mul-add-mod_self_left, mul_comm,
}
use native.Mathlib.Numerals.{add-one}
use native.Mathlib.Decide.{dec_lt}

-- `len` shares from rank `i` on: `q` rows each, and one more below rank `r`.
abbrev pub shares : ℕ → ℕ → ℕ → ℕ → List ℕ
shares i zero q r = []
shares i (suc len) q r = (if ltb i r then q + 1 else q) ∷ shares (suc i) len q r

shares-replicate : (i len : ℕ) → replicate len 0 ≡ shares i len 0 0
shares-replicate i zero = refl
shares-replicate i (suc len) = ground (arith, shares-replicate (suc i) len)

bump-shares : (i len q r : ℕ) → i ≤ r → bump (r - i) (shares i len q r) ≡ shares i len q (suc r)
unfolding bump
bump-shares i zero q r h = refl
bump-shares i (suc len) q r h = elim (dec_lt i r) [
  | yes l ↦
      let down : r - i ≡ suc (r - suc i) = omega arith in
      rw down (ground (arith, bump-shares (suc i) len q r l))
  | no g ↦
      let here : r - i ≡ 0 = omega arith in
      rw here (ground (arith, shares_past (suc i) len q r (omega arith)))
]
  where
    -- Ranks above `r` have the same share for both bounds.
    shares_past : (j len q r : ℕ) → r < j → shares j len q r ≡ shares j len q (suc r)
    shares_past j zero q r l = refl
    shares_past j (suc len) q r l = ground (arith, shares_past (suc j) len q r)

shares_full : (i len q r : ℕ) → i + len ≤ r → shares i len q r ≡ shares i len (q + 1) 0
shares_full i zero q r h = refl
shares_full i (suc len) q r h = ground (arith, shares_full (suc i) len q r)

-- Dealing goes on where it stands: at rank `r` of round `q`.
deal-shares :
    (rows next q r n : ℕ)
    → next % n ≡ r
    → r < n
    → (q' : ℕ) × (r' : ℕ) × (deal rows next n (shares 0 n q r) ≡ shares 0 n q' r')
      × (r' < n)
      × (q' * n + r' ≡ q * n + r + rows)
unfolding deal
deal-shares zero next q r n e h = (q, r, refl, h, omega arith)
deal-shares (suc rows) next q r n e h = elim (dec_lt (suc r) n) [
  | yes l ↦
      let up : (r + 1) % n ≡ suc r = rw add-one (mod-eq_of_lt l) in
      let (q', r', dealt, below, total) = deal-shares rows (r + 1) q (suc r) n up l in
      let step : deal rows (next % n + 1) n (bump (next % n) (shares 0 n q r))
          ≡ deal rows (r + 1) n (shares 0 n q (suc r)) =
        rw (e, bumped) in
      (q', r', step ∙ dealt, below, omega arith)
  | no g ↦
      let whole : r + 1 ≡ n = omega arith in
      let round_up : (r + 1) % n ≡ 0 = rw whole (mod_self n) in
      let (q', r', dealt, below, total) =
        deal-shares rows (r + 1) (q + 1) 0 n round_up (omega arith) in
      let step : deal rows (next % n + 1) n (bump (next % n) (shares 0 n q r))
          ≡ deal rows (r + 1) n (shares 0 n (q + 1) 0) =
        rw (e, bumped, shares_full 0 n q (suc r) (omega arith)) in
      (q', r', step ∙ dealt, below, omega arith)
]
  where
    bumped : bump r (shares 0 n q r) ≡ shares 0 n q (suc r)
    bumped = rw (sub-zero r) at (bump-shares 0 n q r (omega arith))

div_unique : (q r n k : ℕ) → r < n → q * n + r ≡ k → (k / n ≡ q) × (k % n ≡ r)
div_unique q r n k h e = (
  rw (← e) (mul-add-div_right (omega arith) q r ∙ rw (div-eq_of_lt h) (add-zero q)),
  rw (← e) (rw (mul_comm q n) (mul-add-mod_self_left n q r ∙ mod-eq_of_lt h)),
)

get_elem?-shares :
    (i len q r j : ℕ)
    → j < len
    → get_elem? (shares i len q r) j ≡ some (if ltb (i + j) r then q + 1 else q)
get_elem?-shares i zero q r j h = absurd (omega arith)
get_elem?-shares i (suc len) q r zero h = ground arith
get_elem?-shares i (suc len) q r (suc j) h =
    let shift : i + suc j ≡ suc i + j = omega arith in
    rw shift (get_elem?-shares (suc i) len q r j (omega arith))

deal_all : (rows n : ℕ) → 0 < n → deal rows 0 n (replicate n 0) ≡ shares 0 n (rows / n) (rows % n)
deal_all rows n h =
    let (q, r, dealt, below, total) = deal-shares rows 0 0 0 n (zero-mod n) h in
    let (quotient, remainder) = div_unique q r n rows below (omega arith) in
    rw (shares-replicate 0 n, quotient, remainder) dealt

-- For at least one row and a rank below the number of servers the rows are shared out evenly: a
-- server gets the quotient, and one row more if its rank is below the remainder.
pub local_shard_lem :
    (first_dim rank_id server_num : ℕ)
    → 0 < first_dim
    → rank_id < server_num
    → local_shard (pos first_dim) (pos rank_id) (pos server_num)
      ≡ some (
          if ltb rank_id (first_dim % server_num)
          then first_dim / server_num + 1
          else first_dim / server_num)
unfolding local_shard all_rank_local_shard
local_shard_lem zero rank_id server_num h l = absurd (omega arith)
local_shard_lem (suc rows) rank_id zero h l = absurd (omega arith)
local_shard_lem (suc rows) rank_id (suc servers) h l = ground (
  arith,
  deal_all (suc rows) (suc servers) (omega arith),
  get_elem?-shares 0 (suc servers) (suc rows / suc servers) (suc rows % suc servers) rank_id l,
)

abbrev pub sum : List ℕ → ℕ
sum [] = 0
sum (d ∷ dims) = d + sum dims

pub sum-shares : (i len q r : ℕ) → sum (shares i len q r) ≡ len * q + min len (r - i)
sum-shares i zero q r = omega arith
sum-shares i (suc len) q r = ground (arith, sum-shares (suc i) len q r)

-- ===== src/CommUtil/Attempts.antt =====
-- How `Retry` of even-http/ps/core/comm_util.cc ends, and which ranks `ValidateRankId` lets pass.
use rpc.Common.{
  ℕ, zero, suc, ◌+◌, ◌≤◌, ◌<◌, ◌≡◌, refl, subst, ap, ◌∙◌, ◌⊎◌, inl, inr, Bool, true, false, ltb,
  nat_beq, ◌||◌, Bool-cases, arith,
}
use rpc.Common.Words.{u32_mod}
use rpc.Cluster.{server, worker, scheduler}
use rpc.CommUtil.{validate_rank_id, retry_from, retry}
use native.Mathlib.Decide.{ℕ_discrete}

-- At the first success, call `k`, or with every call from `first` up to `last` a failure.
abbrev pub Ends : (ℕ → Bool) → ℕ → ℕ → Bool × ℕ → Type 0
Ends func first last (result, calls) =
    ((k : ℕ) × (result ≡ true)
      × (calls ≡ suc k)
      × (k < last)
      × (func k ≡ true)
      × ((n : ℕ) → first ≤ n → n < k → func n ≡ false))
    ⊎ ((result ≡ false) × (calls ≡ last) × ((n : ℕ) → first ≤ n → n < last → func n ≡ false))

-- A failure of call `first` in front of what is known of the later ones.
failed_first :
    (func : ℕ → Bool) (first last : ℕ)
    → func first ≡ false
    → ((n : ℕ) → suc first ≤ n → n < last → func n ≡ false)
    → (n : ℕ) → first ≤ n
    → n < last
    → func n ≡ false
failed_first func first last failure later n l u = elim (ℕ_discrete n first) [
  | yes here ↦ ap func here ∙ failure
  | no past ↦ later n (omega arith) u
]

retry_from-Ends :
    (func : ℕ → Bool) (attempts first : ℕ)
    → Ends func first (first + attempts) (retry_from func first attempts)
unfolding retry_from
retry_from-Ends func zero first = inr (refl, omega arith, λ n l u. absurd (omega arith))
retry_from-Ends func (suc attempts) first = elim (Bool-cases (func first)) [
  | inl success ↦
      rw success (inl (first, refl, refl, omega arith, success, λ n l u. absurd (omega arith)))
  | inr failure ↦
      let shift : first + suc attempts ≡ suc first + attempts = omega arith in
      rw (failure, shift)
        (elim (retry_from-Ends func attempts (suc first)) [
          | inl (k, won, calls, few, success, before) ↦
              inl (k, won, calls, few, success, failed_first func first k failure before)
          | inr (lost, all, before) ↦
              inr (lost, all, failed_first func first (suc first + attempts) failure before)
        ])
]

-- Retrying calls its function again until it succeeds, or as often as it may: it is true exactly if a
-- call succeeds in time, and no call is made behind a success.
pub retry-Ends :
    (func : ℕ → Bool) (max_attempts : ℕ) → Ends func 0 max_attempts (retry func max_attempts)
unfolding retry
retry-Ends func max_attempts =
    subst (λ last. Ends func 0 last (retry_from func 0 max_attempts)) (omega arith)
      (retry_from-Ends func max_attempts 0)

-- For uint32_t numbers, a rank of a server passes exactly if it is below the number of servers, or if
-- there are no servers; likewise for the workers, and for a scheduler any rank passes.
pub validate_rank_id_lem :
    (server_num worker_num rank_id : ℕ)
    → server_num < u32_mod
    → worker_num < u32_mod
    → rank_id < u32_mod
    → (validate_rank_id server_num worker_num server rank_id
        ≡ (ltb rank_id server_num || nat_beq server_num 0))
      × (validate_rank_id server_num worker_num worker rank_id
          ≡ (ltb rank_id worker_num || nat_beq worker_num 0))
      × (validate_rank_id server_num worker_num scheduler rank_id ≡ true)
unfolding validate_rank_id
validate_rank_id_lem server_num worker_num rank_id s w r = (ground arith, ground arith, refl)

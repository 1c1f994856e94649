-- ===== src/ThreadPool/Phases.antt =====
-- How many workers of even-http/ps/core/thread_pool.cc are where.
use rpc.Common.{
  ℕ, zero, suc, ◌+◌, ◌<◌, ◌≡◌, refl, Bool, true, false, some, List, [], ◌∷◌, get_elem?, set,
  replicate, arith, Bool-cases, inl, inr,
}
use rpc.ThreadPool.{Phase, outside, waiting, woken, busy, ended, is_waiting, any_waiting}

abbrev pub is_woken : Phase → Bool
is_woken woken = true
is_woken waiting = false
is_woken outside = false
is_woken (busy task) = false
is_woken ended = false

abbrev pub is_ended : Phase → Bool
is_ended ended = true
is_ended waiting = false
is_ended outside = false
is_ended (busy task) = false
is_ended woken = false

abbrev pub one_if : Bool → ℕ
one_if true = 1
one_if false = 0

abbrev pub count : (Phase → Bool) → List Phase → ℕ
count f [] = 0
count f (w ∷ ws) = one_if (f w) + count f ws

pub count-set :
    (f : Phase → Bool) (ws : List Phase) (i : ℕ) (old new : Phase)
    → get_elem? ws i ≡ some old
    → count f (set ws i new) + one_if (f old) ≡ count f ws + one_if (f new)
count-set f [] i old new e = absurd (ground arith)
count-set f (w ∷ ws) zero old new e = ground arith
count-set f (w ∷ ws) (suc i) old new e = ground (arith, count-set f ws i old new e)

pub count-replicate :
    (f : Phase → Bool) (n : ℕ) (w : Phase) → f w ≡ false → count f (replicate n w) ≡ 0
count-replicate f zero w e = refl
count-replicate f (suc n) w e = ground (arith, count-replicate f n w e)

-- One that is counted can be found.
pub positive_count :
    (f : Phase → Bool) (ws : List Phase)
    → 0 < count f ws
    → (i : ℕ) × (w : Phase) × (get_elem? ws i ≡ some w) × (f w ≡ true)
positive_count f [] l = absurd (omega arith)
positive_count f (w ∷ ws) l = elim (Bool-cases (f w)) [
  | inl e ↦ (0, w, refl, e)
  | inr e ↦ let (i, v, g, h) = positive_count f ws (ground arith) in (suc i, v, g, h)
]

pub any_waiting-count : (ws : List Phase) → 0 < count is_waiting ws → any_waiting ws ≡ true
any_waiting-count [] l = absurd (omega arith)
any_waiting-count (w ∷ ws) l = elim (Bool-cases (is_waiting w)) [
  | inl e ↦ ground arith
  | inr e ↦ ground (arith, any_waiting-count ws (ground arith))
]

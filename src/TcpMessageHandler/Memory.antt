-- ===== src/TcpMessageHandler/Memory.antt =====
-- What the byte-wise copies of even-http/ps/core/tcp_message_handler.cc leave in a buffer.
use rpc.Common.{
  ℕ, zero, suc, ◌+◌, ◌*◌, ◌/◌, ◌≤◌, ◌<◌, ◌≡◌, refl, sym, ◌∙◌, List, [], ◌∷◌, ◌++◌, length, set,
  take, append-nil, append_assoc, arith, length-set, take_all, take-set,
}
use native.Mathlib.Nat.{add-zero}
use rpc.TcpMessageHandler.{read_le, write_at}
use rpc.TcpMessageHandler.Sender.{to_le}

-- The first number that does not fit `n` bytes.
abbrev pub limit : ℕ → ℕ
limit zero = 1
limit (suc n) = 256 * limit n

pub read_le-to_le : (n x : ℕ) → x < limit n → read_le (to_le n x) ≡ x
unfolding read_le to_le
read_le-to_le zero x h = omega arith
read_le-to_le (suc n) x h = omega (arith, read_le-to_le n (x / 256) (omega arith))

-- A block written from `i` on extends the prefix of length `i`.
take-write_at :
    (bs buffer : List ℕ) (i : ℕ)
    → i + length bs ≤ length buffer
    → take (i + length bs) (write_at buffer i bs) ≡ take i buffer ++ bs
unfolding write_at
take-write_at [] buffer i h = rw add-zero (sym (append-nil (take i buffer)))
take-write_at (b ∷ bs) buffer i h =
    let shift : i + suc (length bs) ≡ suc i + length bs = omega arith in
    rw (shift, take-write_at bs (set buffer i b) (suc i) (omega (arith, length-set buffer i b)))
      (rw (take-set buffer i b (omega arith)) (append_assoc (take i buffer) (b ∷ []) bs))

pub length-write_at : (bs buffer : List ℕ) (i : ℕ) → length (write_at buffer i bs) ≡ length buffer
unfolding write_at
length-write_at [] buffer i = refl
length-write_at (b ∷ bs) buffer i =
    length-write_at bs (set buffer i b) (suc i) ∙ length-set buffer i b

pub write_at_whole : (bs buffer : List ℕ) → length bs ≡ length buffer → write_at buffer 0 bs ≡ bs
write_at_whole bs buffer h =
    let all =
      take_all (length bs) (write_at buffer 0 bs) (omega (arith, length-write_at bs buffer 0)) in
    let zero_add : 0 + length bs ≡ length bs = omega arith in
    sym all ∙ (rw (← zero_add) (take-write_at bs buffer 0 (omega arith)))

pub write_at_snoc :
    (bs buffer : List ℕ) (i b : ℕ)
    → write_at buffer i (bs ++ b ∷ []) ≡ set (write_at buffer i bs) (i + length bs) b
unfolding write_at
write_at_snoc [] buffer i b = rw add-zero
write_at_snoc (c ∷ bs) buffer i b =
    let shift : i + suc (length bs) ≡ suc i + length bs = omega arith in
    rw shift (write_at_snoc bs (set buffer i c) (suc i) b)

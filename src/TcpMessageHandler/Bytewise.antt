-- ===== src/TcpMessageHandler/Bytewise.antt =====
-- `ReceiveMessage` of even-http/ps/core/tcp_message_handler.cc against a machine that takes one byte
-- at a time: its copying in blocks, and how the stream is cut into calls, cannot be seen.
mod Machine
use rpc.Common.{
  ℕ, zero, suc, ◌+◌, ◌-◌, ◌≤◌, ◌<◌, ◌≡◌, refl, sym, ap, ◌∙◌, ◌⊎◌, inl, inr, List, [], ◌∷◌, ◌++◌,
  length, set, take, drop, if◌then◌else◌, ltb, nat_beq, Bool-cases, arith, take_all, drop_all,
  length-take, length-drop, take-append-drop,
}
use native.Mathlib.Decide.{dec_le, dec_lt}
use rpc.TcpMessageHandler.{
  header_len, Handler, header_overflow, Outcome, ok, fault, ◌>>=◌, write_at, open_message,
  store_header, fill_header, deliver, copy_body, round, receive_loop, receive_message,
}
unfoldable pub use rpc.TcpMessageHandler.Bytewise.Machine.{header_byte, feed, feed_all}
pub use rpc.TcpMessageHandler.Bytewise.Machine.{
  bind_congr, feed_all-append, absorb, feed_all-part, feed_all-whole,
}

module _ {ℓ} {Meta : Type ℓ} (parse : List ℕ → Meta) where
  abbrev continue : Outcome (Handler Meta × List ℕ) → Outcome (Handler Meta)
  continue r = r >>= λ (h, rest). feed_all parse h rest

  fill_header-feed_all :
      (bs : List ℕ) (h : Handler Meta)
      → h.remaining_length ≡ 0
      → continue (fill_header h bs) ≡ feed_all parse h bs
  unfolding fill_header feed_all feed store_header
  fill_header-feed_all [] h e = refl
  fill_header-feed_all (b ∷ bs) h e = ground (arith, fill_header-feed_all bs (store_header b h) e)

  copy_body_idle :
      (h : Handler Meta) (input : List ℕ)
      → (h.remaining_length ≡ 0) ⊎ (length input ≡ 0)
      → copy_body parse h input ≡ ok (h, input)
  unfolding copy_body
  copy_body_idle h input e = ground arith

  copy_body_whole :
      (h : Handler Meta) (input : List ℕ)
      → 0 < h.remaining_length
      → h.remaining_length ≤ length input
      → copy_body parse h input ≡ (
          deliver parse (absorb parse h (take h.remaining_length input)) >>= λ d.
          ok (d, drop h.remaining_length input))
  unfolding copy_body
  copy_body_whole h input p l = ground (arith, length-take h.remaining_length input)

  copy_body_part :
      (h : Handler Meta) (input : List ℕ)
      → 0 < length input
      → length input < h.remaining_length
      → copy_body parse h input ≡ ok (absorb parse h input, [])
  unfolding copy_body
  copy_body_part h input p l =
      ground (arith, take_all (length input) input, drop_all (length input) input)

  -- Feeding a block is what copying it does.
  copy_body-feed_all :
      (h : Handler Meta) (input : List ℕ)
      → 0 < h.remaining_length
      → 0 < length input
      → continue (copy_body parse h input) ≡ feed_all parse h input
  unfolding feed_all
  copy_body-feed_all h input p q = elim (dec_le h.remaining_length (length input)) [
    | yes l ↦
        let c = take h.remaining_length input in
        let rest = drop h.remaining_length input in
        let whole : feed_all parse h c ≡ deliver parse (absorb parse h c) =
          feed_all-whole parse c h p (ground (arith, length-take h.remaining_length input)) in
        let split : feed_all parse h input ≡ (feed_all parse h c >>= λ h'. feed_all parse h' rest) =
          ap (feed_all parse h) (sym (take-append-drop h.remaining_length input))
          ∙ feed_all-append parse c rest h in
        rw (copy_body_whole h input p l) (
          bind_pair (deliver parse (absorb parse h c)) rest
          ∙ sym (split ∙ ap (λ r. r >>= λ h'. feed_all parse h' rest) whole))
    | no l ↦
        rw (copy_body_part h input q (omega arith))
          (feed_all_nil (absorb parse h input) ∙ sym (feed_all-part parse input h (omega arith)))
  ]
    where
      bind_pair :
          (r : Outcome (Handler Meta)) (rest : List ℕ)
          → continue (r >>= λ d. ok (d, rest)) ≡ (r >>= λ h'. feed_all parse h' rest)
      bind_pair (ok h') rest = refl
      bind_pair (fault e) rest = refl

      feed_all_nil : (k : Handler Meta) → feed_all parse k [] ≡ ok k
      feed_all_nil k = refl

  copy_body-continue :
      (h : Handler Meta) (input : List ℕ)
      → continue (copy_body parse h input) ≡ feed_all parse h input
  copy_body-continue h input = elim (dec_lt 0 h.remaining_length) [
    | yes p ↦ elim (dec_lt 0 (length input)) [
      | yes q ↦ copy_body-feed_all h input p q
      | no q ↦ rw (copy_body_idle h input (inr (omega arith)))
    ]
    | no p ↦ rw (copy_body_idle h input (inl (omega arith)))
  ]

  -- A round of the loop is worth the bytes that it takes,
  round-feed_all :
      (h : Handler Meta) (input : List ℕ) → continue (round parse h input) ≡ feed_all parse h input
  unfolding round
  round-feed_all h input = elim (Bool-cases (nat_beq h.remaining_length 0)) [
    | inl e ↦ rw e (after (fill_header h input) ∙ fill_header-feed_all input h (ground arith))
    | inr e ↦ rw e (copy_body-continue h input)
  ]
    where
      after :
          (r : Outcome (Handler Meta × List ℕ))
          → continue (r >>= λ (h', rest). copy_body parse h' rest) ≡ continue r
      after (ok (h', rest)) = copy_body-continue h' rest
      after (fault e) = refl

  fill_header_takes :
      (b : ℕ) (bs : List ℕ) (h h' : Handler Meta) (rest : List ℕ)
      → fill_header h (b ∷ bs) ≡ ok (h', rest)
      → length rest ≤ length bs
  unfolding fill_header
  fill_header_takes b [] h h' rest e = ground arith
  fill_header_takes b (c ∷ bs) h h' rest e =
      ground (arith, fill_header_takes c bs (store_header b h) h' rest)

  copy_body_takes :
      (h h' : Handler Meta) (input rest : List ℕ)
      → copy_body parse h input ≡ ok (h', rest)
      → (length rest ≤ length input)
        × (0 < h.remaining_length → 0 < length input → length rest < length input)
  unfolding copy_body
  copy_body_takes h h' input rest e =
      let after = length-drop h.remaining_length input in
      let all = length-drop (length input) input in
      (ground (arith, after, all), λ p q. ground (arith, after, all))

  -- and takes at least one.
  round_takes :
      (b : ℕ) (bs : List ℕ) (h h' : Handler Meta) (rest : List ℕ)
      → round parse h (b ∷ bs) ≡ ok (h', rest)
      → length rest ≤ length bs
  unfolding round
  round_takes b bs h h' rest e = elim (Bool-cases (nat_beq h.remaining_length 0)) [
    | inl zero_left ↦ via (fill_header h (b ∷ bs)) refl (ground arith)
    | inr more ↦
        let e' : copy_body parse h (b ∷ bs) ≡ ok (h', rest) = ground arith in
        omega (arith, (copy_body_takes h h' (b ∷ bs) rest e').1 (ground arith) (omega arith))
  ]
    where
      via :
          (r : Outcome (Handler Meta × List ℕ))
          → fill_header h (b ∷ bs) ≡ r
          → (r >>= λ (k, mid). copy_body parse k mid) ≡ ok (h', rest)
          → length rest ≤ length bs
      via (ok (k, mid)) filled copied =
          omega
            (arith, fill_header_takes b bs h k mid filled, (copy_body_takes k h' mid rest copied).0)
      via (fault f) filled copied = absurd (ground arith)

  receive_loop-feed_all :
      (fuel : ℕ) (h : Handler Meta) (input : List ℕ)
      → length input ≤ fuel
      → receive_loop parse fuel h input ≡ feed_all parse h input
  unfolding receive_loop feed_all
  receive_loop-feed_all zero h [] l = refl
  receive_loop-feed_all (suc fuel) h [] l = refl
  receive_loop-feed_all zero h (b ∷ bs) l = absurd (omega arith)
  receive_loop-feed_all (suc fuel) h (b ∷ bs) l =
      via (round parse h (b ∷ bs)) refl (receive_loop-feed_all fuel) ∙ round-feed_all h (b ∷ bs)
    where
      via :
          (r : Outcome (Handler Meta × List ℕ))
          → round parse h (b ∷ bs) ≡ r
          → ((k : Handler Meta) (rest : List ℕ)
              → length rest ≤ fuel
              → receive_loop parse fuel k rest ≡ feed_all parse k rest)
          → (r >>= λ (k, rest). receive_loop parse fuel k rest) ≡ continue r
      via (ok (k, rest)) e rec = rec k rest (omega (arith, round_takes b bs h k rest e))
      via (fault f) e rec = refl

  -- `ReceiveMessage` on a block of bytes does what the machine that takes one byte at a time does on
  -- its bytes: the same messages go to the callback in the same order, the same state is left, and
  -- the same faults occur.
  pub receive_message-feed_all :
      (h : Handler Meta) (input : List ℕ) → receive_message parse h input ≡ feed_all parse h input
  unfolding receive_message
  receive_message-feed_all h input = receive_loop-feed_all (length input) h input (omega arith)

  -- Two reads in a row do what one read of both blocks does.
  pub receive_message-append :
      (h : Handler Meta) (xs ys : List ℕ)
      → receive_message parse h (xs ++ ys)
        ≡ (receive_message parse h xs >>= λ h'. receive_message parse h' ys)
  receive_message-append h xs ys =
      rw (receive_message-feed_all h (xs ++ ys), receive_message-feed_all h xs)
        (simp receive_message-feed_all (feed_all-append parse xs ys h))

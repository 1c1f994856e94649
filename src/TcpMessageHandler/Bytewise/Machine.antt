-- ===== src/TcpMessageHandler/Bytewise/Machine.antt =====
-- The machine that takes one byte at a time, to which `ReceiveMessage` of
-- even-http/ps/core/tcp_message_handler.cc is compared.
use rpc.Common.{
  ℕ, suc, ◌+◌, ◌-◌, ◌<◌, ◌≡◌, refl, List, [], ◌∷◌, ◌++◌, length, set, if◌then◌else◌, ltb, nat_beq,
  arith,
}
use rpc.TcpMessageHandler.{
  header_len, Handler, header_overflow, Outcome, ok, fault, ◌>>=◌, write_at, open_message,
  store_header, deliver,
}

bind_ok {ℓ} : {A : Type ℓ} (r : Outcome A) → (r >>= λ a. ok a) ≡ r
bind_ok (ok a) = refl
bind_ok (fault e) = refl

pub bind_congr {ℓ κ} :
    {A : Type ℓ} {B : Type κ} (r : Outcome A) (f g : A → Outcome B)
    → ((a : A) → f a ≡ g a)
    → (r >>= f) ≡ (r >>= g)
bind_congr (ok a) f g same = same a
bind_congr (fault e) f g same = refl

module _ {ℓ} {Meta : Type ℓ} (parse : List ℕ → Meta) where
  unfoldable pub header_byte : Handler Meta → ℕ → Outcome (Handler Meta)
  header_byte h b =
      let h' = store_header b h in
      if ltb h.header_index header_len
      then ok (if nat_beq h'.header_index header_len then open_message h' else h')
      else fault header_overflow

  unfoldable pub body_byte : Handler Meta → ℕ → Outcome (Handler Meta)
  body_byte h b =
      let h' : Handler Meta = record h {
        remaining_length = h.remaining_length - 1;
        message_buffer = set h.message_buffer h.last_copy_len b;
        last_copy_len = suc h.last_copy_len;
      } in
      if nat_beq h'.remaining_length 0 then deliver parse h' else ok h'

  -- The machine: one byte.
  unfoldable pub feed : Handler Meta → ℕ → Outcome (Handler Meta)
  unfolding header_byte body_byte
  feed h b = if nat_beq h.remaining_length 0 then header_byte h b else body_byte h b

  unfoldable pub feed_all : Handler Meta → List ℕ → Outcome (Handler Meta)
  feed_all h [] = ok h
  feed_all h (b ∷ bs) = feed h b >>= λ h'. feed_all h' bs

  pub feed_all-append :
      (xs ys : List ℕ) (h : Handler Meta)
      → feed_all h (xs ++ ys) ≡ (feed_all h xs >>= λ h'. feed_all h' ys)
  unfolding feed_all
  feed_all-append [] ys h = refl
  feed_all-append (x ∷ xs) ys h = step (feed h x) (feed_all-append xs ys)
    where
      step :
          (r : Outcome (Handler Meta))
          → ((h' : Handler Meta) → feed_all h' (xs ++ ys) ≡ (feed_all h' xs >>= λ k. feed_all k ys))
          → (r >>= λ h'. feed_all h' (xs ++ ys))
            ≡ ((r >>= λ h'. feed_all h' xs) >>= λ h'. feed_all h' ys)
      step (ok h') rec = rec h'
      step (fault e) rec = refl

  -- The handler with a block of the body copied in.
  abbrev pub absorb : Handler Meta → List ℕ → Handler Meta
  absorb h c = record h {
    remaining_length = h.remaining_length - length c;
    message_buffer = write_at h.message_buffer h.last_copy_len c;
    last_copy_len = h.last_copy_len + length c;
  }

  pub feed_all-part :
      (c : List ℕ) (h : Handler Meta)
      → length c < h.remaining_length
      → feed_all h c ≡ ok (absorb h c)
  unfolding feed_all feed write_at
  feed_all-part [] h l = ground arith
  feed_all-part (b ∷ c) h l = ground (arith, feed_all-part c (absorb h (b ∷ [])))

  pub feed_all-whole :
      (c : List ℕ) (h : Handler Meta)
      → 0 < h.remaining_length
      → length c ≡ h.remaining_length
      → feed_all h c ≡ deliver parse (absorb h c)
  unfolding feed_all feed write_at
  feed_all-whole [] h p l = absurd (omega arith)
  feed_all-whole (b ∷ []) h p l = ground (arith, bind_ok (deliver parse (absorb h (b ∷ []))))
  feed_all-whole (b ∷ d ∷ c) h p l = ground (arith, feed_all-whole (d ∷ c) (absorb h (b ∷ [])))

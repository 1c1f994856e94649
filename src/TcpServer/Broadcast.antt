-- ===== src/TcpServer/Broadcast.antt =====
-- What `SendToAllClients` and `ReadCallback` of even-http/ps/core/tcp_server.cc do to
-- the connections.
use rpc.Common.{
  ℕ, zero, suc, ◌+◌, ◌≤◌, ◌≡◌, ◌≢◌, refl, sym, ap, ◌∙◌, Bool, true, false, Option, none, some, List,
  [], ◌∷◌, ◌++◌, length, take, drop, if◌then◌else◌, arith, nat_beq, nat_beq_iff, Bool-cases,
  Option-cases, inl, inr, nat_eq, take-append-drop, length-drop,
}
use rpc.Common.Dict.{Distinct, Dict, get, has, get-put, has-get}
use native.Mathlib.Nat.{zero-add}
use rpc.TcpMessageHandler.{Handler, ok, ◌>>=◌, receive_message}
use rpc.TcpMessageHandler.Bytewise.{
  receive_message-append, receive_message-feed_all, feed_all, bind_congr,
}
use rpc.TcpServer.{
  TcpConnection, TcpServer, message_chunk_length, update, write, send_to, send_to_all_clients,
  read_loop, read_callback,
}
use rpc.TcpServer.Table.{IsValid}

module _ {ℓ} {Meta : Type ℓ} (parse : List ℕ → Meta) where
  read_loop-receive_message :
      (fuel : ℕ) (input : List ℕ) (h : Handler Meta)
      → length input ≤ fuel
      → read_loop parse fuel input h ≡ receive_message parse h input
  unfolding read_loop feed_all
  read_loop-receive_message fuel [] h l = sym (receive_message-feed_all parse h [])
  read_loop-receive_message zero (b ∷ bs) h l = absurd (omega arith)
  read_loop-receive_message (suc fuel) (b ∷ bs) h l =
      let first = take message_chunk_length (b ∷ bs) in
      let rest = drop message_chunk_length (b ∷ bs) in
      bind_congr (receive_message parse h first) (read_loop parse fuel rest)
        (λ k. receive_message parse k rest)
        (λ k.
          read_loop-receive_message fuel rest k
            (omega (arith, length-drop message_chunk_length (b ∷ bs))))
      ∙ sym (receive_message-append parse h first rest)
      ∙ ap (receive_message parse h) (take-append-drop message_chunk_length (b ∷ bs))

  -- However much has come in, reading it 4096 bytes at a time is handling it whole.
  pub read_callback-receive_message :
      (input : List ℕ) (c : TcpConnection Meta)
      → read_callback parse input c ≡ (
          receive_message parse c.message_handler input >>= λ h.
          ok (record c { message_handler = h }))
  unfolding read_callback
  read_callback-receive_message input c =
      ap (λ r. r >>= λ h. ok (record c { message_handler = h }))
        (read_loop-receive_message (length input) input c.message_handler (omega arith))

-- How many entries of a table are the connection.
abbrev held : ℕ → Dict ℕ (Option ℕ) → ℕ
held p [] = 0
held p ((fd, none) ∷ m) = held p m
held p ((fd, some q) ∷ m) = (if nat_beq p q then 1 else 0) + held p m

abbrev NoNull : Dict ℕ (Option ℕ) → Type 0
NoNull [] = Unit
NoNull ((fd, none) ∷ m) = ⊥
NoNull ((fd, some p) ∷ m) = NoNull m

-- An entry of the rest of a table is one of the whole.
get_tail :
    (k fd : ℕ) (v e : Option ℕ) (m : Dict ℕ (Option ℕ))
    → has k m ≡ false
    → get fd m ≡ some e
    → get fd ((k, v) ∷ m) ≡ some e
unfolding get has
get_tail k fd v e m absent h = ground (arith, has-get k m, nat_beq_iff k fd)

held_none :
    (p : ℕ) (m : Dict ℕ (Option ℕ))
    → Distinct m
    → ((fd : ℕ) → get fd m ≢ some (some p))
    → held p m ≡ 0
unfolding get
held_none p [] d n = refl
held_none p ((fd, none) ∷ m) (a, d) n =
    held_none p m d (λ k h. n k (get_tail fd k none (some p) m a h))
held_none p ((fd, some q) ∷ m) (a, d) n = ground (
  arith,
  n fd,
  nat_beq_iff p q,
  held_none p m d (λ k h. n k (get_tail fd k (some q) (some p) m a h)),
)

held_one :
    (p fd : ℕ) (m : Dict ℕ (Option ℕ))
    → Distinct m
    → get fd m ≡ some (some p)
    → ((k : ℕ) → get k m ≡ some (some p) → k ≡ fd)
    → held p m ≡ 1
unfolding get
held_one p fd [] d h only = absurd (ground arith)
held_one p fd ((j, e) ∷ m) (a, d) h only = elim (Bool-cases (nat_beq j fd)) [
  | inl same ↦
      let rest = held_none p m d (λ k g.
        ground (arith, only k (get_tail j k e (some p) m a g), nat_beq_iff j fd, has-get j m)) in
      step e (ground arith) rest
  | inr other ↦
      let rest = held_one p fd m d (ground arith) (λ k g. only k (get_tail j k e (some p) m a g)) in
      skip e (λ g. ground (arith, only j, nat_beq_iff j fd)) rest
]
  where
    step : (e : Option ℕ) → e ≡ some p → held p m ≡ 0 → held p ((j, e) ∷ m) ≡ 1
    step none h r = absurd (ground arith)
    step (some q) h r = ground (arith, nat_beq_iff p q)

    skip : (e : Option ℕ) → e ≢ some p → held p m ≡ 1 → held p ((j, e) ∷ m) ≡ 1
    skip none h r = r
    skip (some q) h r = ground (arith, nat_beq_iff p q)

NoNull_lem : (m : Dict ℕ (Option ℕ)) → Distinct m → ((fd : ℕ) → get fd m ≢ some none) → NoNull m
unfolding get
NoNull_lem [] d n = tt
NoNull_lem ((fd, none) ∷ m) (a, d) n = absurd (ground (arith, n fd))
NoNull_lem ((fd, some p) ∷ m) (a, d) n =
    NoNull_lem m d (λ k h. n k (get_tail fd k (some p) none m a h))

abbrev times {ℓ} : {A : Type ℓ} → ℕ → (A → A) → A → A
times zero f a = a
times (suc n) f a = times n f (f a)

module _ {ℓ} {Meta : Type ℓ} (writes : List ℕ → Bool) (bytes : List ℕ) where
  -- A round of the loop, on each connection.
  get-update :
      (p q : ℕ) (c : TcpConnection Meta) (s : TcpServer Meta)
      → get p s.objects ≡ some c
      → get p (update q (write writes bytes) s).objects
        ≡ some (times (if nat_beq p q then 1 else 0) (write writes bytes) c)
  unfolding update
  get-update p q c s h = elim (Option-cases (get q s.objects)) [
    | inl n ↦ ground (arith, nat_beq_iff p q)
    | inr (d, g) ↦ ground (arith, get-put q p (write writes bytes d) s.objects, nat_beq_iff p q)
  ]

  times_add :
      (a b : ℕ) (c : TcpConnection Meta)
      → times b (write writes bytes) (times a (write writes bytes) c)
        ≡ times (a + b) (write writes bytes) c
  times_add zero b c = ap (λ n. times n (write writes bytes) c) (sym (zero-add b))
  times_add (suc a) b c =
      let sum : suc (a + b) ≡ suc a + b = omega arith in
      times_add a b (write writes bytes c) ∙ ap (λ n. times n (write writes bytes) c) sum

  send_to_lem :
      (m : Dict ℕ (Option ℕ)) (s : TcpServer Meta)
      → NoNull m
      → (t : TcpServer Meta) × (send_to writes bytes m s ≡ some t)
        × (t.connections ≡ s.connections)
        × ((p : ℕ) (c : TcpConnection Meta)
            → get p s.objects ≡ some c
            → get p t.objects ≡ some (times (held p m) (write writes bytes) c))
  unfolding send_to update
  send_to_lem [] s n = (s, refl, refl, λ p c h. h)
  send_to_lem ((fd, none) ∷ m) s n = absurd n
  send_to_lem ((fd, some q) ∷ m) s n =
      let (t, e, same, each) = send_to_lem m (update q (write writes bytes) s) n in
      (
        t,
        e,
        same ∙ ground arith,
        λ p c h. each p _ (get-update p q c s h) ∙ ap some (times_add _ (held p m) c),
      )

  -- An open connection stands in a valid table once, a closed one not at all.
  held_lem :
      (s : TcpServer Meta) (p : ℕ) (c : TcpConnection Meta)
      → IsValid s
      → get p s.objects ≡ some c
      → held p s.connections ≡ (if c.is_open then 1 else 0)
  held_lem s p c v h = elim (Bool-cases c.is_open) [
    | inl on ↦
        let once =
          held_one p c.fd s.connections v.distinct (v.listed p c h on)
            (λ k g. let (q, d, e, stored, _, named) = v.live k (some p) g in ground arith) in
        ground (arith, once)
    | inr off ↦
        let never =
          held_none p s.connections v.distinct
            (λ k g. let (q, d, e, stored, on, named) = v.live k (some p) g in ground arith) in
        ground (arith, never)
  ]

  times_test :
      (b : Bool) (c : TcpConnection Meta)
      → times (if b then 1 else 0) (write writes bytes) c ≡ (if b then write writes bytes c else c)
  times_test true c = refl
  times_test false c = refl

  -- With a valid table, `SendToAllClients` meets no null pointer, and if libevent takes the block, each
  -- open connection is sent it once and the closed ones nothing.
  pub send_to_all_clients_lem :
      (s : TcpServer Meta)
      → IsValid s
      → writes bytes ≡ true
      → (t : TcpServer Meta) × (send_to_all_clients writes bytes s ≡ some t)
        × (t.connections ≡ s.connections)
        × ((p : ℕ) (c : TcpConnection Meta)
            → get p s.objects ≡ some c
            → get p t.objects
              ≡ some (if c.is_open then record c { output = c.output ++ bytes } else c))
  unfolding send_to_all_clients write
  send_to_all_clients_lem s v takes =
      let real =
        NoNull_lem s.connections v.distinct
          (λ fd h. let (p, c, e, _, _, _) = v.live fd none h in ground arith) in
      let (t, e, same, each) = send_to_lem s.connections s real in
      (
        t,
        e,
        same,
        λ p c h.
            each p c h
            ∙ ap (λ n. some (times n (write writes bytes) c)) (held_lem s p c v h)
            ∙ ap some (times_test c.is_open c)
            ∙ rw takes refl,
      )

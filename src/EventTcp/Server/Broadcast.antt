-- ===== src/EventTcp/Server/Broadcast.antt =====
-- `msgserver::send_msg` to all connections in event-tcp/proto_server.cpp.
use rpc.Common.{
  ℕ, ◌≡◌, refl, ap, subst, ◌∙◌, Bool, true, false, none, some, List, [], ◌∷◌, ◌++◌, length, arith,
  if◌then◌else◌, nat_beq, nat_beq_iff, Bool-cases, Option-cases, inl, inr, nat_eq, append_assoc,
}
use rpc.Common.Dict.{Dict, Distinct, get, get-put, has-get}
use rpc.EventTcp.{frame, header_bytes}
use rpc.EventTcp.Server.{
  MsgConnection, MsgServer, update, send, send_frame, each_connection, send_msg,
}
use rpc.EventTcp.Server.Table.{IsValid, update-IsValid}

-- Every entry of a table is an object under its socket.
abbrev Named : Dict ℕ ℕ → MsgServer → Type 0
Named m s =
    (fd p : ℕ) → get fd m ≡ some p → (c : MsgConnection) × (get p s.objects ≡ some c) × (c.fd ≡ fd)

-- Whether a table has the connection `c` at `p`.
abbrev stands : Dict ℕ ℕ → ℕ → MsgConnection → Bool
stands m p c = elim (get c.fd m) [ none ↦ false | some q ↦ nat_beq q p ]

frame_parts : (bytes : List ℕ) → frame bytes ≡ header_bytes (length bytes) ++ bytes
unfolding frame
frame_parts bytes = refl

module _ (f : MsgConnection → MsgConnection × Bool) where
  abbrev Keeps : Type 0
  Keeps = (c : MsgConnection) → ((f c).0.fd ≡ c.fd) × ((f c).0.is_open ≡ c.is_open)

  get-update :
      (p k : ℕ) (d : MsgConnection) (s : MsgServer)
      → get p s.objects ≡ some d
      → get k (update p (λ c. (f c).0) s).objects
        ≡ (if nat_beq p k then some (f d).0 else get k s.objects)
  unfolding update
  get-update p k d s h = ground (arith, get-put p k (f d).0 s.objects)

  update-Named :
      (fd p : ℕ) (m : Dict ℕ ℕ) (s : MsgServer)
      → Keeps
      → Distinct ((fd, p) ∷ m)
      → Named ((fd, p) ∷ m) s
      → Named m (update p (λ c. (f c).0) s)
  unfolding get
  update-Named fd p m s keeps (absent, d) n k q h =
      let (c, there, named) = n k q (ground (arith, has-get fd m, nat_beq_iff fd k)) in
      let (b, here, own) = n fd p (ground (arith, nat_beq_iff fd fd)) in
      let other : nat_beq p q ≡ false = ground (arith, has-get fd m, nat_beq_iff p q) in
      (c, get-update p q b s here ∙ ground arith, named)

  update_table :
      (q : ℕ) (s : MsgServer)
      → ((update q (λ c. (f c).0) s).connections ≡ s.connections)
        × ((update q (λ c. (f c).0) s).next_pointer ≡ s.next_pointer)
  unfolding update
  update_table q s = ground arith

  each_connection_lem :
      (m : Dict ℕ ℕ) (s : MsgServer)
      → ((c : MsgConnection) → (f c).1 ≡ false)
      → Keeps
      → Distinct m
      → Named m s
      → (t : MsgServer) × (each_connection f m s ≡ (t, false))
        × (t.connections ≡ s.connections)
        × (t.next_pointer ≡ s.next_pointer)
        × ((p : ℕ) (c : MsgConnection)
            → get p s.objects ≡ some c
            → get p t.objects ≡ some (if stands m p c then (f c).0 else c))
  unfolding each_connection get
  each_connection_lem [] s takes keeps d n = (s, refl, refl, refl, λ p c h. h)
  each_connection_lem ((fd, q) ∷ m) s takes keeps (absent, d) n =
      let (b, here, own) = n fd q (ground (arith, nat_beq_iff fd fd)) in
      let s' = update q (λ c. (f c).0) s in
      let (t, e, same, next, each) =
        each_connection_lem m s' takes keeps d (update-Named fd q m s keeps (absent, d) n) in
      (
        t,
        ground (arith, takes b, here, e),
        same ∙ (update_table q s).0,
        next ∙ (update_table q s).1,
        λ p c h. elim (Bool-cases (nat_beq q p)) [
          | inl at ↦
              each p (f c).0 (get-update q p b s here ∙ ground (arith, nat_beq_iff q p))
              ∙ ground (arith, keeps c, has-get fd m, nat_beq_iff q p, nat_beq_iff fd c.fd)
          | inr off ↦
              each p c (get-update q p b s here ∙ ground arith)
              ∙ ground (arith, has-get fd m, nat_beq_iff fd c.fd)
        ],
      )

  each_connection-IsValid :
      (m : Dict ℕ ℕ) (s : MsgServer) → Keeps → IsValid s → IsValid (each_connection f m s).0
  unfolding each_connection
  each_connection-IsValid [] s keeps v = v
  each_connection-IsValid ((fd, q) ∷ m) s keeps v =
      let now = update-IsValid q (λ c. (f c).0) s keeps v in
      let later = each_connection-IsValid m (update q (λ c. (f c).0) s) keeps now in
      elim (Option-cases (get q s.objects)) [
        | inl n ↦ subst IsValid (ground arith) later
        | inr (c, h) ↦ elim (Bool-cases (f c).1) [
          | inl e ↦ subst IsValid (ground arith) now
          | inr e ↦ subst IsValid (ground arith) later
        ]
      ]

module _ (takes : List ℕ → Bool) (all : (b : List ℕ) → takes b ≡ true) where
  -- What `send_msg` writes to one connection.
  send_frame_lem :
      (bytes : List ℕ) (c : MsgConnection)
      → send_frame takes bytes c ≡ (record c { output = c.output ++ frame bytes }, false)
  unfolding send_frame send
  send_frame_lem bytes c = ground (
    arith,
    all (header_bytes (length bytes)),
    all bytes,
    append_assoc c.output (header_bytes (length bytes)) bytes,
    frame_parts bytes,
  )

  send_frame-Keeps : (bytes : List ℕ) → Keeps (send_frame takes bytes)
  send_frame-Keeps bytes c = ground (arith, send_frame_lem bytes c)

  -- One message to all: every connection of a valid table is written its frame.
  pub send_msg_lem :
      (bytes : List ℕ) (s : MsgServer)
      → IsValid s
      → (t : MsgServer) × (send_msg takes bytes s ≡ (t, false))
        × IsValid t
        × ((p : ℕ) (c : MsgConnection)
            → get p s.objects ≡ some c
            → c.is_open ≡ true
            → get p t.objects ≡ some (record c { output = c.output ++ frame bytes }))
  unfolding send_msg
  send_msg_lem bytes s v =
      let f = send_frame takes bytes in
      let keeps = send_frame-Keeps bytes in
      let (t, e, same, next, each) =
        each_connection_lem f s.connections s (λ c. ground (arith, send_frame_lem bytes c)) keeps
          v.distinct (λ fd p h. let (c, there, on, named) = v.live fd p h in (c, there, named)) in
      (
        t,
        e,
        subst IsValid (ap (λ r. r.0) e) (each_connection-IsValid f s.connections s keeps v),
        λ p c h on.
            each p c h ∙ ground (arith, v.listed p c h on, nat_beq_iff p p, send_frame_lem bytes c),
      )

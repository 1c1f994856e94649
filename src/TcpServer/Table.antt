-- ===== src/TcpServer/Table.antt =====
-- The table of connections of even-http/ps/core/tcp_server.cc over any sequence of libevent's
-- callbacks.
use rpc.Common.{
  ℕ, suc, ◌≤◌, ◌≡◌, ◌≢◌, refl, sym, subst, Bool, true, false, Option, none, some, [], arith,
  nat_beq, nat_beq_iff, Bool-cases, Option-cases, inl, inr, nat_eq,
}
use rpc.Common.Dict.{
  Distinct, Distinct-put, Distinct-erase, get, has, put, erase, get-put, get-put_self, get-erase,
  has-get,
}
use rpc.TcpMessageHandler.{Handler}
use rpc.TcpServer.{TcpConnection, TcpServer, init, add_connection, update, free}

module _ {ℓ} {Meta : Type ℓ} where
  -- The open connections are those that the table has, each under its own socket.
  pub record IsValid (s : TcpServer Meta) : Type ℓ where
    pub listed :
        (p : ℕ) (c : TcpConnection Meta)
        → get p s.objects ≡ some c
        → c.is_open ≡ true
        → get c.fd s.connections ≡ some (some p)
    pub live :
        (fd : ℕ) (e : Option ℕ)
        → get fd s.connections ≡ some e
        → (p : ℕ) × (c : TcpConnection Meta) × (e ≡ some p)
          × (get p s.objects ≡ some c)
          × (c.is_open ≡ true)
          × (c.fd ≡ fd)
    pub distinct : Distinct s.connections
    pub fresh : (p : ℕ) → s.next_pointer ≤ p → get p s.objects ≡ none

  pub init-IsValid : (b : Bool) → IsValid (init b)
  unfolding get
  init-IsValid b = record {
    listed = λ p c e o. ground arith;
    live = λ fd e h. ground arith;
    distinct = tt;
    fresh = λ p l. refl;
  }

  add_connection_absent :
      (fd p : ℕ) (s : TcpServer Meta)
      → has fd s.connections ≡ false
      → add_connection fd p s ≡ record s { connections = put fd (some p) s.connections }
  unfolding add_connection
  add_connection_absent fd p s e = ground arith

  -- Libevent hands out a socket only after the last connection on it is closed.
  abbrev pub IsFree : ℕ → TcpServer Meta → Type ℓ
  IsFree fd s =
      (p : ℕ) (c : TcpConnection Meta) → get p s.objects ≡ some c → c.is_open ≡ true → c.fd ≢ fd

  pub IsFree-has :
      (fd : ℕ) (s : TcpServer Meta) → IsValid s → IsFree fd s → has fd s.connections ≡ false
  IsFree-has fd s v free = elim (Option-cases (get fd s.connections)) [
    | inl n ↦ ground (arith, has-get fd s.connections)
    | inr (e, h) ↦
        let (p, c, _, stored, opened, same) = v.live fd e h in absurd (free p c stored opened same)
  ]

  abbrev pub created : ℕ → Handler Meta → TcpConnection Meta
  created fd h = record { fd = fd; is_open = true; output = []; message_handler = h }

  -- A new connection in the table.
  unfoldable pub accepted : ℕ → Handler Meta → TcpServer Meta → TcpServer Meta
  accepted fd h s = record s {
    next_pointer = suc s.next_pointer;
    objects = put s.next_pointer (created fd h) s.objects;
    connections = put fd (some s.next_pointer) s.connections;
  }

  pub accepted-IsValid :
      (fd : ℕ) (h : Handler Meta) (s : TcpServer Meta)
      → IsValid s
      → IsFree fd s
      → IsValid (accepted fd h s)
  unfolding accepted
  accepted-IsValid fd h s v f = record {
    listed = λ p c e o. ground (
      arith,
      get-put s.next_pointer p (created fd h) s.objects,
      get-put fd c.fd (some s.next_pointer) s.connections,
      v.listed p c,
      f p c,
      nat_beq_iff s.next_pointer p,
      nat_beq_iff fd c.fd,
    );
    live = λ k e g. elim (Bool-cases (nat_beq fd k)) [
      | inl same ↦ (
        s.next_pointer,
        created fd h,
        ground (arith, get-put fd k (some s.next_pointer) s.connections),
        get-put_self s.next_pointer (created fd h) s.objects,
        refl,
        ground (arith, nat_beq_iff fd k),
      )
      | inr other ↦
          let (p, c, points, stored, opened, named) =
            v.live k e (ground (arith, get-put fd k (some s.next_pointer) s.connections)) in
          (
            p,
            c,
            points,
            ground (
              arith,
              get-put s.next_pointer p (created fd h) s.objects,
              v.fresh p,
              nat_beq_iff s.next_pointer p,
            ),
            opened,
            named,
          )
    ];
    distinct = Distinct-put fd (some s.next_pointer) s.connections v.distinct;
    fresh = λ p l. ground (
      arith,
      get-put s.next_pointer p (created fd h) s.objects,
      v.fresh p,
      nat_beq_iff s.next_pointer p,
    );
  }

  pub update_absent :
      (p : ℕ) (f : TcpConnection Meta → TcpConnection Meta) (s : TcpServer Meta)
      → get p s.objects ≡ none
      → update p f s ≡ s
  unfolding update
  update_absent p f s e = ground arith

  pub update_present :
      (p : ℕ) (f : TcpConnection Meta → TcpConnection Meta) (s : TcpServer Meta)
      (c : TcpConnection Meta)
      → get p s.objects ≡ some c
      → update p f s ≡ record s { objects = put p (f c) s.objects }
  unfolding update
  update_present p f s c e = ground arith

  -- A connection's own affairs: neither its socket nor whether it is open changes.
  pub update-IsValid :
      (p : ℕ) (f : TcpConnection Meta → TcpConnection Meta) (s : TcpServer Meta)
      → ((c : TcpConnection Meta) → ((f c).fd ≡ c.fd) × ((f c).is_open ≡ c.is_open))
      → IsValid s
      → IsValid (update p f s)
  unfolding update
  update-IsValid p f s keeps v = elim (Option-cases (get p s.objects)) [
    | inl n ↦ subst IsValid (sym (update_absent p f s n)) v
    | inr (c, stored) ↦ subst IsValid (sym (update_present p f s c stored)) (record {
      listed = λ q d e o. ground (
        arith,
        get-put p q (f c) s.objects,
        nat_beq_iff p q,
        v.listed p c,
        v.listed q d,
        keeps c,
      );
      live = λ k e g.
          let (q, d, points, found, opened, named) = v.live k e g in
          elim (Bool-cases (nat_beq p q)) [
            | inl same ↦ (
              q,
              f c,
              points,
              ground (arith, get-put p q (f c) s.objects),
              ground (arith, keeps c, nat_beq_iff p q),
              ground (arith, keeps c, nat_beq_iff p q),
            )
            | inr other ↦ (q, d, points, ground (arith, get-put p q (f c) s.objects), opened, named)
          ];
      distinct = v.distinct;
      fresh = λ q l. ground (arith, get-put p q (f c) s.objects, v.fresh q, nat_beq_iff p q);
    })
  ]

  -- A connection that is closed and out of the table.
  pub closed_IsValid :
      (p : ℕ) (c : TcpConnection Meta) (s : TcpServer Meta)
      → IsValid s
      → get p s.objects ≡ some c
      → c.is_open ≡ true
      → IsValid (record s {
        objects = put p (record c { is_open = false }) s.objects;
        connections = erase c.fd s.connections;
      })
  closed_IsValid p c s v stored opened = record {
    listed = λ q d e o. ground (
      arith,
      get-put p q (record c { is_open = false }) s.objects,
      get-erase c.fd d.fd s.connections,
      v.listed q d,
      v.listed p c,
      nat_beq_iff p q,
      nat_beq_iff c.fd d.fd,
    );
    live = λ k e g.
        let kept : get k s.connections ≡ some e = ground (arith, get-erase c.fd k s.connections) in
        let (q, d, points, found, on, named) = v.live k e kept in
        (
          q,
          d,
          points,
          ground (
            arith,
            get-put p q (record c { is_open = false }) s.objects,
            get-erase c.fd k s.connections,
            v.listed p c,
            nat_beq_iff p q,
            nat_beq_iff c.fd k,
          ),
          on,
          named,
        );
    distinct = Distinct-erase c.fd s.connections v.distinct;
    fresh = λ q l.
        ground
          (arith, get-put p q (record c { is_open = false }) s.objects, v.fresh q, nat_beq_iff p q);
  }

-- ===== src/EventTcp/Server/Table.antt =====
-- The table of connections of event-tcp/proto_server.cpp under libevent's callbacks.
use rpc.Common.{
  ℕ, suc, ◌≤◌, ◌≡◌, ◌≢◌, refl, subst, Bool, true, false, none, some, arith, nat_beq, nat_beq_iff,
  Bool-cases, Option-cases, inl, inr, nat_eq,
}
use rpc.Common.Dict.{
  Distinct, Distinct-put, Distinct-erase, get, put, erase, get-put, get-erase, has-get,
}
use rpc.EventTcp.Server.{
  MsgConnection, MsgServer, init, add_connection, created, listener_callback, update, notify, free,
  event_callback,
}

-- The open connections are those that the table has, each under its own socket.
pub record IsValid (s : MsgServer) : Type 0 where
  pub listed :
      (p : ℕ) (c : MsgConnection)
      → get p s.objects ≡ some c
      → c.is_open ≡ true
      → get c.fd s.connections ≡ some p
  pub live :
      (fd p : ℕ)
      → get fd s.connections ≡ some p
      → (c : MsgConnection) × (get p s.objects ≡ some c) × (c.is_open ≡ true) × (c.fd ≡ fd)
  pub distinct : Distinct s.connections
  pub fresh : (p : ℕ) → s.next_pointer ≤ p → get p s.objects ≡ none

pub init-IsValid : (b d : Bool) → IsValid (init b d)
unfolding get
init-IsValid b d = record {
  listed = λ p c e o. ground arith;
  live = λ fd p h. ground arith;
  distinct = tt;
  fresh = λ p l. refl;
}

-- Libevent hands out a socket only after the last connection on it is closed.
abbrev pub IsFree : ℕ → MsgServer → Type 0
IsFree fd s = (p : ℕ) (c : MsgConnection) → get p s.objects ≡ some c → c.is_open ≡ true → c.fd ≢ fd

IsFree-get : (fd : ℕ) (s : MsgServer) → IsValid s → IsFree fd s → get fd s.connections ≡ none
IsFree-get fd s v free = elim (Option-cases (get fd s.connections)) [
  | inl n ↦ n
  | inr (p, h) ↦
      let (c, stored, opened, same) = v.live fd p h in absurd (free p c stored opened same)
]

accepted : ℕ → MsgServer → MsgServer
accepted fd s = record s {
  next_pointer = suc s.next_pointer;
  objects = put s.next_pointer (created fd) s.objects;
  connections = put fd s.next_pointer s.connections;
}

accepted-IsValid : (fd : ℕ) (s : MsgServer) → IsValid s → IsFree fd s → IsValid (accepted fd s)
unfolding accepted
accepted-IsValid fd s v f =
    let absent = IsFree-get fd s v f in
    record {
      listed = λ p c e o. ground (
        arith,
        v.listed p c,
        f p c,
        nat_beq_iff s.next_pointer p,
        nat_beq_iff fd c.fd,
        get-put s.next_pointer p (created fd) s.objects,
        get-put fd c.fd s.next_pointer s.connections,
      );
      live = λ k p h. elim (Bool-cases (nat_beq fd k)) [
        | inl same ↦ (
          created fd,
          ground (
            arith,
            get-put fd k s.next_pointer s.connections,
            get-put s.next_pointer p (created fd) s.objects,
            nat_beq_iff s.next_pointer p,
          ),
          refl,
          ground (arith, nat_beq_iff fd k),
        )
        | inr other ↦
            let old : get k s.connections ≡ some p =
              ground (arith, get-put fd k s.next_pointer s.connections) in
            let (c, stored, opened, named) = v.live k p old in
            (
              c,
              ground (
                arith,
                get-put s.next_pointer p (created fd) s.objects,
                v.fresh s.next_pointer,
                nat_beq_iff s.next_pointer p,
              ),
              opened,
              named,
            )
      ];
      distinct = Distinct-put fd s.next_pointer s.connections v.distinct;
      fresh = λ p l. ground (arith, v.fresh p, get-put s.next_pointer p (created fd) s.objects);
    }

pub listener_callback-IsValid :
    (fd : ℕ) (has_bufferevent creates : Bool) (s : MsgServer)
    → IsValid s
    → IsFree fd s
    → IsValid (listener_callback fd has_bufferevent creates s)
unfolding listener_callback add_connection accepted
listener_callback-IsValid fd true true s v f =
    let absent = IsFree-get fd s v f in
    subst IsValid (ground (arith, has-get fd s.connections)) (accepted-IsValid fd s v f)
listener_callback-IsValid fd true false s v f = v
listener_callback-IsValid fd false creates s v f = record {
  listed = v.listed;
  live = v.live;
  distinct = v.distinct;
  fresh = v.fresh;
}

-- A method that leaves the socket and its being open as they are.
pub update-IsValid :
    (p : ℕ) (f : MsgConnection → MsgConnection) (s : MsgServer)
    → ((c : MsgConnection) → ((f c).fd ≡ c.fd) × ((f c).is_open ≡ c.is_open))
    → IsValid s
    → IsValid (update p f s)
unfolding update
update-IsValid p f s keeps v = elim (Option-cases (get p s.objects)) [
  | inl n ↦ subst IsValid (ground arith) v
  | inr (d, h) ↦
      let t : MsgServer = record s { objects = put p (f d) s.objects } in
      let same : t ≡ update p f s = ground arith in
      let result : IsValid t = record {
        listed = λ k c e o. ground (
          arith,
          v.listed k c,
          v.listed p d,
          keeps d,
          nat_beq_iff p k,
          get-put p k (f d) s.objects,
        );
        live = λ fd k g.
            let (c, stored, opened, named) = v.live fd k g in
            elim (Bool-cases (nat_beq p k)) [
              | inl at ↦ (
                f d,
                ground (arith, get-put p k (f d) s.objects),
                ground (arith, keeps d, nat_beq_iff p k),
                ground (arith, keeps d, nat_beq_iff p k),
              )
              | inr other ↦ (c, ground (arith, get-put p k (f d) s.objects), opened, named)
            ];
        distinct = v.distinct;
        fresh = λ k l. ground (arith, v.fresh k, nat_beq_iff p k, get-put p k (f d) s.objects);
      } in
      subst IsValid same result
]

-- `eventCallback` on an open connection.
closed : ℕ → MsgConnection → MsgServer → MsgServer
closed p c s = record s {
  connections = erase c.fd s.connections;
  objects = put p (record c { is_open = false }) s.objects;
}

closed-IsValid :
    (p : ℕ) (c : MsgConnection) (s : MsgServer)
    → get p s.objects ≡ some c
    → c.is_open ≡ true
    → IsValid s
    → IsValid (closed p c s)
unfolding closed
closed-IsValid p c s there on v =
    let shut : MsgConnection = record c { is_open = false } in
    let at = v.listed p c there on in
    record {
      listed = λ k d e o. ground (
        arith,
        v.listed k d,
        at,
        nat_beq_iff p k,
        nat_beq_iff c.fd d.fd,
        get-put p k shut s.objects,
        get-erase c.fd d.fd s.connections,
      );
      live = λ fd k g.
          let old : (nat_beq c.fd fd ≡ false) × (get fd s.connections ≡ some k) =
            ground (arith, get-erase c.fd fd s.connections) in
          let (d, stored, opened, named) = v.live fd k old.1 in
          (
            d,
            ground (arith, nat_beq_iff p k, nat_beq_iff c.fd fd, get-put p k shut s.objects),
            opened,
            named,
          );
      distinct = Distinct-erase c.fd s.connections v.distinct;
      fresh = λ k l. ground (arith, v.fresh k, nat_beq_iff p k, get-put p k shut s.objects);
    }

-- Nothing but the table and the objects matters.
same_table :
    (s t : MsgServer)
    → IsValid s
    → t.next_pointer ≡ s.next_pointer
    → t.objects ≡ s.objects
    → t.connections ≡ s.connections
    → IsValid t
same_table s t v n o c = record {
  listed = λ p d e on. ground (arith, v.listed p d);
  live = rw (c, o) v.live;
  distinct = rw c v.distinct;
  fresh = rw (n, o) v.fresh;
}

pub event_callback-IsValid :
    (p : ℕ) (c : MsgConnection) (is_eof is_error : Bool) (s : MsgServer)
    → get p s.objects ≡ some c
    → c.is_open ≡ true
    → IsValid s
    → IsValid (event_callback p c is_eof is_error s)
unfolding event_callback notify update closed
event_callback-IsValid p c is_eof is_error s there on v = elim (Bool-cases (is_eof)) [
  | inl e ↦
      same_table (closed p c s) (event_callback p c is_eof is_error s)
        (closed-IsValid p c s there on v) (ground arith) (ground arith) (ground arith)
  | inr n ↦ elim (Bool-cases is_error) [
    | inl e ↦
        same_table (closed p c s) (event_callback p c is_eof is_error s)
          (closed-IsValid p c s there on v) (ground arith) (ground arith) (ground arith)
    | inr m ↦ subst IsValid (ground arith) v
  ]
]

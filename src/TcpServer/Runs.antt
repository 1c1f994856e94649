-- ===== src/TcpServer/Runs.antt =====
-- The callbacks of libevent on the server of even-http/ps/core/tcp_server.cc, in any order: what they
-- make of the table of connections.
use rpc.Common.{
  ℕ, ◌≡◌, refl, sym, ap, ◌∙◌, subst, Bool, true, false, Option, none, some, List, [], ◌∷◌, arith,
  Bool-cases, inl, inr, nat_eq,
}
use rpc.Common.Dict.{Dict, get, put, has, subscript}
use rpc.TcpMessageHandler.{ok}
use rpc.TcpMessageHandler.{init as new_handler}
use rpc.TcpServer.{
  TcpConnection, TcpServer, Accept, add_connection, get_connection_by_fd, remove_connection, update,
  init_connection, listener_callback, notify, event_callback, write, send_to, send_to_all_clients,
  read_callback,
}
use rpc.TcpServer.Table.{
  IsValid, IsFree, IsFree-has, accepted, accepted-IsValid, update-IsValid, update_present,
  closed_IsValid,
}

module _ {ℓ} {Meta : Type ℓ} where
  -- Nothing but the table and the objects matters.
  same_table :
      (s t : TcpServer Meta)
      → IsValid s
      → t.next_pointer ≡ s.next_pointer
      → t.objects ≡ s.objects
      → t.connections ≡ s.connections
      → IsValid t
  same_table s t v n o c = record {
    listed = λ p d e on. ground (arith, v.listed p d);
    live = rw (c, o) v.live;
    distinct = rw c v.distinct;
    fresh = rw (n, o) v.fresh;
  }

  pub notify-objects : (p : ℕ) (s : TcpServer Meta) → (notify p s).objects ≡ s.objects
  unfolding notify
  notify-objects p s = ground arith

  notify-IsValid : (p : ℕ) (s : TcpServer Meta) → IsValid s → IsValid (notify p s)
  unfolding notify
  notify-IsValid p s v = same_table s (notify p s) v (ground arith) (ground arith) (ground arith)

  listener_callback_lem :
      (a : Accept) (s : TcpServer Meta)
      → a.has_bufferevent ≡ true
      → a.sets_no_delay ≡ true
      → has a.fd s.connections ≡ false
      → (listener_callback a s).0
        ≡ init_connection s.next_pointer (accepted a.fd (new_handler false) s)
  unfolding listener_callback add_connection accepted
  listener_callback_lem a s b n absent = ground arith

  listener_callback-IsValid :
      (a : Accept) (s : TcpServer Meta)
      → IsValid s
      → IsFree a.fd s
      → IsValid (listener_callback a s).0
  unfolding listener_callback
  listener_callback-IsValid a s v f = elim (Bool-cases a.has_bufferevent) [
    | inl b ↦ elim (Bool-cases a.sets_no_delay) [
      | inl n ↦ subst IsValid (sym (listener_callback_lem a s b n (IsFree-has a.fd s v f))) (
          update-IsValid s.next_pointer _ (accepted a.fd (new_handler false) s) (λ c. (refl, refl))
            (accepted-IsValid a.fd (new_handler false) s v f))
      | inr n ↦ subst IsValid (ground arith) v
    ]
    | inr b ↦ same_table s (listener_callback a s).0 v (ground arith) (ground arith) (ground arith)
  ]

  event_callback-IsValid :
      (p : ℕ) (c : TcpConnection Meta) (is_eof is_error : Bool) (s : TcpServer Meta)
      → IsValid s
      → get p s.objects ≡ some c
      → c.is_open ≡ true
      → IsValid (event_callback p c is_eof is_error s)
  unfolding event_callback
  event_callback-IsValid p c true is_error s v stored on =
      let t = notify p s in
      let stored' : get p t.objects ≡ some c = rw (notify-objects p s) stored in
      subst IsValid (sym (update_present p _ (remove_connection c.fd t) c stored'))
        (closed_IsValid p c t (notify-IsValid p s v) stored' on)
  event_callback-IsValid p c false true s v stored on = notify-IsValid p _ (
      subst IsValid (sym (update_present p _ (remove_connection c.fd s) c stored))
        (closed_IsValid p c s v stored on))
  event_callback-IsValid p c false false s v stored on = v

  send_to-IsValid :
      (writes : List ℕ → Bool) (bytes : List ℕ) (m : Dict ℕ (Option ℕ)) (s t : TcpServer Meta)
      → send_to writes bytes m s ≡ some t
      → IsValid s
      → IsValid t
  unfolding send_to write
  send_to-IsValid writes bytes [] s t e v = subst IsValid (ground (arith, e)) v
  send_to-IsValid writes bytes ((fd, none) ∷ m) s t e v = absurd (ground arith)
  send_to-IsValid writes bytes ((fd, some p) ∷ m) s t e v =
      send_to-IsValid writes bytes m (update p (write writes bytes) s) t e
        (update-IsValid p (write writes bytes) s (λ c. ground arith) v)

module _ {ℓ} {Meta : Type ℓ} (parse : List ℕ → Meta) (writes : List ℕ → Bool) where
  -- What libevent and the users of the server call: a callback of the listener, which gets a socket
  -- that is free; a callback of a connection that is open; a message to all, or to one connection;
  -- `GetConnectionByFd` and `AddConnection` for a socket that is in the table. Not among them are
  -- calls from outside that put the table out of order by themselves: `GetConnectionByFd` for a socket
  -- that is not in it, which enters a null pointer, `AddConnection` for one, and `RemoveConnection`.
  pub data Step : TcpServer Meta → TcpServer Meta → Type ℓ where
    accepts : {s : TcpServer Meta} (a : Accept) → IsFree a.fd s → Step s (listener_callback a s).0
    happens :
        {s : TcpServer Meta} (p : ℕ) (c : TcpConnection Meta) (is_eof is_error : Bool)
        → get p s.objects ≡ some c
        → c.is_open ≡ true
        → Step s (event_callback p c is_eof is_error s)
    reads :
        {s : TcpServer Meta} (p : ℕ) (c d : TcpConnection Meta) (input : List ℕ)
        → get p s.objects ≡ some c
        → c.is_open ≡ true
        → read_callback parse input c ≡ ok d
        → Step s (record s { objects = put p d s.objects })
    sends :
        {s t : TcpServer Meta} (bytes : List ℕ)
        → send_to_all_clients writes bytes s ≡ some t
        → Step s t
    sends_to :
        {s : TcpServer Meta} (p : ℕ) (bytes : List ℕ) → Step s (update p (write writes bytes) s)
    finds :
        {s : TcpServer Meta} (fd : ℕ)
        → has fd s.connections ≡ true
        → Step s (get_connection_by_fd fd s).0
    adds_again :
        {s : TcpServer Meta} (fd p : ℕ)
        → has fd s.connections ≡ true
        → Step s (add_connection fd p s)

  pub data Run : TcpServer Meta → TcpServer Meta → Type ℓ where
    done : {s : TcpServer Meta} → Run s s
    next : {s t u : TcpServer Meta} → Step s t → Run t u → Run s u

  read_callback_keeps :
      (input : List ℕ) (c d : TcpConnection Meta)
      → read_callback parse input c ≡ ok d
      → record c { message_handler = d.message_handler } ≡ d
  unfolding read_callback
  read_callback_keeps input c d e = ground arith

  Step-IsValid : {s t : TcpServer Meta} → Step s t → IsValid s → IsValid t
  unfolding send_to_all_clients write get_connection_by_fd add_connection subscript
  Step-IsValid {s = s} (accepts a f) v = listener_callback-IsValid a s v f
  Step-IsValid {s = s} (happens p c is_eof is_error stored on) v =
      event_callback-IsValid p c is_eof is_error s v stored on
  Step-IsValid {s = s} (reads p c d input stored on e) v =
      subst IsValid
        (update_present p _ s c stored
          ∙ ap (λ k. record s { objects = put p k s.objects }) (read_callback_keeps input c d e))
        (update-IsValid p (λ k. record k { message_handler = d.message_handler }) s
          (λ k. (refl, refl)) v)
  Step-IsValid {s = s} {t = t} (sends bytes e) v =
      send_to-IsValid writes bytes s.connections s t e v
  Step-IsValid {s = s} (sends_to p bytes) v =
      update-IsValid p (write writes bytes) s (λ c. ground arith) v
  Step-IsValid {s = s} (finds fd there) v = subst IsValid (ground (arith, there)) v
  Step-IsValid {s = s} (adds_again fd p there) v = subst IsValid (ground (arith, there)) v

  -- From a valid table on, after any sequence of callbacks of the listener (with sockets that are free)
  -- and of open connections, of messages to all or to one connection, and of `GetConnectionByFd` and
  -- `AddConnection` for sockets that are in the table: the open connections are those in the table, each once
  -- and under its own socket.
  pub Run-IsValid : {s t : TcpServer Meta} → Run s t → IsValid s → IsValid t
  Run-IsValid done v = v
  Run-IsValid (next step rest) v = Run-IsValid rest (Step-IsValid step v)

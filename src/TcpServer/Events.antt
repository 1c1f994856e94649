-- ===== src/TcpServer/Events.antt =====
-- What `EventCallback` of even-http/ps/core/tcp_server.cc does to a connection, and what
-- `GetConnectionByFd` does to the table.
use rpc.Common.{
  ℕ, ◌+◌, ◌-◌, ◌≡◌, ◌≢◌, refl, Bool, true, false, ◌||◌, Option, none, some, List, [], ◌∷◌, ◌++◌,
  if◌then◌else◌, arith, nat_beq_iff, nat_eq,
}
use rpc.Common.Dict.{
  Distinct, Dict, get, has, erase, size, subscript, get_or, get-put_self, get-erase, has-get,
  has-put, get-subscript,
}
use rpc.TcpServer.{
  TcpConnection, TcpServer, get_connection_by_fd, add_connection, update, notify, event_callback,
  write, send_to, send_to_all_clients, connection_num,
}
use rpc.TcpServer.Table.{IsValid}

size-erase :
    (k : ℕ) (m : Dict ℕ (Option ℕ))
    → Distinct m
    → size m ≡ size (erase k m) + (if has k m then 1 else 0)
unfolding erase has
size-erase k [] d = refl
size-erase k ((j, e) ∷ m) (a, d) = ground (arith, size-erase k m d, nat_beq_iff j k)

send_to_null {ℓ} :
    {Meta : Type ℓ} (writes : List ℕ → Bool) (bytes : List ℕ) (fd : ℕ) (m : Dict ℕ (Option ℕ))
    (s : TcpServer Meta)
    → get fd m ≡ some none
    → send_to writes bytes m s ≡ none
unfolding get send_to
send_to_null writes bytes fd [] s h = absurd (ground arith)
send_to_null writes bytes fd ((k, none) ∷ m) s h = refl
send_to_null writes bytes fd ((k, some p) ∷ m) s h =
    send_to_null writes bytes fd m (update p (write writes bytes) s) (ground arith)

module _ {ℓ} {Meta : Type ℓ} where
  -- On an open connection of a valid table, an end of stream or an error closes the connection, takes
  -- its socket, and no other, out of the table, and calls the disconnection callback, if there is
  -- one, once: before the removal for an end of stream, after it for an error. Other events do
  -- nothing.
  pub event_callback_lem :
      (p : ℕ) (c : TcpConnection Meta) (is_eof is_error : Bool) (s : TcpServer Meta)
      → IsValid s
      → get p s.objects ≡ some c
      → c.is_open ≡ true
      → s.has_client_disconnection ≡ true
      → let t = event_callback p c is_eof is_error s in
        (is_eof ≡ false → is_error ≡ false → t ≡ s)
        × ((is_eof || is_error) ≡ true
            → (get p t.objects ≡ some (record c { is_open = false }))
              × (get c.fd t.connections ≡ none)
              × ((fd : ℕ) → fd ≢ c.fd → get fd t.connections ≡ get fd s.connections)
              × (t.disconnected
                  ≡ s.disconnected ++ (p, connection_num s - (if is_eof then 0 else 1)) ∷ []))
  unfolding event_callback notify
  event_callback_lem p c true is_error s v stored on calls = (
    λ a b. absurd (ground arith),
    λ _. (
      ground (arith, get-put_self p (record c { is_open = false }) s.objects),
      ground (arith, get-erase c.fd c.fd s.connections, nat_beq_iff c.fd c.fd),
      λ k o. ground (arith, get-erase c.fd k s.connections, nat_beq_iff c.fd k),
      ground arith,
    ),
  )
  event_callback_lem p c false true s v stored on calls = (
    λ a b. absurd (ground arith),
    λ _. (
      ground (arith, get-put_self p (record c { is_open = false }) s.objects),
      ground (arith, get-erase c.fd c.fd s.connections, nat_beq_iff c.fd c.fd),
      λ k o. ground (arith, get-erase c.fd k s.connections, nat_beq_iff c.fd k),
      ground (
        arith,
        size-erase c.fd s.connections v.distinct,
        has-get c.fd s.connections,
        v.listed p c stored on,
      ),
    ),
  )
  event_callback_lem p c false false s v stored on calls = (λ a b. refl, λ e. absurd (ground arith))

  -- Asking for a socket that the table does not have leaves a null pointer in it: the connection that
  -- is accepted on the socket next is not entered, and sending to all clients comes upon the null
  -- pointer.
  pub get_connection_by_fd_null :
      (writes : List ℕ → Bool) (bytes : List ℕ) (fd p : ℕ) (s : TcpServer Meta)
      → get fd s.connections ≡ none
      → let (asked, answer) = get_connection_by_fd fd s in
        (answer ≡ none)
        × (add_connection fd p asked ≡ asked)
        × (send_to_all_clients writes bytes asked ≡ none)
  unfolding get_connection_by_fd add_connection send_to_all_clients subscript get_or
  get_connection_by_fd_null writes bytes fd p s n = (
    ground arith,
    ground (arith, has-get fd s.connections, has-put fd fd none s.connections, nat_beq_iff fd fd),
    send_to_null writes bytes fd (subscript fd none s.connections) _ asked,
  )
    where
      asked : get fd (subscript fd none s.connections) ≡ some none
      asked = ground (arith, get-subscript fd fd none s.connections, nat_beq_iff fd fd)

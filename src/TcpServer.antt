-- ===== src/TcpServer.antt =====
-- `TcpServer` and `TcpConnection` of even-http/ps/core/tcp_server.h and tcp_server.cc: the table of
-- connections and libevent's callbacks on it. A connection object is known by a number, which stands
-- for its address; `connections` maps a socket to such a number, or to the null pointer. A connection
-- is open until its bufferevent is freed. `disconnected` logs the calls of the disconnection
-- callback: the connection, and how many the table then holds. `writes` says whether libevent takes a
-- block. The user's own `client_accept_` is not modelled, nor are locks, timers and set-up.
pub mod Table
pub mod Runs
pub mod Broadcast
pub mod Events
use rpc.Common.{
  ℕ, zero, suc, ◌+◌, Bool, true, false, not, ◌||◌, Option, none, some, List, [], ◌∷◌, ◌++◌, length,
  take, drop, if◌then◌else◌, nat_eq,
}
use rpc.Common.Dict.{Dict, get, has, put, erase, subscript, get_or, size}
use rpc.TcpMessageHandler.{Handler, Outcome, ok, ◌>>=◌, receive_message}
use rpc.TcpMessageHandler.{init as new_handler}

pub record TcpConnection {ℓ} (Meta : Type ℓ) : Type ℓ where
  pub fd : ℕ
  pub is_open : Bool
  pub output : List ℕ
  pub message_handler : Handler Meta

pub record TcpServer {ℓ} (Meta : Type ℓ) : Type ℓ where
  pub next_pointer : ℕ
  pub objects : Dict ℕ (TcpConnection Meta)
  pub connections : Dict ℕ (Option ℕ)
  pub has_client_disconnection : Bool
  pub disconnected : List (ℕ × ℕ)
  pub base_broken : Bool

-- An accepted socket, and whether what the listener asks of libevent and the system succeeds.
pub record Accept : Type 0 where
  pub fd : ℕ
  pub has_bufferevent : Bool
  pub breaks_loop : Bool
  pub sets_no_delay : Bool
  pub enables : Bool

abbrev pub message_chunk_length : ℕ
message_chunk_length = 4096

module _ {ℓ} {Meta : Type ℓ} where
  abbrev pub init : Bool → TcpServer Meta
  init has_client_disconnection = record {
    next_pointer = 0;
    objects = [];
    connections = [];
    has_client_disconnection = has_client_disconnection;
    disconnected = [];
    base_broken = false;
  }

  -- `insert` of a map leaves a socket that is there as it is.
  unfoldable pub add_connection : ℕ → ℕ → TcpServer Meta → TcpServer Meta
  add_connection fd pointer s =
      if has fd s.connections
      then s
      else record s { connections = put fd (some pointer) s.connections }

  abbrev pub remove_connection : ℕ → TcpServer Meta → TcpServer Meta
  remove_connection fd s = record s { connections = erase fd s.connections }

  -- `connections_[fd]`, which gives a socket that is not there the null pointer.
  unfoldable pub get_connection_by_fd : ℕ → TcpServer Meta → TcpServer Meta × Option ℕ
  unfolding get_or
  get_connection_by_fd fd s =
      (record s { connections = subscript fd none s.connections }, get_or fd none s.connections)

  abbrev pub connection_num : TcpServer Meta → ℕ
  connection_num s = size s.connections

  -- `make_shared<TcpConnection>`.
  abbrev pub on_create_connection : ℕ → TcpServer Meta → TcpServer Meta × ℕ
  on_create_connection fd s = (
    record s {
      next_pointer = suc s.next_pointer;
      objects =
          put s.next_pointer
            (record { fd = fd; is_open = true; output = []; message_handler = new_handler false })
            s.objects;
    },
    s.next_pointer,
  )

  -- What a method does to its connection.
  unfoldable pub update :
      ℕ → (TcpConnection Meta → TcpConnection Meta) → TcpServer Meta → TcpServer Meta
  unfolding get put
  update pointer f s = elim (get pointer s.objects) [
    | none ↦ s
    | some c ↦ record s { objects = put pointer (f c) s.objects }
  ]

  abbrev pub init_connection : ℕ → TcpServer Meta → TcpServer Meta
  init_connection pointer s =
      update pointer
        (λ c. record c { message_handler = record c.message_handler { has_callback = true } }) s

  -- The server afterwards, and whether an exception leaves the callback. When TCP_NODELAY cannot be
  -- set, the new object is destroyed on the way out.
  unfoldable pub listener_callback : Accept → TcpServer Meta → TcpServer Meta × Bool
  unfolding add_connection update
  listener_callback a s =
      let (created, pointer) = on_create_connection a.fd s in
      if a.has_bufferevent
      then if a.sets_no_delay
        then (init_connection pointer (add_connection a.fd pointer created), not a.enables)
        else (s, true)
      else (record s { base_broken = s.base_broken || a.breaks_loop }, not a.breaks_loop)

  unfoldable pub notify : ℕ → TcpServer Meta → TcpServer Meta
  notify pointer s =
      if s.has_client_disconnection
      then record s { disconnected = s.disconnected ++ (pointer, connection_num s) ∷ [] }
      else s

  abbrev pub free : ℕ → TcpServer Meta → TcpServer Meta
  free pointer s = update pointer (λ c. record c { is_open = false }) s

  -- `EventCallback` on the connection `c` at `pointer`: the end of the stream is told before the
  -- connection leaves the table, an error after.
  unfoldable pub event_callback :
      ℕ → TcpConnection Meta → Bool → Bool → TcpServer Meta → TcpServer Meta
  unfolding notify update
  event_callback pointer c is_eof is_error s =
      if is_eof
      then free pointer (remove_connection c.fd (notify pointer s))
      else if is_error
      then notify pointer (free pointer (remove_connection c.fd s))
      else s

  module _ (writes : List ℕ → Bool) where
    -- `SendMessage(buffer, num)` of a connection.
    unfoldable pub write : List ℕ → TcpConnection Meta → TcpConnection Meta
    write bytes c = if writes bytes then record c { output = c.output ++ bytes } else c

    -- The loop of `SendToAllClients`; none if it comes to a null pointer.
    unfoldable pub send_to : List ℕ → Dict ℕ (Option ℕ) → TcpServer Meta → Option (TcpServer Meta)
    unfolding update write
    send_to bytes [] s = some s
    send_to bytes ((fd, none) ∷ rest) s = none
    send_to bytes ((fd, some pointer) ∷ rest) s =
        send_to bytes rest (update pointer (write bytes) s)

    unfoldable pub send_to_all_clients : List ℕ → TcpServer Meta → Option (TcpServer Meta)
    unfolding send_to
    send_to_all_clients bytes s = send_to bytes s.connections s

module _ {ℓ} {Meta : Type ℓ} (parse : List ℕ → Meta) where
  -- The loop of `ReadCallback` on what has come in. Each round takes a byte at least.
  unfoldable pub read_loop : ℕ → List ℕ → Handler Meta → Outcome (Handler Meta)
  read_loop fuel [] h = ok h
  read_loop zero (b ∷ bs) h = ok h
  read_loop (suc fuel) (b ∷ bs) h =
      receive_message parse h (take message_chunk_length (b ∷ bs)) >>= λ h'.
      read_loop fuel (drop message_chunk_length (b ∷ bs)) h'

  unfoldable pub read_callback : List ℕ → TcpConnection Meta → Outcome (TcpConnection Meta)
  unfolding read_loop
  read_callback input c = read_loop (length input) input c.message_handler >>= λ h.
      ok (record c { message_handler = h })

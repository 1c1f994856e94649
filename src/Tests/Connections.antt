-- ===== src/Tests/Connections.antt =====
-- Witnesses and tests for even-http/ps/core/tcp_server.cc and tcp_client.cc beside it.
use rpc.Common.{
  ℕ, ◌≡◌, refl, Bool, true, false, some, List, [], ◌∷◌, ◌++◌, if◌then◌else◌, arith, nat_eq,
}
use rpc.Common.Dict.{subscript, get, put, has}
use rpc.TcpMessageHandler.{init as new_handler}
use rpc.TcpServer.{
  get_connection_by_fd, TcpConnection, TcpServer, Accept, init, listener_callback, event_callback,
  add_connection, send_to_all_clients, update,
}
use rpc.TcpServer.Table.{IsValid, IsFree, init-IsValid}
use rpc.TcpServer.Runs.{finds, Run, done, next, accepts, happens, Run-IsValid}
use rpc.TcpServer.Broadcast.{send_to_all_clients_lem}

abbrev as_bytes : List ℕ → List ℕ
as_bytes bs = bs

abbrev takes_all : List ℕ → Bool
takes_all bs = true

abbrev accept : ℕ → Accept
accept fd = record {
  fd = fd;
  has_bufferevent = true;
  breaks_loop = true;
  sets_no_delay = true;
  enables = true;
}

abbrev nobody : TcpServer (List ℕ)
nobody = init true

abbrev one : TcpServer (List ℕ)
one = (listener_callback (accept 5) nobody).0

abbrev two : TcpServer (List ℕ)
two = (listener_callback (accept 6) one).0

abbrev fresh : TcpConnection (List ℕ)
fresh = record { fd = 5; is_open = true; output = []; message_handler = new_handler true }

none_open : IsFree 5 nobody
unfolding get
none_open p c e o = absurd (ground arith)

five_listed : get 0 one.objects ≡ some fresh
unfolding listener_callback update add_connection get put has
five_listed = refl

one_calls : one.has_client_disconnection ≡ true
unfolding listener_callback update add_connection has
one_calls = refl

one-Run : Run as_bytes takes_all nobody one
one-Run = next (accepts (accept 5) none_open) done

Run-IsValid_example : IsValid (event_callback 0 fresh true false one)
unfolding has get_connection_by_fd listener_callback subscript
Run-IsValid_example =
    Run-IsValid as_bytes takes_all
      (next (accepts (accept 5) none_open)
        (next (finds 5 refl) (next (happens 0 fresh true false five_listed refl) done)))
      (init-IsValid true)

one-IsValid : IsValid one
one-IsValid = Run-IsValid as_bytes takes_all one-Run (init-IsValid true)

send_to_all_clients_lem_example :
    (t : TcpServer (List ℕ)) × (send_to_all_clients takes_all (7 ∷ []) one ≡ some t)
    × (t.connections ≡ one.connections)
    × ((p : ℕ) (c : TcpConnection (List ℕ))
        → get p one.objects ≡ some c
        → get p t.objects
          ≡ some (if c.is_open then record c { output = c.output ++ 7 ∷ [] } else c))
send_to_all_clients_lem_example = send_to_all_clients_lem takes_all (7 ∷ []) one one-IsValid refl

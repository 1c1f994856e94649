-- ===== src/Tests/EventServer.antt =====
-- Witnesses and tests for event-tcp/proto_server.cpp.
use rpc.Common.{
  ℕ, ◌≡◌, refl, Bool, true, false, some, List, [], ◌∷◌, take, drop, arith, nat_beq, nat_eq, subst,
  Bool-cases, inl, inr,
}
use rpc.Common.Dict.{get, has, put}
use rpc.EventTcp.{message, frame, goes_on}
use rpc.EventTcp.{init as new_parser}
use rpc.EventTcp.RoundTrip.{stream, AllFit, IsIdle, init-IsIdle, idle_stops}
use rpc.EventTcp.Client.{MsgClient}
use rpc.EventTcp.Client.{init as new_client, received as client_received}
use rpc.EventTcp.Client.Messages
use rpc.EventTcp.Server.{
  MsgConnection, MsgServer, init, created, listener_callback, event_callback, disconnected,
}
use rpc.EventTcp.Server.Reads.{IsReady}
use rpc.EventTcp.Server.Streams.{read_all, received_of, AllReady, server_read_all-stream}
use rpc.EventTcp.Server.Table.{IsValid, init-IsValid, listener_callback-IsValid}
use rpc.EventTcp.Server.Delivery.{send_msgs, send_msgs_reach}

abbrev two_messages : List (List ℕ)
two_messages = (7 ∷ 8 ∷ []) ∷ (9 ∷ []) ∷ []

abbrev wire : List ℕ
wire = stream two_messages

two_messages-AllFit : AllFit two_messages
two_messages-AllFit = (ground arith, (ground arith, tt))

-- Two clients on sockets 5 and 6.
abbrev two_clients : MsgServer
two_clients = record (init true true) {
  next_pointer = 2;
  objects = (0, created 5) ∷ (1, created 6) ∷ [];
  connections = (5, 0) ∷ (6, 1) ∷ [];
}

two_clients_accepted :
    listener_callback 6 true true (listener_callback 5 true true (init true true)) ≡ two_clients
unfolding listener_callback has put
two_clients_accepted = refl

created-IsReady : (fd : ℕ) → IsReady (created fd)
unfolding goes_on
created-IsReady fd = record { waits = idle_stops (new_parser true) refl refl; quiet = refl }

two_clients-AllReady : AllReady two_clients
unfolding get
two_clients-AllReady p c h = elim (Bool-cases (nat_beq 0 p)) [
  | inl e ↦ subst IsReady (ground arith) (created-IsReady 5)
  | inr n ↦ elim (Bool-cases (nat_beq 1 p)) [
    | inl e ↦ subst IsReady (ground arith) (created-IsReady 6)
    | inr m ↦ absurd (ground arith)
  ]
]

abbrev mixed_reads : List (ℕ × List ℕ)
mixed_reads = (0, take 5 wire) ∷ (1, 1 ∷ []) ∷ (0, drop 5 wire) ∷ []

server_read_all-stream_example :
    (t : MsgServer) × (read_all mixed_reads two_clients ≡ some t)
    × (received_of 0 t.calls ≡ message (7 ∷ 8 ∷ []) ∷ message (9 ∷ []) ∷ [])
    × ((d : MsgConnection) × (get 0 t.objects ≡ some d) × IsIdle d.parser)
unfolding get frame
server_read_all-stream_example =
    server_read_all-stream mixed_reads two_clients 0 (created 5) two_messages refl
      two_clients-AllReady ((created 5, refl), ((created 6, refl), ((created 5, refl), tt))) refl
      (init-IsIdle true) refl refl two_messages-AllFit

one_client-IsValid : IsValid (listener_callback 5 true true (init true true))
unfolding get
one_client-IsValid =
    listener_callback-IsValid 5 true true (init true true) (init-IsValid true true)
      (λ p c h on. absurd (ground arith))

abbrev takes : List ℕ → Bool
takes b = true

send_msgs_reach_example :
    (t : MsgServer) × (send_msgs takes
        (λ b. refl)
        two_messages
        (listener_callback 5 true true (init true true))
      ≡ (t, false))
    × IsValid t
    × (get 0 t.objects ≡ some (record (created 5) { output = wire }))
    × ((d : MsgClient) × (Messages.read_all (new_client []) (take 5 wire ∷ drop 5 wire ∷ [])
          ≡ some d)
        × IsIdle d.parser
        × (d.calls
            ≡ client_received (message (7 ∷ 8 ∷ [])) ∷ client_received (message (9 ∷ [])) ∷ []))
unfolding get listener_callback frame has put
send_msgs_reach_example =
    send_msgs_reach takes (λ b. refl) two_messages (take 5 wire ∷ drop 5 wire ∷ [])
      (listener_callback 5 true true (init true true)) 0 (created 5) (new_client [])
      one_client-IsValid refl refl two_messages-AllFit (init-IsIdle true) refl refl refl

-- The end of a stream is told while the connection is still in the table, and it leaves it.
hang_up : (event_callback 0 (created 5) true false two_clients).calls ≡ disconnected 0 ∷ []
unfolding event_callback get
hang_up = refl

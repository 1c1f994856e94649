-- ===== src/Tests/Packets.antt =====
-- Witnesses and tests for libevent-example/message.cpp.
use rpc.Common.{
  ℕ, ◌<◌, ◌≡◌, refl, true, some, List, [], ◌∷◌, ◌++◌, length, replicate, take, drop, arith, nat_eq,
  nat_beq, Bool-cases, inl, inr,
}
use rpc.Common.Dict.{get, put}
use rpc.Common.Words.{negsuc}
use rpc.Relay.{
  Relay, init, greeting, to_le, header_bytes, listener_cb, get_client_id, ok, overflow, dangling,
  conn_readcb, conn_eventcb, read_round, read_header, read_le, pass_on,
}
use rpc.Relay.Packets.{Packet, wire, stream}
use rpc.Relay.Routing.{AllOpen, Routed}
use rpc.Relay.Reads.{relay_all, relay_all-stream}
use rpc.Relay.Decimal.{inttostr, read_int, read_int-inttostr}

-- Clients 1 and 2 on the bufferevents 10 and 20.
abbrev two_clients : Relay
two_clients = record init {
  client_map = (1, 10) ∷ (2, 20) ∷ [];
  connect_number = 2;
  peers =
      (10, record { is_open = true; output = [] })
      ∷ (20, record { is_open = true; output = [] })
      ∷ [];
}

two_clients-AllOpen : AllOpen two_clients
unfolding get
two_clients-AllOpen id bev h = elim (Bool-cases (nat_beq 1 id)) [
  | inl e ↦ (record { is_open = true; output = [] }, ground arith, refl)
  | inr n ↦ elim (Bool-cases (nat_beq 2 id)) [
    | inl e ↦ (record { is_open = true; output = [] }, ground arith, refl)
    | inr m ↦ absurd (ground arith)
  ]
]

-- A packet of 256 bytes that gives a wrong source, and a short one.
abbrev two_packets : List Packet
two_packets =
    record { target = 2; claimed_source = 9; bytes = replicate 244 7 }
    ∷ record { target = 2; claimed_source = 1; bytes = 8 ∷ [] }
    ∷ []

abbrev two_reads : List (List ℕ)
two_reads = take 100 (stream two_packets) ∷ drop 100 (stream two_packets) ∷ []

relay_all-stream_example :
    (done : List Packet) × (left : List Packet) × (t : Relay) × (two_packets ≡ done ++ left)
    × (relay_all 10 [] two_reads two_clients ≡ ok (stream left) t)
    × Routed (get_client_id 10 two_clients.client_map) done two_clients t
    × (length (stream left) < 256)
unfolding wire header_bytes
relay_all-stream_example =
    relay_all-stream 10 two_reads two_packets two_clients
      (
        ((omega arith), (omega arith), (omega arith)),
        (((omega arith), (omega arith), (omega arith)), tt),
      )
      refl two_clients-AllOpen

read_int-inttostr_example :
    (text : List ℕ) × (inttostr (negsuc 41) ≡ some text) × (read_int text ≡ negsuc 41)
read_int-inttostr_example = read_int-inttostr (negsuc 41) (ground arith)

minus_forty_two : inttostr (negsuc 41) ≡ some (45 ∷ 52 ∷ 50 ∷ [])
unfolding inttostr
minus_forty_two = refl

-- A packet that says it has 245 bytes.
too_long :
    conn_readcb 10 (to_le 2 ++ (to_le 0 ++ (to_le 245 ++ replicate 245 7))) two_clients ≡ overflow
unfolding conn_readcb read_round read_header read_le to_le get_client_id
too_long = refl

-- A packet for a client that has gone.
gone :
    conn_readcb 10
      (wire 1 (record { target = 2; claimed_source = 1; bytes = replicate 244 7 }))
      (conn_eventcb 20 two_clients)
    ≡ dangling
unfolding conn_readcb conn_eventcb read_round read_header read_le wire header_bytes pass_on get put
gone = refl

-- A client is told its id.
greeted :
    listener_cb 10 init
    ≡ some (record init {
      client_map = (1, 10) ∷ [];
      connect_number = 1;
      peers =
          (10, record { is_open = true; output = to_le 1 ++ (to_le 0 ++ (to_le 9 ++ greeting)) })
          ∷ [];
    })
unfolding listener_cb header_bytes get put to_le
greeted = refl

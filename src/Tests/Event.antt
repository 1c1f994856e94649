-- ===== src/Tests/Event.antt =====
-- Witnesses and tests for event-tcp/proto_utils.cpp and proto_client.cpp.
use rpc.Common.{ℕ, ◌≡◌, refl, true, some, List, [], ◌∷◌, take, drop, arith}
use rpc.Common.Words.{ℤ, pos, to_uint32}
use rpc.EventTcp.{message, frame}
use rpc.EventTcp.RoundTrip.{stream, AllFit, IsIdle, init-IsIdle}
use rpc.EventTcp.Client.{MsgClient, start, received}
use rpc.EventTcp.Client.{init as new_client}
use rpc.EventTcp.Client.Messages.{read_all, read_all-stream}

abbrev three_messages : List (List ℕ)
three_messages = (7 ∷ 8 ∷ []) ∷ [] ∷ (9 ∷ []) ∷ []

abbrev wire : List ℕ
wire = stream three_messages

-- A cut in the middle of the first header, and one in the last.
abbrev three_reads : List (List ℕ)
three_reads = take 5 wire ∷ take 17 (drop 5 wire) ∷ drop 22 wire ∷ []

three_messages-AllFit : AllFit three_messages
three_messages-AllFit = (ground arith, (ground arith, (ground arith, tt)))

abbrev address : List ℕ
address = 49 ∷ []

-- libevent's and the C library's part, on that address.
abbrev one_address : List ℕ → ℤ
one_address a = pos 1

abbrev no_address : List ℕ → ℤ
no_address a = pos 0

abbrev to_seven : List ℕ → ℤ
to_seven a = pos 7

abbrev connects : ℕ → ℤ
connects p = pos 0

-- Started on the port behind the colon.
start_port : (start no_address to_seven connects (new_client (49 ∷ 58 ∷ 55 ∷ []))).0.ports ≡ 7 ∷ []
unfolding start to_uint32
start_port = refl

read_all-stream_example :
    (d : MsgClient) × (read_all (new_client address) three_reads ≡ some d)
    × IsIdle d.parser
    × (d.calls
        ≡ received (message (7 ∷ 8 ∷ []))
          ∷ received (message [])
          ∷ received (message (9 ∷ []))
          ∷ [])
unfolding frame
read_all-stream_example =
    read_all-stream three_messages three_reads (new_client address) refl three_messages-AllFit
      (init-IsIdle true) refl refl

abbrev started : MsgClient
started = record (new_client address) { base = some 0; buffer_event = some 0 }

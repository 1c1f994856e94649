-- ===== src/Tests/Tcp.antt =====
-- Witnesses and tests for even-http/ps/core/tcp_message_handler.cc and the senders.
use rpc.Common.{ℕ, ◌≡◌, refl, Bool, true, List, [], ◌∷◌, ◌++◌, take, drop, arith}
use rpc.TcpMessageHandler.{Message, Handler, ok, fault, header_overflow, receive_message, init}
use rpc.TcpMessageHandler.Bytewise.{feed_all, receive_message-feed_all}
use rpc.TcpMessageHandler.Sender.{frame, header_bytes, to_le}
use rpc.TcpMessageHandler.Frames.{IsReady, init-IsReady}
use rpc.TcpMessageHandler.RoundTrip.{stream, AllFit, receive_all, receive_all-stream}
use rpc.TcpMessageHandler.Faults.{empty_message_overflows}

-- Protobuf's part, where a meta is its own bytes.
abbrev as_bytes : List ℕ → List ℕ
as_bytes bs = bs

abbrev two_messages : List (Message (List ℕ))
two_messages =
    record { meta = 7 ∷ 8 ∷ []; protos = 1; payload = 9 ∷ [] }
    ∷ record { meta = []; protos = 2; payload = 5 ∷ 6 ∷ [] }
    ∷ []

abbrev wire : List ℕ
wire = stream as_bytes as_bytes two_messages

-- A cut in the middle of the first header, and one in the middle of the second body.
abbrev three_reads : List (List ℕ)
three_reads = take 10 wire ∷ take 26 (drop 10 wire) ∷ drop 36 wire ∷ []

two_messages-AllFit : AllFit as_bytes as_bytes two_messages
two_messages-AllFit = (
  record {
    small_proto = ground arith;
    small_meta = ground arith;
    small_total = ground arith;
    some_bytes = ground arith;
  },
  (
    record {
      small_proto = ground arith;
      small_meta = ground arith;
      small_total = ground arith;
      some_bytes = ground arith;
    },
    tt,
  ),
)

receive_all-stream_example :
    (h' : Handler (List ℕ)) × (receive_all as_bytes as_bytes (init true) three_reads ≡ ok h')
    × IsReady h'
    × (h'.delivered ≡ two_messages)
unfolding frame header_bytes to_le
receive_all-stream_example =
    receive_all-stream as_bytes as_bytes (λ m. refl) two_messages three_reads (init true) refl
      init-IsReady two_messages-AllFit

receive_message-feed_all_example :
    receive_message as_bytes (init true) (take 10 wire)
    ≡ feed_all as_bytes (init true) (take 10 wire)
receive_message-feed_all_example = receive_message-feed_all as_bytes (init true) (take 10 wire)

-- A buffer that takes everything.
abbrev takes_all : List ℕ → Bool
takes_all block = true

empty_message_overflows_example :
    receive_message as_bytes (init true) (
      header_bytes (record { message_proto = 1; message_meta_length = 0; message_length = 0 })
      ++ 5 ∷ [])
    ≡ fault header_overflow
empty_message_overflows_example =
    empty_message_overflows as_bytes (init true) 1 0 5 [] init-IsReady (ground arith) (ground arith)

-- The bytes on the wire.
first_frame :
    take 19 wire ≡ 1 ∷ 0 ∷ 0 ∷ 0 ∷ 2 ∷ 0 ∷ 0 ∷ 0 ∷ 3 ∷ 0 ∷ 0 ∷ 0 ∷ 0 ∷ 0 ∷ 0 ∷ 0 ∷ 7 ∷ 8 ∷ 9 ∷ []
unfolding frame header_bytes to_le
first_frame = refl

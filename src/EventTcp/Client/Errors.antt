-- ===== src/EventTcp/Client/Errors.antt =====
-- What `msgclient` of event-tcp/proto_client.cpp makes of a frame with a wrong magic word.
use rpc.Common.{
  ℕ, ◌<◌, ◌≡◌, ◌≢◌, true, none, some, List, [], ◌∷◌, ◌++◌, length, arith, append_assoc,
}
use rpc.Common.Words.{pos, u32_mod}
use rpc.EventTcp.{MsgParser, message, bad_magic, magic, no_length, parse, to_be}
use rpc.EventTcp.RoundTrip.{IsIdle}
use rpc.EventTcp.Faults.{parse_bad_magic}
use rpc.EventTcp.Client.{
  MsgClient, disconnected, received, stop, on_arrival, on_arrivals, on_read_handler, log,
}

-- A started client that reads a frame with a wrong magic word tells the user of a disconnection with
-- code 200 and frees its connection; yet the message callback is then called, with the null buffer
-- that stands for the error and after that with the message of the frame.
pub on_read_handler_bad_magic :
    (word b : ℕ) (bytes : List ℕ) (c : MsgClient)
    → IsIdle c.parser
    → c.parser.has_callback ≡ true
    → c.has_disconnected_cb ≡ true
    → c.has_message_cb ≡ true
    → c.base ≡ some b
    → word < u32_mod
    → word ≢ magic
    → length bytes < no_length
    → (d : MsgClient) × (on_read_handler (to_be word ++ (to_be (length bytes) ++ bytes)) c ≡ some d)
      × (d.buffer_event ≡ none)
      × (d.calls
          ≡ c.calls ++ disconnected (pos 200) ∷ received bad_magic ∷ received (message bytes) ∷ [])
unfolding on_read_handler on_arrivals on_arrival log stop
on_read_handler_bad_magic word b bytes c idle listens tells answers based small other fits =
    let p : MsgParser = record c.parser { arrived = [] } in
    let q : MsgParser = record p { header_magic = 0; arrived = bad_magic ∷ message bytes ∷ [] } in
    let e : parse p (to_be word ++ (to_be (length bytes) ++ bytes)) ≡ some q =
      parse_bad_magic p word bytes (record { no_bytes = idle.no_bytes; no_header = idle.no_header })
        listens small other fits in
    (
      on_arrivals q.arrived (record c { parser = q }),
      ground (arith, e),
      ground arith,
      ground (
        arith,
        append_assoc c.calls (disconnected (pos 200) ∷ []) (received bad_magic ∷ []),
        append_assoc (c.calls ++ disconnected (pos 200) ∷ []) (received bad_magic ∷ [])
            (received (message bytes) ∷ []),
        append_assoc c.calls (disconnected (pos 200) ∷ [])
            (received bad_magic ∷ received (message bytes) ∷ []),
      ),
    )

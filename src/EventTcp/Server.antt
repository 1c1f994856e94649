-- ===== src/EventTcp/Server.antt =====
-- event-tcp/proto_server.h and proto_server.cpp: `server`, `connection`, and `msgserver` with its
-- `msgconnection`. A connection object is known by a number, which stands for its address; it is open
-- until its bufferevent is freed. `calls` logs the calls of the user's callbacks; what they do is not
-- modelled. `client_accept` is known by whether it gives an object. `takes` says whether libevent
-- takes a block.
pub mod Reads
pub mod Streams
pub mod Table
pub mod Broadcast
pub mod Delivery
use rpc.Common.{
  ℕ, zero, suc, ◌+◌, Bool, true, false, not, ◌||◌, Option, none, some, List, [], ◌∷◌, ◌++◌, map,
  length, take, drop, if◌then◌else◌, nat_eq,
}
use rpc.Common.Dict.{Dict, get, has, put, erase}
use rpc.EventTcp.{MsgParser, Arrival, parse, header_bytes}
use rpc.EventTcp.{init as new_parser}
use rpc.EventTcp.Logs.{clean}

pub record MsgConnection : Type 0 where
  pub fd : ℕ
  pub is_open : Bool
  pub output : List ℕ
  pub parser : MsgParser

pub data ServerCall : Type 0 where
  disconnected : ℕ → ServerCall
  received : ℕ → Arrival → ServerCall

pub record MsgServer : Type 0 where
  pub next_pointer : ℕ
  pub objects : Dict ℕ MsgConnection
  pub connections : Dict ℕ ℕ
  pub has_base : Bool
  pub has_listener : Bool
  pub base_broken : Bool
  pub has_client_disconn : Bool
  pub has_message_cb : Bool
  pub calls : List ServerCall

abbrev pub init : Bool → Bool → MsgServer
init has_client_disconn has_message_cb = record {
  next_pointer = 0;
  objects = [];
  connections = [];
  has_base = false;
  has_listener = false;
  base_broken = false;
  has_client_disconn = has_client_disconn;
  has_message_cb = has_message_cb;
  calls = [];
}

-- The server afterwards, and whether an `error` is thrown.
unfoldable pub setup : Bool → Bool → MsgServer → MsgServer × Bool
setup makes_base listens s =
    if makes_base
    then (record s { has_base = true; has_listener = listens }, not listens)
    else (record s { has_base = false }, true)

-- `insert` of a map leaves a socket that is there as it is.
unfoldable pub add_connection : ℕ → ℕ → MsgServer → MsgServer
add_connection fd pointer s =
    if has fd s.connections then s else record s { connections = put fd pointer s.connections }

abbrev pub remove_connection : ℕ → MsgServer → MsgServer
remove_connection fd s = record s { connections = erase fd s.connections }

-- The object after `msgconnection::setup`.
abbrev pub created : ℕ → MsgConnection
created fd = record { fd = fd; is_open = true; output = []; parser = new_parser true }

unfoldable pub listener_callback : ℕ → Bool → Bool → MsgServer → MsgServer
unfolding add_connection
listener_callback fd has_bufferevent creates s =
    if has_bufferevent
    then if creates
      then add_connection fd s.next_pointer (record s {
        next_pointer = suc s.next_pointer;
        objects = put s.next_pointer (created fd) s.objects;
      })
      else s
    else record s { base_broken = true }

-- What a method does to its connection.
unfoldable pub update : ℕ → (MsgConnection → MsgConnection) → MsgServer → MsgServer
update pointer f s = elim (get pointer s.objects) [
  | none ↦ s
  | some c ↦ record s { objects = put pointer (f c) s.objects }
]

unfoldable pub notify : ℕ → MsgServer → MsgServer
notify pointer s =
    if s.has_client_disconn then record s { calls = s.calls ++ disconnected pointer ∷ [] } else s

abbrev pub free : ℕ → MsgServer → MsgServer
free pointer s = update pointer (λ c. record c { is_open = false }) s

-- The end of the stream is told before the connection leaves the table, an error after.
unfoldable pub event_callback : ℕ → MsgConnection → Bool → Bool → MsgServer → MsgServer
unfolding notify update
event_callback pointer c is_eof is_error s =
    if is_eof
    then free pointer (remove_connection c.fd (notify pointer s))
    else if is_error
    then notify pointer (free pointer (remove_connection c.fd s))
    else s

-- The callback that `msgconnection::setup` gives the parser, on all that has arrived.
unfoldable pub deliver_arrivals : ℕ → List Arrival → MsgServer → MsgServer
deliver_arrivals pointer arrivals s =
    if s.has_message_cb
    then record s { calls = s.calls ++ map (λ a. received pointer a) arrivals }
    else s

-- The parser's callback runs while it parses; it does not touch the parser, so that here it runs on
-- what has arrived, which is then taken out of the parser's log.
unfoldable pub on_read_handler : ℕ → List ℕ → MsgServer → Option MsgServer
unfolding deliver_arrivals
on_read_handler pointer bytes s = elim (get pointer s.objects) [
  | none ↦ none
  | some c ↦ elim (parse (clean c.parser) bytes) [
    | none ↦ none
    | some q ↦ some (
        deliver_arrivals pointer q.arrived
          (record s { objects = put pointer (record c { parser = clean q }) s.objects }))
  ]
]

-- The loop on what has come in, 1024 bytes at a time. Each round takes a byte at least.
unfoldable pub read_loop : ℕ → ℕ → List ℕ → MsgServer → Option MsgServer
unfolding on_read_handler
read_loop fuel pointer [] s = some s
read_loop zero pointer (b ∷ bs) s = some s
read_loop (suc fuel) pointer (b ∷ bs) s = elim (on_read_handler pointer (take 1024 (b ∷ bs)) s) [
  | none ↦ none
  | some s' ↦ read_loop fuel pointer (drop 1024 (b ∷ bs)) s'
]

unfoldable pub read_callback : ℕ → List ℕ → MsgServer → Option MsgServer
unfolding read_loop
read_callback pointer input s = read_loop (length input) pointer input s

-- A loop over the table, with what is done for each connection; an error ends it.
unfoldable pub each_connection :
    (MsgConnection → MsgConnection × Bool) → Dict ℕ ℕ → MsgServer → MsgServer × Bool
unfolding update
each_connection f [] s = (s, false)
each_connection f ((fd, pointer) ∷ rest) s =
    let s' = update pointer (λ c. (f c).0) s in
    let more = each_connection f rest s' in
    let throws : Bool = elim (get pointer s.objects) [ none ↦ false | some c ↦ (f c).1 ] in
    if throws then (s', true) else more

module _ (takes : List ℕ → Bool) where
  -- The connection afterwards, and whether an `error` is thrown.
  unfoldable pub send : List ℕ → MsgConnection → MsgConnection × Bool
  send bytes c = if takes bytes then (record c { output = c.output ++ bytes }, false) else (c, true)

  unfoldable pub send_frame : List ℕ → MsgConnection → MsgConnection × Bool
  unfolding send
  send_frame bytes c =
      let (c', throws) = send (header_bytes (length bytes)) c in
      if throws then (c', true) else send bytes c'

  unfoldable pub send_to_all_clients : List ℕ → MsgServer → MsgServer × Bool
  unfolding each_connection send
  send_to_all_clients bytes s = each_connection (send bytes) s.connections s

  -- `msgserver::send_msg(data, num)`.
  unfoldable pub send_msg : List ℕ → MsgServer → MsgServer × Bool
  unfolding each_connection send_frame
  send_msg bytes s = each_connection (send_frame bytes) s.connections s

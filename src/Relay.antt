-- ===== src/Relay.antt =====
-- libevent-example/message.h and message.cpp: a server that passes packets on between its clients. A
-- bufferevent is known by a number, which stands for its address; it is open until it is freed.
-- Integers are written little-endian, as on the machines that it runs on. Counters are bit patterns
-- of 32 bits. Ids grow, so that the map's order is that of insertion. The set-up in `main`, the figures
-- that are printed and then begin anew, and `conn_writecb`, which is never installed, are left out.
pub mod Decimal
pub mod Packets
pub mod Routing
pub mod Reads
use rpc.Common.{
  ℕ, zero, suc, ◌+◌, ◌*◌, ◌/◌, ◌%◌, ◌^◌, Bool, true, false, Option, none, some, List, [], ◌∷◌, ◌++◌,
  ◌-◌, length, take, drop, min, if◌then◌else◌, ltb, nat_beq, nat_eq,
}
use rpc.Common.Words.{u32_mod}
use rpc.Common.Dict.{Dict, get, put}

abbrev pub header_length : ℕ
header_length = 12

abbrev pub max_packet_size : ℕ
max_packet_size = 256

pub record Header : Type 0 where
  pub target_id : ℕ
  pub source_id : ℕ
  pub length : ℕ

pub record Peer : Type 0 where
  pub is_open : Bool
  pub output : List ℕ

pub record Relay : Type 0 where
  pub client_map : Dict ℕ ℕ
  pub connect_number : ℕ
  pub peers : Dict ℕ Peer
  pub data_size : ℕ
  pub receive_number : ℕ
  pub send_number : ℕ

abbrev pub init : Relay
init = record {
  client_map = [];
  connect_number = 0;
  peers = [];
  data_size = 0;
  receive_number = 0;
  send_number = 0;
}

unfoldable pub to_le : ℕ → List ℕ
to_le x = (x % 256) ∷ (x / 256 % 256) ∷ (x / 2 ^ 16 % 256) ∷ (x / 2 ^ 24 % 256) ∷ []

unfoldable pub read_le : List ℕ → ℕ
read_le [] = 0
read_le (b ∷ bs) = b + 256 * read_le bs

-- A `Header` in memory.
unfoldable pub header_bytes : Header → List ℕ
unfolding to_le
header_bytes h = to_le h.target_id ++ (to_le h.source_id ++ to_le h.length)

unfoldable pub read_header : List ℕ → Header
unfolding read_le
read_header bytes = record {
  target_id = read_le (take 4 bytes);
  source_id = read_le (take 4 (drop 4 bytes));
  length = read_le (take 4 (drop 8 bytes));
}

-- What writes to a bufferevent; a freed one is none.
unfoldable pub bufferevent_write : ℕ → List ℕ → Relay → Option Relay
bufferevent_write bev bytes r = elim (get bev r.peers) [
  | none ↦ none
  | some p ↦
      if p.is_open
      then some (record r { peers = put bev (record p { output = p.output ++ bytes }) r.peers })
      else none
]

unfoldable pub write_buffer : List ℕ → ℕ → Header → Relay → Option Relay
unfolding header_bytes bufferevent_write
write_buffer msg bev header r = bufferevent_write bev (header_bytes header ++ msg) r

-- "connedted", as the source spells it.
abbrev pub greeting : List ℕ
greeting = 99 ∷ 111 ∷ 110 ∷ 110 ∷ 101 ∷ 100 ∷ 116 ∷ 101 ∷ 100 ∷ []

-- `bev` is the new bufferevent; none where it cannot be made, which ends the loop of the server.
unfoldable pub listener_cb : ℕ → Relay → Option Relay
unfolding write_buffer
listener_cb bev r =
    let number = (r.connect_number + 1) % u32_mod in
    let joined : Relay = record r {
      connect_number = number;
      client_map = put number bev r.client_map;
      peers = put bev (record { is_open = true; output = [] }) r.peers;
    } in
    write_buffer greeting bev (record { target_id = number; source_id = 0; length = 9 }) joined

-- The first id of the bufferevent, 0 if it has none.
unfoldable pub get_client_id : ℕ → Dict ℕ ℕ → ℕ
get_client_id bev [] = 0
get_client_id bev ((id, b) ∷ rest) =
    let other = get_client_id bev rest in if nat_beq b bev then id else other

pub data Outcome : Type 0 where
  -- What is left of the input.
  ok : List ℕ → Relay → Outcome
  -- More than `msg` has room for.
  overflow : Outcome
  -- A write to a bufferevent that has been freed.
  dangling : Outcome

-- The numbers after a packet.
abbrev pub counted : ℕ → Relay → Relay
counted total r = record r {
  receive_number = (r.receive_number + 1) % u32_mod;
  data_size = (r.data_size + total) % u32_mod;
}

unfoldable pub pass_on : ℕ → List ℕ → Relay → Option Relay
unfolding bufferevent_write
pass_on target bytes r = elim (get target r.client_map) [
  | none ↦ some r
  | some bev ↦
      bufferevent_write bev bytes (record r { send_number = (r.send_number + 1) % u32_mod })
]

-- What a round of the loop comes to: another one on what is left, or the end.
pub data Round : Type 0 where
  again : List ℕ → Relay → Round
  stops : Outcome → Round

abbrev pub after : List ℕ → Option Relay → Round
after rest none = stops dangling
after rest (some r) = again rest r

-- The `while` of `conn_readcb` with its body.
unfoldable pub read_round : ℕ → List ℕ → Relay → Round
read_round source input r =
    let header = read_header input in
    let rest = drop header_length input in
    let total = (header.length + header_length) % u32_mod in
    let bytes =
      take total (header_bytes (record header { source_id = source }) ++ take header.length rest) in
    if ltb (length input) max_packet_size
    then stops (ok input r)
    else if ltb (length input) total
    then stops (ok rest r)
    else if ltb (max_packet_size - header_length) (min header.length (length rest))
    then stops overflow
    else after (drop header.length rest) (pass_on header.target_id bytes (counted total r))

-- A round that goes on takes the twelve bytes of a header at least.
unfoldable pub read_loop : ℕ → ℕ → List ℕ → Relay → Outcome
read_loop zero source input r = ok input r
read_loop (suc fuel) source input r = elim (read_round source input r) [
  | again rest r' ↦ read_loop fuel source rest r'
  | stops o ↦ o
]

-- `conn_readcb` on what has come in.
unfoldable pub conn_readcb : ℕ → List ℕ → Relay → Outcome
unfolding get_client_id read_loop
conn_readcb bev input r = read_loop (length input) (get_client_id bev r.client_map) input r

-- The client map keeps the freed bufferevent.
unfoldable pub conn_eventcb : ℕ → Relay → Relay
conn_eventcb bev r = elim (get bev r.peers) [
  | none ↦ r
  | some p ↦ record r { peers = put bev (record p { is_open = false }) r.peers }
]

-- ===== src/EventTcp/Client.antt =====
-- event-tcp/proto_client.h and proto_client.cpp: `client` and `msgclient`. An event base is known by
-- a number; a bufferevent or a timer by the base that it is on. The target is a list of characters.
-- Parameters are `inet_pton` (libevent's evutil_inet_pton: 1 for an address, 0 for no address, -1 for an
-- error), `atoi`, and the result of connecting. `calls` logs the calls of the user's callbacks; what
-- they do is not modelled.
pub mod Start
pub mod Messages
pub mod Errors
use rpc.Common.{
  ℕ, zero, suc, ◌+◌, ◌%◌, Bool, true, false, Option, none, some, List, [], ◌∷◌, ◌++◌, if◌then◌else◌,
  nat_beq, length,
}
use rpc.Common.Words.{ℤ, pos, negsuc, int_beq, to_uint32, u16_mod}
use rpc.EventTcp.{MsgParser, Arrival, message, bad_magic, parse, header_bytes}
use rpc.EventTcp.{init as new_parser}

pub data Call : Type 0 where
  connected : Call
  disconnected : ℤ → Call
  received : Arrival → Call

pub record MsgClient : Type 0 where
  pub next_base : ℕ
  pub base : Option ℕ
  pub timeout_event : Option ℕ
  pub buffer_event : Option ℕ
  pub buffer_event1 : Option ℕ
  pub target : List ℕ
  pub ports : List ℕ
  pub output : List ℕ
  pub parser : MsgParser
  pub has_connected_cb : Bool
  pub has_disconnected_cb : Bool
  pub has_message_cb : Bool
  pub calls : List Call

abbrev pub init : List ℕ → MsgClient
init target = record {
  next_base = 0;
  base = none;
  timeout_event = none;
  buffer_event = none;
  buffer_event1 = none;
  target = target;
  ports = [];
  output = [];
  parser = new_parser true;
  has_connected_cb = true;
  has_disconnected_cb = true;
  has_message_cb = true;
  calls = [];
}

abbrev pub default_port : ℕ
default_port = 9000

-- What stands behind the first colon.
unfoldable pub after_colon : List ℕ → Option (List ℕ)
after_colon [] = none
after_colon (c ∷ cs) = if nat_beq c 58 then some cs else after_colon cs

abbrev new_base : MsgClient → MsgClient
new_base c = record c { next_base = suc c.next_base; base = some c.next_base }

unfoldable pub log : Bool → Call → MsgClient → MsgClient
log has_callback call c = if has_callback then record c { calls = c.calls ++ call ∷ [] } else c

module _ (inet_pton : List ℕ → ℤ) (atoi : List ℕ → ℤ) (connects : ℕ → ℤ) where
  unfoldable pub port : List ℕ → ℕ
  unfolding after_colon
  port target = elim (after_colon target) [
    | none ↦ default_port
    | some digits ↦ to_uint32 (atoi digits) % u16_mod
  ]

  abbrev is_negative : ℤ → Bool
  is_negative (pos n) = false
  is_negative (negsuc n) = true

  -- The client afterwards, and whether an `error` is thrown. `ports` logs the attempts to connect.
  unfoldable pub start : MsgClient → MsgClient × Bool
  unfolding port
  start c =
      let based = new_base c in
      let p = port c.target in
      elim c.buffer_event [
        | some _ ↦ (c, false)
        | none ↦
            if int_beq (inet_pton c.target) (pos 0)
            then (
              record based { buffer_event = based.base; ports = c.ports ++ p ∷ [] },
              is_negative (connects p),
            )
            else (based, true)
      ]

  -- The same on the second bufferevent, which makes no base.
  unfoldable pub start1 : MsgClient → MsgClient × Bool
  unfolding port
  start1 c =
      let p = port c.target in
      elim c.buffer_event1 [
        | some _ ↦ (c, false)
        | none ↦
            if int_beq (inet_pton c.target) (pos 0)
            then (
              record c { buffer_event1 = c.base; ports = c.ports ++ p ∷ [] },
              is_negative (connects p),
            )
            else (c, true)
      ]

  -- An `error` of the start is caught and dropped.
  abbrev pub timeoutcb : MsgClient → MsgClient
  timeoutcb c = (start c).0

unfoldable pub start_with_delay : MsgClient → MsgClient
start_with_delay c =
    let based = new_base c in
    elim c.buffer_event [ some _ ↦ c | none ↦ record based { timeout_event = based.base } ]

unfoldable pub stop : MsgClient → MsgClient
stop c = elim c.base [
  | none ↦ c
  | some _ ↦ record c { buffer_event = none; timeout_event = none; base = none }
]

unfoldable pub write : List ℕ → MsgClient → MsgClient
write bytes c = elim c.buffer_event [ none ↦ c | some _ ↦ record c { output = c.output ++ bytes } ]

unfoldable pub eventcb : Bool → Bool → Bool → ℤ → MsgClient → MsgClient
unfolding log
eventcb is_connected is_error is_eof errno c =
    if is_connected
    then log c.has_connected_cb connected c
    else if is_error
    then log c.has_disconnected_cb (disconnected errno) c
    else if is_eof
    then log c.has_disconnected_cb (disconnected (pos 0)) c
    else c

-- The callback that a `msgclient` gives its parser.
unfoldable pub on_arrival : Arrival → MsgClient → MsgClient
unfolding log stop
on_arrival (message bytes) c = log c.has_message_cb (received (message bytes)) c
on_arrival bad_magic c =
    log c.has_message_cb (received bad_magic)
      (stop (log c.has_disconnected_cb (disconnected (pos 200)) c))

unfoldable pub on_arrivals : List Arrival → MsgClient → MsgClient
unfolding on_arrival
on_arrivals [] c = c
on_arrivals (a ∷ as') c = on_arrivals as' (on_arrival a c)

-- The parser's callback runs while it parses; it does not touch the parser, so that here it runs on
-- what has arrived.
unfoldable pub on_read_handler : List ℕ → MsgClient → Option MsgClient
unfolding parse on_arrivals
on_read_handler bytes c = elim (parse (record c.parser { arrived = [] }) bytes) [
  | none ↦ none
  | some p ↦ some (on_arrivals p.arrived (record c { parser = p }))
]

unfoldable pub send_msg : List ℕ → MsgClient → MsgClient
unfolding write
send_msg bytes c = write bytes (write (header_bytes (length bytes)) c)

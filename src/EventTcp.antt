-- ===== src/EventTcp.antt =====
-- event-tcp/proto_utils.h and proto_utils.cpp: the frames of `msgparser`, a big-endian magic word and
-- length before each message. Bytes are numbers below 256. `arrived` logs the calls of the callback,
-- oldest first: a message, or the null buffer that says that the magic word was wrong.
pub mod Parser
pub mod RoundTrip
pub mod Faults
pub mod Logs
pub mod Client
pub mod Server
use rpc.Common.{
  ℕ, zero, suc, ◌+◌, ◌*◌, ◌%◌, ◌/◌, ◌^◌, Bool, true, false, ◌&&◌, ◌||◌, Option, none, some, List,
  [], ◌∷◌, ◌++◌, length, take, drop, if◌then◌else◌, leb, nat_beq,
}
use rpc.Common.Words.{u32_mod}

abbrev pub magic : ℕ
magic = 3615047

-- The value of `mLength` while no header has been read.
abbrev pub no_length : ℕ
no_length = 4294967295

abbrev pub header_size : ℕ
header_size = 8

pub data Arrival : Type 0 where
  message : List ℕ → Arrival
  bad_magic : Arrival

pub record MsgParser : Type 0 where
  pub has_callback : Bool
  pub header_magic : ℕ
  pub header_length : ℕ
  pub buffer : List ℕ
  pub arrived : List Arrival

abbrev pub init : Bool → MsgParser
init has_callback = record {
  has_callback = has_callback;
  header_magic = 0;
  header_length = no_length;
  buffer = [];
  arrived = [];
}

-- A word in network order, read by `ntohl`.
unfoldable pub read_be : ℕ → List ℕ → ℕ
read_be acc [] = acc
read_be acc (b ∷ bs) = read_be (256 * acc + b) bs

-- `if (mCallback) mCallback(...)`.
unfoldable pub call_back : Arrival → MsgParser → MsgParser
call_back a p = if p.has_callback then record p { arrived = p.arrived ++ a ∷ [] } else p

-- The condition of the `while` loop.
unfoldable pub goes_on : MsgParser → Bool
goes_on p =
    leb p.header_length (length p.buffer)
    || (nat_beq p.header_length no_length && leb header_size (length p.buffer))

unfoldable pub take_header : MsgParser → MsgParser
unfolding read_be call_back
take_header p =
    let word = read_be 0 (take 4 p.buffer) in
    let p' : MsgParser = record p {
      header_magic = word;
      header_length = read_be 0 (take 4 (drop 4 p.buffer));
      buffer = drop header_size p.buffer;
    } in
    if nat_beq word magic then p' else call_back bad_magic p'

unfoldable pub take_body : MsgParser → MsgParser
unfolding call_back
take_body p =
    let p' = call_back (message (take p.header_length p.buffer)) p in
    record p' {
      buffer = drop p.header_length p.buffer;
      header_length = no_length;
      header_magic = 0;
    }

-- The body of the `while` loop.
unfoldable pub parse_round : MsgParser → MsgParser
unfolding take_header take_body
parse_round p =
    if nat_beq p.header_length no_length
    then (if leb header_size (length p.buffer) then take_header p else p)
    else if leb p.header_length (length p.buffer)
    then take_body p
    else p

unfoldable pub parse_loop : ℕ → MsgParser → Option MsgParser
unfolding goes_on parse_round
parse_loop zero p = if goes_on p then none else some p
parse_loop (suc fuel) p = elim (goes_on p) [
  | true ↦ parse_loop fuel (parse_round p)
  | false ↦ some p
]

-- A round takes a header's bytes, or ends a message whose header was taken: two rounds for each byte
-- and one more are enough.
unfoldable pub parse : MsgParser → List ℕ → Option MsgParser
unfolding parse_loop
parse p input =
    let p' : MsgParser = record p { buffer = p.buffer ++ input } in
    parse_loop (2 * length p'.buffer + 1) p'

-- A word of 32 bits as `htonl` leaves it in memory.
unfoldable pub to_be : ℕ → List ℕ
to_be x = (x / 2 ^ 24 % 256) ∷ (x / 2 ^ 16 % 256) ∷ (x / 2 ^ 8 % 256) ∷ (x % 256) ∷ []

unfoldable pub header_bytes : ℕ → List ℕ
unfolding to_be
header_bytes num = to_be magic ++ to_be (num % u32_mod)

-- The bytes of one `send_msg`.
unfoldable pub frame : List ℕ → List ℕ
unfolding header_bytes
frame bytes = header_bytes (length bytes) ++ bytes

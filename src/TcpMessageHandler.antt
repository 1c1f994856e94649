-- ===== src/TcpMessageHandler.antt =====
-- even-http/ps/core/tcp_message_handler.h and tcp_message_handler.cc, with `MessageHeader` of
-- even-http/ps/core/message.h: the frames of a TCP stream. Bytes are numbers below 256 and words are
-- little endian. `header_index` is the source's plus one, so it starts at 0. The buffer that
-- `new unsigned char[n]` leaves unset starts with zeros. `delivered` logs the calls of the callback,
-- oldest first. What C++ leaves undefined is an error: a write past `header_`, and a read past the
-- message by a meta length above the message length. `parse` is protobuf's ParseFromArray.
pub mod Bytewise
pub mod Sender
pub mod Memory
pub mod Frames
pub mod RoundTrip
pub mod Faults
use rpc.Common.{
  ℕ, zero, suc, ◌+◌, ◌-◌, ◌*◌, Bool, true, false, ◌&&◌, List, [], ◌∷◌, ◌++◌, length, set, take,
  drop, replicate, if◌then◌else◌, ltb, leb, nat_beq,
}

abbrev pub header_len : ℕ
header_len = 16

pub record MessageHeader : Type 0 where
  pub message_proto : ℕ
  pub message_meta_length : ℕ
  pub message_length : ℕ

pub record Message {ℓ} (Meta : Type ℓ) : Type ℓ where
  pub meta : Meta
  pub protos : ℕ
  pub payload : List ℕ

pub record Handler {ℓ} (Meta : Type ℓ) : Type ℓ where
  pub has_callback : Bool
  pub remaining_length : ℕ
  pub header : List ℕ
  pub header_index : ℕ
  pub last_copy_len : ℕ
  pub message_buffer : List ℕ
  pub message_header : MessageHeader
  pub delivered : List (Message Meta)

pub data Fault : Type 0 where
  header_overflow meta_overread out_of_fuel : Fault

pub data Outcome {ℓ} (A : Type ℓ) : Type ℓ where
  ok : A → Outcome A
  fault : Fault → Outcome A

infixl 5 ◌>>=◌
abbrev pub ◌>>=◌ {ℓ κ} : {A : Type ℓ} {B : Type κ} → Outcome A → (A → Outcome B) → Outcome B
ok a >>= f = f a
fault e >>= f = fault e

-- A word as the host reads it from memory.
unfoldable pub read_le : List ℕ → ℕ
read_le [] = 0
read_le (b ∷ bs) = b + 256 * read_le bs

-- memcpy, byte by byte from offset `i`.
unfoldable pub write_at : List ℕ → ℕ → List ℕ → List ℕ
write_at buffer i [] = buffer
write_at buffer i (b ∷ bs) = write_at (set buffer i b) (suc i) bs

abbrev pub init {ℓ} : {Meta : Type ℓ} → Bool → Handler Meta
init has_callback = record {
  has_callback = has_callback;
  remaining_length = 0;
  header = replicate header_len 0;
  header_index = 0;
  last_copy_len = 0;
  message_buffer = [];
  message_header = record { message_proto = 0; message_meta_length = 0; message_length = 0 };
  delivered = [];
}

module _ {ℓ} {Meta : Type ℓ} where
  -- What happens when the sixteenth byte of the header is in.
  unfoldable pub open_message : Handler Meta → Handler Meta
  unfolding read_le
  open_message h =
      let len = read_le (take 8 (drop 8 h.header)) in
      record h {
        message_header = record {
          message_proto = read_le (take 4 h.header);
          message_meta_length = read_le (take 4 (drop 4 h.header));
          message_length = len;
        };
        remaining_length = len;
        message_buffer = replicate len 0;
      }

  unfoldable pub store_header : ℕ → Handler Meta → Handler Meta
  store_header b h = record h {
    header = set h.header h.header_index b;
    header_index = suc h.header_index;
  }

  -- The `for` loop. It breaks when the header is full, which happens within `header_len` rounds, so
  -- the loop's own bound on the rounds stops nothing.
  unfoldable pub fill_header : Handler Meta → List ℕ → Outcome (Handler Meta × List ℕ)
  fill_header h [] = ok (h, [])
  fill_header h (b ∷ bs) =
      let h' = store_header b h in
      let rest = fill_header h' bs in
      if ltb h.header_index header_len
      then if nat_beq h'.header_index header_len then ok (open_message h', bs) else rest
      else fault header_overflow

module _ {ℓ} {Meta : Type ℓ} (parse : List ℕ → Meta) where
  -- The call of the callback on a complete message.
  unfoldable pub deliver : Handler Meta → Outcome (Handler Meta)
  deliver h =
      let meta_length = h.message_header.message_meta_length in
      let done : Handler Meta = record h {
        message_buffer = [];
        header_index = 0;
        last_copy_len = 0;
      } in
      if h.has_callback
      then if leb meta_length h.message_header.message_length
        then ok (record done {
          delivered =
              h.delivered
              ++ record {
                meta = parse (take meta_length h.message_buffer);
                protos = h.message_header.message_proto;
                payload = drop meta_length h.message_buffer;
              }
                ∷ [];
        })
        else fault meta_overread
      else ok done

  -- The second half of the `while` loop's body.
  unfoldable pub copy_body : Handler Meta → List ℕ → Outcome (Handler Meta × List ℕ)
  copy_body h input =
      let num = length input in
      let copy_len = if leb h.remaining_length num then h.remaining_length else num in
      let h' : Handler Meta = record h {
        remaining_length = h.remaining_length - copy_len;
        message_buffer = write_at h.message_buffer h.last_copy_len (take copy_len input);
        last_copy_len = h.last_copy_len + copy_len;
      } in
      if ltb 0 h.remaining_length && ltb 0 num
      then if nat_beq h'.remaining_length 0
        then (deliver h' >>= λ d. ok (d, drop copy_len input))
        else ok (h', drop copy_len input)
      else ok (h, input)

  -- The body of the `while` loop.
  unfoldable pub round : Handler Meta → List ℕ → Outcome (Handler Meta × List ℕ)
  round h input =
      (if nat_beq h.remaining_length 0 then fill_header h input else ok (h, input))
      >>= λ (h', rest). copy_body h' rest

  unfoldable pub receive_loop : ℕ → Handler Meta → List ℕ → Outcome (Handler Meta)
  receive_loop fuel h [] = ok h
  receive_loop zero h (b ∷ bs) = fault out_of_fuel
  receive_loop (suc fuel) h (b ∷ bs) = round h (b ∷ bs) >>= λ (h', rest). receive_loop fuel h' rest

  -- Every round takes a byte, so one round for each is enough.
  unfoldable pub receive_message : Handler Meta → List ℕ → Outcome (Handler Meta)
  receive_message h input = receive_loop (length input) h input

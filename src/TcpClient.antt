-- ===== src/TcpClient.antt =====
-- `TcpClient` of even-http/ps/core/tcp_client.h and tcp_client.cc, but for `SendMessage` of a meta, which
-- is in TcpMessageHandler/Sender. An event base is known by a number, a bufferevent or a timer by the
-- base that it is on. `event_base` and `is_started` are static in the source, shared by all clients;
-- here they stand for that one copy. `calls` logs the calls of the user's callbacks. The result of an
-- operation that may throw has a Bool, true if it does.
pub mod CommMessages
use rpc.Common.{
  ℕ, zero, suc, ◌+◌, ◌%◌, Bool, true, false, not, Option, none, some, List, [], ◌∷◌, ◌++◌, length,
  take, drop, if◌then◌else◌, nat_beq,
}
use rpc.Common.Words.{ℤ, to_int32, u32_mod}
use rpc.Convert.{size_to_uint, int_to_uint}
use rpc.TcpMessageHandler.{MessageHeader, Handler, Outcome, ok, ◌>>=◌, receive_message}
use rpc.TcpMessageHandler.{init as new_handler}
use rpc.TcpMessageHandler.Sender.{header_bytes, write_block}
use rpc.TcpServer.{message_chunk_length}

pub data Call : Type 0 where
  connected disconnected timer : Call
  read : List ℕ → Call

pub record TcpClient {ℓ} (Meta : Type ℓ) : Type ℓ where
  pub next_base : ℕ
  pub event_base : Option ℕ
  pub base_broken : Bool
  pub is_started : Bool
  pub buffer_event : Option ℕ
  pub event_timeout : Option ℕ
  pub is_stop : Bool
  pub is_connected : Bool
  pub message_handler : Handler Meta
  pub has_connected_callback : Bool
  pub has_disconnected_callback : Bool
  pub has_read_callback : Bool
  pub has_timer_callback : Bool
  pub calls : List Call

-- What the environment answers to `Init`.
pub record Env : Type 0 where
  pub ip_is_legal : Bool
  pub uses_threads : Bool
  pub enables : Bool
  pub connects : Bool

module _ {ℓ} {Meta : Type ℓ} where
  abbrev pub new : TcpClient Meta
  new = record {
    next_base = 0;
    event_base = none;
    base_broken = false;
    is_started = false;
    buffer_event = none;
    event_timeout = none;
    is_stop = true;
    is_connected = false;
    message_handler = new_handler true;
    has_connected_callback = false;
    has_disconnected_callback = false;
    has_read_callback = false;
    has_timer_callback = false;
    calls = [];
  }

  unfoldable pub init : Env → TcpClient Meta → TcpClient Meta × Bool
  init env c =
      let freed : TcpClient Meta = record c { buffer_event = none } in
      let based : TcpClient Meta = elim c.event_base [
        | some _ ↦ freed
        | none ↦ record freed {
          next_base = suc c.next_base;
          event_base = some c.next_base;
          is_stop = false;
        }
      ] in
      if env.ip_is_legal
      then if env.uses_threads
        then (
          record based { buffer_event = based.event_base },
          if env.enables then not env.connects else true,
        )
        else (freed, true)
      else (freed, true)

  -- `adds` says whether the timer can be added.
  unfoldable pub start_with_delay : Bool → TcpClient Meta → TcpClient Meta × Bool
  start_with_delay adds c = elim c.buffer_event [
    | some _ ↦ (c, false)
    | none ↦ (
      record c {
        next_base = suc c.next_base;
        event_base = some c.next_base;
        event_timeout = some c.next_base;
      },
      not adds,
    )
  ]

  -- `got_break` and `breaks` are what libevent says of the base.
  unfoldable pub stop : Bool → Bool → TcpClient Meta → TcpClient Meta
  stop got_break breaks c =
      if got_break
      then record c { is_stop = true }
      else if c.is_stop
      then c
      else record c { is_stop = true; base_broken = breaks }

  -- Whether the event loop is run, which then blocks; `none` for the exception on a null base.
  unfoldable pub start : TcpClient Meta → TcpClient Meta × Option Bool
  start c =
      if c.is_started
      then (c, some false)
      else (record c { is_started = true }, elim c.event_base [ none ↦ none | some _ ↦ some true ])

  unfoldable pub log : Bool → Call → TcpClient Meta → TcpClient Meta
  log has_callback call c = if has_callback then record c { calls = c.calls ++ call ∷ [] } else c

  abbrev pub notify_connected : TcpClient Meta → TcpClient Meta
  notify_connected c = record c { is_connected = true }

  -- TCP_NODELAY is taken to be set. The end of the stream is only logged.
  unfoldable pub event_callback : Bool → Bool → TcpClient Meta → TcpClient Meta
  unfolding log
  event_callback is_connected is_error c =
      if is_connected
      then notify_connected (log c.has_connected_callback connected c)
      else if is_error
      then log c.has_disconnected_callback disconnected c
      else c

  abbrev pub timer_callback : TcpClient Meta → TcpClient Meta
  timer_callback c = log c.has_timer_callback timer c

  -- The timer's base, or `none` for an exception.
  unfoldable pub start_timer : ℕ → TcpClient Meta → Option ℕ
  start_timer time c = if nat_beq time 0 then none else c.event_base

module _ {ℓ} {Meta : Type ℓ} (parse : List ℕ → Meta) where
  unfoldable pub on_read_handler : List ℕ → TcpClient Meta → Outcome (TcpClient Meta)
  unfolding log
  on_read_handler bytes c = receive_message parse c.message_handler bytes >>= λ h.
      ok (record (log c.has_read_callback (read bytes) c) { message_handler = h })

  -- The loop of `ReadCallback` on what has come in.
  unfoldable pub read_loop : ℕ → List ℕ → TcpClient Meta → Outcome (TcpClient Meta)
  unfolding on_read_handler
  read_loop fuel [] c = ok c
  read_loop zero (b ∷ bs) c = ok c
  read_loop (suc fuel) (b ∷ bs) c = on_read_handler (take message_chunk_length (b ∷ bs)) c >>= λ c'.
      read_loop fuel (drop message_chunk_length (b ∷ bs)) c'

  unfoldable pub read_callback : List ℕ → TcpClient Meta → Outcome (TcpClient Meta)
  unfolding read_loop
  read_callback input c = read_loop (length input) input c

-- `SendMessage` of a CommMessage, whose whole size protobuf gives as `byte_size`, its meta as `meta`
-- and its data as `bytes`: what is written and the result, or `none` for an exception.
unfoldable pub send_comm_message :
    (List ℕ → Bool) → ℕ → List ℕ → List ℕ → List ℕ → Option (List ℕ × Bool)
unfolding write_block
send_comm_message writes byte_size meta bytes output =
    elim (int_to_uint (to_int32 (byte_size % u32_mod))) [
      | none ↦ none
      | some buf_size ↦ elim (size_to_uint (length meta)) [
        | none ↦ none
        | some meta_size ↦
            let header : MessageHeader = record {
              message_proto = 1;
              message_meta_length = meta_size;
              message_length = buf_size;
            } in
            some (
              write_block writes bytes
                (write_block writes meta (write_block writes (header_bytes header) (output, true))))
      ]
    ]

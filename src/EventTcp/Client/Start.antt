-- ===== src/EventTcp/Client/Start.antt =====
-- Starting `client` of event-tcp/proto_client.cpp, and what it sends.
use rpc.Common.{ℕ, ◌+◌, ◌≡◌, true, none, some, List, ◌++◌, length, arith, append_assoc}
use rpc.Common.Words.{ℤ, pos}
use rpc.EventTcp.{header_bytes, frame}
use rpc.EventTcp.Client.{MsgClient, start, start_with_delay, timeoutcb, write, send_msg}

module _ (inet_pton : List ℕ → ℤ) (atoi : List ℕ → ℤ) (connects : ℕ → ℤ) where
  -- A stopped client whose target is an address, for which libevent's inet_pton gives 1, throws and
  -- connects to nothing.
  pub start_address :
      (c : MsgClient)
      → c.buffer_event ≡ none
      → inet_pton c.target ≡ pos 1
      → ((start inet_pton atoi connects c).1 ≡ true)
        × ((start inet_pton atoi connects c).0.buffer_event ≡ none)
        × ((start inet_pton atoi connects c).0.ports ≡ c.ports)
  unfolding start
  start_address c e h = ground arith

  -- After a delayed start, the connection is made on another event base than the one whose timer asks
  -- for it, which alone is being run.
  pub timeoutcb_other_base :
      (c : MsgClient)
      → c.buffer_event ≡ none
      → inet_pton c.target ≡ pos 0
      → let delayed = start_with_delay c in
        let started = timeoutcb inet_pton atoi connects delayed in
        (delayed.timeout_event ≡ some c.next_base) × (started.buffer_event ≡ some (c.next_base + 1))
  unfolding start start_with_delay
  timeoutcb_other_base c e h = ground arith

-- A message sent on a connected client is one frame behind what was written before; without a
-- connection nothing is written.
pub send_msg-frame :
    (bytes : List ℕ) (c : MsgClient)
    → ((b : ℕ) → c.buffer_event ≡ some b → (send_msg bytes c).output ≡ c.output ++ frame bytes)
      × (c.buffer_event ≡ none → send_msg bytes c ≡ c)
unfolding send_msg write frame
send_msg-frame bytes c = (
  λ b e. ground (arith, append_assoc c.output (header_bytes (length bytes)) bytes),
  λ e. ground arith,
)

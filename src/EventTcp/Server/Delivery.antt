-- ===== src/EventTcp/Server/Delivery.antt =====
-- From `msgserver::send_msg` of event-tcp/proto_server.cpp to the message callback of the clients of
-- event-tcp/proto_client.cpp.
use rpc.Common.{
  concat, ℕ, ◌≡◌, refl, sym, ap, ◌∙◌, Bool, true, false, some, List, [], ◌∷◌, ◌++◌, map, arith,
  if◌then◌else◌, nat_eq, append_assoc, append-nil,
}
use rpc.Common.Dict.{get}
use rpc.EventTcp.{message, frame}
use rpc.EventTcp.RoundTrip.{stream, AllFit, IsIdle}
use rpc.EventTcp.Client.{MsgClient}
use rpc.EventTcp.Client.{received as client_received}
use rpc.EventTcp.Client.Messages.{read_all, read_all-stream}
use rpc.EventTcp.Server.{MsgConnection, MsgServer, send_msg}
use rpc.EventTcp.Server.Table.{IsValid}
use rpc.EventTcp.Server.Broadcast.{send_msg_lem}

module _ (takes : List ℕ → Bool) (all : (b : List ℕ) → takes b ≡ true) where
  -- Messages to all, one after the other.
  unfoldable pub send_msgs : List (List ℕ) → MsgServer → MsgServer × Bool
  send_msgs [] s = (s, false)
  send_msgs (m ∷ ms) s =
      let sent = send_msg takes m s in
      let rest = send_msgs ms sent.0 in if sent.1 then sent else rest

  send_msgs_lem :
      (ms : List (List ℕ)) (s : MsgServer)
      → IsValid s
      → (t : MsgServer) × (send_msgs ms s ≡ (t, false))
        × IsValid t
        × ((p : ℕ) (c : MsgConnection)
            → get p s.objects ≡ some c
            → c.is_open ≡ true
            → get p t.objects ≡ some (record c { output = c.output ++ stream ms }))
  unfolding send_msgs
  send_msgs_lem [] s v = (
    s,
    refl,
    v,
    λ p c h on. h ∙ ap (λ b. some (record c { output = b })) (sym (append-nil c.output)),
  )
  send_msgs_lem (m ∷ ms) s v =
      let (t, e, v', first) = send_msg_lem takes all m s v in
      let (u, e', v'', more) = send_msgs_lem ms t v' in
      (
        u,
        ground (arith, e, e'),
        v'',
        λ p c h on.
            more p (record c { output = c.output ++ frame m }) (first p c h on) on
            ∙ ap (λ b. some (record c { output = b }))
                (append_assoc c.output (frame m) (stream ms)),
      )

  -- Messages of fewer than 2 ^ 32 - 1 bytes each that a `msgserver` with a valid table sends to all are
  -- written, if libevent takes every block, to each open connection once and in order; and a
  -- `msgclient` between two messages that reads what was written to one, cut anywhere, gives just
  -- those messages in order to its message callback. The table stays valid.
  pub send_msgs_reach :
      (ms cs : List (List ℕ)) (s : MsgServer) (p : ℕ) (c : MsgConnection) (client : MsgClient)
      → IsValid s
      → get p s.objects ≡ some c
      → c.is_open ≡ true
      → AllFit ms
      → IsIdle client.parser
      → client.parser.has_callback ≡ true
      → client.has_message_cb ≡ true
      → concat cs ≡ stream ms
      → (t : MsgServer) × (send_msgs ms s ≡ (t, false))
        × IsValid t
        × (get p t.objects ≡ some (record c { output = c.output ++ concat cs }))
        × ((d : MsgClient) × (read_all client cs ≡ some d)
            × IsIdle d.parser
            × (d.calls ≡ client.calls ++ map (λ m. client_received (message m)) ms))
  send_msgs_reach ms cs s p c client v there on fit idle listens answers cut =
      let (t, e, v', each) = send_msgs_lem ms s v in
      (
        t,
        e,
        v',
        each p c there on ∙ ap (λ b. some (record c { output = c.output ++ b })) (sym cut),
        read_all-stream ms cs client cut fit idle listens answers,
      )

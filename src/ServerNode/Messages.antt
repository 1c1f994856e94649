-- ===== src/ServerNode/Messages.antt =====
-- The messages that a node of even-http/ps/core/server_node.cc receives: the callback of
-- `CreateTcpServer` with its handlers, and `Response`. A connection is a number. `sent` logs what the
-- server gives to its connections, oldest first. `request_handler` is the user's, and `copies` says for
-- which sizes memcpy_s succeeds; an exception is `none`.
pub mod Answering
use rpc.Common.{
  ℕ, Bool, true, false, Option, none, some, List, [], ◌∷◌, ◌++◌, length, if◌then◌else◌,
}
use rpc.Cluster.{NodeRole}
use rpc.AbstractNode.Collective.{Collective, store_received}
use rpc.AbstractNode.Sends.{
  NodeCommand, terminate, register, heartbeat, send_data, fetch_server, finish,
  collective_send_data, MessageMeta,
}

pub record Reply : Type 0 where
  pub conn : ℕ
  pub meta : MessageMeta
  pub bytes : List ℕ

pub record Server : Type 0 where
  pub role : NodeRole
  pub rank_id : ℕ
  pub collective : Collective
  pub sent : List Reply

unfoldable pub response : ℕ → MessageMeta → List ℕ → Server → Server
response conn meta bytes s = record s {
  sent =
      s.sent
      ++ record {
        conn = conn;
        meta = record meta { role = s.role; rank_id = s.rank_id };
        bytes = bytes;
      }
        ∷ [];
}

-- The answer to a collective message is the message itself.
unfoldable pub process_collective_send_data : ℕ → MessageMeta → List ℕ → Server → Server
process_collective_send_data conn meta bytes s = record s {
  sent = s.sent ++ record { conn = conn; meta = meta; bytes = bytes } ∷ [];
}

module _ (copies : ℕ → Bool) (request_handler : ℕ → MessageMeta → List ℕ → Server → Server) where
  unfoldable pub process_send_data : ℕ → MessageMeta → List ℕ → Server → Option Server
  process_send_data conn meta bytes s =
      if copies (length bytes) then some (request_handler conn meta bytes s) else none

  unfoldable pub on_message : ℕ → MessageMeta → List ℕ → Server → Option Server
  unfolding process_send_data process_collective_send_data
  on_message conn meta bytes s = elim meta.cmd [
    | send_data ↦ process_send_data conn meta bytes s
    | collective_send_data ↦
        let answered = process_collective_send_data conn meta bytes s in
        elim (store_received copies meta.rank_id bytes answered.collective) [
          | none ↦ none
          | some c ↦ some (record answered { collective = c })
        ]
    | _ ↦ none
  ]

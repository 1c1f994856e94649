-- ===== src/AbstractNode/Sends.antt =====
-- The sends of even-http/ps/core/abstract_node.cc, up to their `Wait`. `sent` logs what each client is
-- given to send, oldest first. A client is known by the address it was made with; that its `Init`
-- throws is not modelled. The result is the id of the request, or none when an exception leaves the
-- function; the node is as it is then.
pub mod Delivery
pub mod Broadcast
use rpc.Common.{
  ℕ, suc, ◌+◌, Bool, true, false, String, Option, none, some, List, [], ◌∷◌, ◌++◌, length,
  if◌then◌else◌, nat_beq, leb, take, ◌&&◌, nat_eq,
}
use rpc.Common.Dict.{Dict, get, has, put}
use rpc.Cluster.{NodeRole, server, worker, scheduler, is_server}
use rpc.CommUtil.{validate_rank_id}
use rpc.AbstractNode.Requests.{Requests, add_message_track, set_message_callback}

pub data NodeCommand : Type 0 where
  terminate register heartbeat send_data fetch_server finish collective_send_data : NodeCommand

pub record MessageMeta : Type 0 where
  pub cmd : NodeCommand
  pub request_id : ℕ
  pub role : NodeRole
  pub rank_id : ℕ
  pub user_cmd : ℕ

pub record Sent : Type 0 where
  pub to : String × ℕ
  pub meta : MessageMeta
  pub bytes : List ℕ

pub record Node : Type 0 where
  pub role : NodeRole
  pub rank_id : ℕ
  pub server_num : ℕ
  pub worker_num : ℕ
  pub nodes_address : Dict ℕ (String × ℕ)
  pub connected_nodes : Dict ℕ (String × ℕ)
  pub requests : Requests
  pub sent : List Sent

-- A rank without an address throws.
unfoldable pub get_or_create_tcp_client : ℕ → Node → Option (Node × (String × ℕ))
get_or_create_tcp_client rank_id n = elim (get rank_id n.connected_nodes) [
  | some client ↦ some (n, client)
  | none ↦ elim (get rank_id n.nodes_address) [
    | none ↦ none
    | some address ↦
        some (record n { connected_nodes = put rank_id address n.connected_nodes }, address)
  ]
]

-- What the four sends of user data put into the meta.
abbrev pub data_meta : ℕ → ℕ → Node → MessageMeta
data_meta request_id command n = record {
  cmd = send_data;
  request_id = request_id;
  role = n.role;
  rank_id = n.rank_id;
  user_cmd = command;
}

abbrev transmit : String × ℕ → MessageMeta → List ℕ → Node → Node
transmit client meta bytes n = record n {
  sent = n.sent ++ record { to = client; meta = meta; bytes = bytes } ∷ [];
}

-- One round of the loops: the client, made when there is none, and the message.
unfoldable pub send_to : ℕ → ℕ → ℕ → List ℕ → Node → Option Node
unfolding get_or_create_tcp_client
send_to request_id command rank_id bytes n = elim (get_or_create_tcp_client rank_id n) [
  | none ↦ none
  | some (n', client) ↦ some (transmit client (data_meta request_id command n') bytes n')
]

abbrev pub track : ℕ → Node → Node × ℕ
track expected n =
    let (q, request_id) = add_message_track expected n.requests in
    (record n { requests = q }, request_id)

-- The loop of `Broadcast`: the node, and whether it was left by an exception.
unfoldable pub broadcast_loop : ℕ → ℕ → List ℕ → Dict ℕ (String × ℕ) → Node → Node × Bool
unfolding send_to
broadcast_loop request_id command bytes [] n = (n, false)
broadcast_loop request_id command bytes ((rank_id, address) ∷ rest) n =
    elim (send_to request_id command rank_id bytes n) [
      | none ↦ (n, true)
      | some n' ↦ broadcast_loop request_id command bytes rest n'
    ]

abbrev pub result : ℕ → Node × Bool → Node × Option ℕ
result request_id (n, thrown) = (n, if thrown then none else some request_id)

unfoldable pub broadcast : NodeRole → List ℕ → ℕ → Node → Node × Option ℕ
unfolding broadcast_loop
broadcast node_role bytes command n =
    let (tracked, request_id) = track (length n.nodes_address) n in
    if is_server node_role
    then result request_id (broadcast_loop request_id command bytes tracked.nodes_address tracked)
    else (n, none)

abbrev pub is_valid_rank : NodeRole → ℕ → Node → Bool
is_valid_rank node_role rank_id n = validate_rank_id n.server_num n.worker_num node_role rank_id

-- The loop over the ranks with their data and lengths: the node, and whether it was left by an
-- exception, which a length that is missing makes too. A length above that of the data, which has
-- bytes read from behind them, counts as one.
unfoldable pub send_loop : NodeRole → ℕ → ℕ → List ℕ → List (List ℕ) → List ℕ → Node → Node × Bool
unfolding send_to
send_loop node_role request_id command [] messages lens n = (n, false)
send_loop node_role request_id command (rank_id ∷ rank_ids) [] lens n = (n, true)
send_loop node_role request_id command (rank_id ∷ rank_ids) (bytes ∷ messages) [] n = (n, true)
send_loop node_role request_id command (rank_id ∷ rank_ids) (bytes ∷ messages) (len ∷ lens) n =
    if is_valid_rank node_role rank_id n && leb len (length bytes)
    then elim (send_to request_id command rank_id (take len bytes) n) [
      | none ↦ (n, true)
      | some n' ↦ send_loop node_role request_id command rank_ids messages lens n'
    ]
    else (n, true)

-- `Send` to several ranks.
unfoldable pub send_all : NodeRole → List ℕ → List (List ℕ) → List ℕ → ℕ → Node → Node × Option ℕ
unfolding send_loop
send_all node_role rank_ids messages lens command n =
    let (tracked, request_id) = track (length messages) n in
    if nat_beq (length rank_ids) (length messages)
    then result request_id (send_loop node_role request_id command rank_ids messages lens tracked)
    else (tracked, none)

-- `Send` to several ranks with an output, which first sets the callback for the answers.
unfoldable pub send_all_for_output :
    NodeRole → List ℕ → List (List ℕ) → List ℕ → ℕ → Node → Node × Option ℕ
unfolding send_loop
send_all_for_output node_role rank_ids messages lens command n =
    let (tracked, request_id) = track (length messages) n in
    let called = record tracked {
      requests = set_message_callback request_id rank_ids tracked.requests;
    } in
    if nat_beq (length rank_ids) (length messages)
    then result request_id (send_loop node_role request_id command rank_ids messages lens called)
    else (tracked, none)

-- `Send` to one rank with an output.
unfoldable pub send_for_output : NodeRole → ℕ → List ℕ → ℕ → Node → Node × Option ℕ
unfolding send_to
send_for_output node_role rank_id bytes command n =
    let (tracked, request_id) = track 1 n in
    let called = record tracked {
      requests = set_message_callback request_id (rank_id ∷ []) tracked.requests;
    } in
    if is_valid_rank node_role rank_id n
    then elim (send_to request_id command rank_id bytes called) [
      | none ↦ (called, none)
      | some n' ↦ (n', some request_id)
    ]
    else (n, none)

-- `SendMessageAsync`, and `SendMessageSync` up to its `Wait`: the request's id goes into the meta.
unfoldable pub send_message_async : String × ℕ → MessageMeta → List ℕ → Node → Node × ℕ
send_message_async client meta bytes n =
    let (tracked, request_id) = track 1 n in
    (transmit client (record meta { request_id = request_id }) bytes tracked, request_id)

-- `Send` to one rank, and `CollectiveSendAsync`, which differ in the command.
unfoldable pub send_with : NodeCommand → NodeRole → ℕ → List ℕ → ℕ → Node → Node × Option ℕ
unfolding get_or_create_tcp_client send_message_async
send_with cmd node_role rank_id bytes command n =
    if is_valid_rank node_role rank_id n
    then elim (get_or_create_tcp_client rank_id n) [
      | none ↦ (n, none)
      | some (n', client) ↦
          let (done, request_id) =
            send_message_async client (record (data_meta 0 command n') { cmd = cmd }) bytes n' in
          (done, some request_id)
    ]
    else (n, none)

abbrev pub send : NodeRole → ℕ → List ℕ → ℕ → Node → Node × Option ℕ
send node_role rank_id bytes command n = send_with send_data node_role rank_id bytes command n

abbrev pub collective_send_async : NodeRole → ℕ → List ℕ → Node → Node × Option ℕ
collective_send_async node_role rank_id bytes n =
    send_with collective_send_data node_role rank_id bytes 0 n

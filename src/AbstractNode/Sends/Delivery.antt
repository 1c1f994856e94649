-- ===== src/AbstractNode/Sends/Delivery.antt =====
-- To whom the sends of even-http/ps/core/abstract_node.cc go.
use rpc.Common.{
  ℕ, ◌+◌, ◌%◌, ◌≡◌, ◌≢◌, refl, sym, Bool, true, false, String, Option, none, some, List, [], ◌∷◌,
  ◌++◌, length, take, leb, ◌&&◌, if◌then◌else◌, arith, nat_beq_iff, nat_eq, Option-cases,
  Bool-cases, inl, inr, append-nil, append_assoc,
}
use rpc.Common.Dict.{get, put, get-put, get-put_self}
use rpc.Common.Words.{u32_mod, u64_mod}
use rpc.Cluster.{NodeRole}
use rpc.AbstractNode.Requests.{add_message_track}
use rpc.AbstractNode.Sends.{
  Sent, Node, get_or_create_tcp_client, data_meta, send_to, track, is_valid_rank, send_loop,
  send_all,
}

-- Where a message for a rank goes: to the client that there is, or to the address of the server of
-- that rank, whatever the role.
unfoldable pub address_of : ℕ → Node → Option (String × ℕ)
address_of rank_id n = elim (get rank_id n.connected_nodes) [
  | some client ↦ some client
  | none ↦ get rank_id n.nodes_address
]

unfoldable pub data_message : ℕ → ℕ → String × ℕ → List ℕ → Node → Sent
data_message request_id command address bytes n = record {
  to = address;
  meta = data_meta request_id command n;
  bytes = bytes;
}

-- What a loop leaves as it was.
pub record Same (n m : Node) : Type 0 where
  pub role : m.role ≡ n.role
  pub rank : m.rank_id ≡ n.rank_id
  pub servers : m.server_num ≡ n.server_num
  pub workers : m.worker_num ≡ n.worker_num
  pub places : (r : ℕ) → address_of r m ≡ address_of r n

pub send_to_lem :
    (request_id command rank_id : ℕ) (bytes : List ℕ) (n : Node) (a : String × ℕ)
    → address_of rank_id n ≡ some a
    → (m : Node) × (send_to request_id command rank_id bytes n ≡ some m)
      × (m.sent ≡ n.sent ++ data_message request_id command a bytes n ∷ [])
      × (m.requests ≡ n.requests)
      × Same n m
unfolding send_to get_or_create_tcp_client address_of data_message
send_to_lem request_id command rank_id bytes n a e =
    elim (Option-cases (get rank_id n.connected_nodes)) [
      | inr (client, c) ↦ (
        record n { sent = n.sent ++ data_message request_id command a bytes n ∷ [] },
        ground arith,
        refl,
        refl,
        record { role = refl; rank = refl; servers = refl; workers = refl; places = λ r. refl },
      )
      | inl none_yet ↦ (
        record n {
          connected_nodes = put rank_id a n.connected_nodes;
          sent = n.sent ++ data_message request_id command a bytes n ∷ [];
        },
        ground arith,
        refl,
        refl,
        record {
          role = refl;
          rank = refl;
          servers = refl;
          workers = refl;
          places =
              λ r. ground (arith, get-put rank_id r a n.connected_nodes, nat_beq_iff rank_id r);
        },
      )
    ]

send_to_nowhere :
    (request_id command rank_id : ℕ) (bytes : List ℕ) (n : Node)
    → address_of rank_id n ≡ none
    → send_to request_id command rank_id bytes n ≡ none
unfolding send_to get_or_create_tcp_client address_of
send_to_nowhere request_id command rank_id bytes n e = ground arith

-- What is to be sent, up to the first rank that is not valid, has no address or has no length within
-- its data, and whether there is one.
unfoldable pub deliveries :
    NodeRole → ℕ → ℕ → List ℕ → List (List ℕ) → List ℕ → Node → List Sent × Bool
deliveries node_role request_id command [] messages lens n = ([], false)
deliveries node_role request_id command (rank_id ∷ rank_ids) [] lens n = ([], true)
deliveries node_role request_id command (rank_id ∷ rank_ids) (bytes ∷ messages) [] n = ([], true)
deliveries node_role request_id command (rank_id ∷ rank_ids) (bytes ∷ messages) (len ∷ lens) n =
    if is_valid_rank node_role rank_id n && leb len (length bytes)
    then elim (address_of rank_id n) [
      | none ↦ ([], true)
      | some a ↦
          let (rest, stopped) = deliveries node_role request_id command rank_ids messages lens n in
          (data_message request_id command a (take len bytes) n ∷ rest, stopped)
    ]
    else ([], true)

deliveries-Same :
    (node_role : NodeRole) (request_id command : ℕ) (rank_ids : List ℕ) (messages : List (List ℕ))
    (lens : List ℕ) (n m : Node)
    → Same n m
    → deliveries node_role request_id command rank_ids messages lens m
      ≡ deliveries node_role request_id command rank_ids messages lens n
unfolding deliveries data_message
deliveries-Same node_role request_id command [] messages lens n m s = refl
deliveries-Same node_role request_id command (rank_id ∷ rank_ids) [] lens n m s = refl
deliveries-Same node_role request_id command (rank_id ∷ rank_ids) (bytes ∷ messages) [] n m s = refl
deliveries-Same node_role request_id command (rank_id ∷ rank_ids) (bytes ∷ messages) (len ∷ lens) n
      m s =
    ground (
      arith,
      deliveries-Same node_role request_id command rank_ids messages lens n m s,
      s.places rank_id,
      s.role,
      s.rank,
      s.servers,
      s.workers,
    )

send_loop_lem :
    (node_role : NodeRole) (request_id command : ℕ) (rank_ids : List ℕ) (messages : List (List ℕ))
    (lens : List ℕ) (n : Node)
    → let done = send_loop node_role request_id command rank_ids messages lens n in
      let due = deliveries node_role request_id command rank_ids messages lens n in
      (done.0.sent ≡ n.sent ++ due.0) × (done.1 ≡ due.1) × (done.0.requests ≡ n.requests)
unfolding send_loop deliveries
send_loop_lem node_role request_id command [] messages lens n =
    (sym (append-nil n.sent), refl, refl)
send_loop_lem node_role request_id command (rank_id ∷ rank_ids) [] lens n =
    (sym (append-nil n.sent), refl, refl)
send_loop_lem node_role request_id command (rank_id ∷ rank_ids) (bytes ∷ messages) [] n =
    (sym (append-nil n.sent), refl, refl)
send_loop_lem node_role request_id command (rank_id ∷ rank_ids) (bytes ∷ messages) (len ∷ lens) n =
    elim (Bool-cases (is_valid_rank node_role rank_id n && leb len (length bytes))) [
      | inr bad ↦ ground (arith, append-nil n.sent)
      | inl good ↦ elim (Option-cases (address_of rank_id n)) [
        | inl nowhere ↦ ground (
          arith,
          append-nil n.sent,
          send_to_nowhere request_id command rank_id (take len bytes) n nowhere,
        )
        | inr (a, e) ↦
            let (m, f, log, kept, s) =
              send_to_lem request_id command rank_id (take len bytes) n a e in
            ground (
              arith,
              f,
              log,
              kept,
              send_loop_lem node_role request_id command rank_ids messages lens m,
              deliveries-Same node_role request_id command rank_ids messages lens n m s,
              append_assoc n.sent (data_message request_id command a (take len bytes) n ∷ [])
                  (deliveries node_role request_id command rank_ids messages lens n).0,
            )
      ]
    ]

-- `Send` to several ranks: with as many data as ranks, the data go, each cut to its length, in order
-- and all under the id of the new request, to the servers of their ranks, whatever role is asked for,
-- up to the first rank that is not valid, whose server is not known, or that has no length, or one
-- beyond its data; there is a result if there is none such. With another number of data nothing is
-- sent and there is no result. In each case the tracker then expects as many answers as there are data.
pub send_all_lem :
    (node_role : NodeRole) (rank_ids : List ℕ) (messages : List (List ℕ)) (lens : List ℕ)
    (command : ℕ) (n : Node)
    → let id = (n.requests.next_request_id + 1) % u64_mod in
      let (n', answer) = send_all node_role rank_ids messages lens command n in
      let due = deliveries node_role id command rank_ids messages lens n in
      (length rank_ids ≡ length messages
        → (n'.sent ≡ n.sent ++ due.0) × (answer ≡ (if due.1 then none else some id)))
      × (length rank_ids ≢ length messages → (n'.sent ≡ n.sent) × (answer ≡ none))
      × (get id n'.requests.message_tracker ≡ some (length messages % u32_mod, 0))
unfolding send_all add_message_track address_of
send_all_lem node_role rank_ids messages lens command n =
    let id = (n.requests.next_request_id + 1) % u64_mod in
    let t = (track (length messages) n).0 in
    let loop = send_loop_lem node_role id command rank_ids messages lens t in
    let same : Same n t = record {
      role = refl;
      rank = refl;
      servers = refl;
      workers = refl;
      places = λ r. refl;
    } in
    (
      λ e. ground (
        arith,
        nat_beq_iff (length rank_ids) (length messages),
        loop,
        deliveries-Same node_role id command rank_ids messages lens n t same,
      ),
      λ e. ground (arith, nat_beq_iff (length rank_ids) (length messages)),
      ground
          (arith, loop, get-put_self id (length messages % u32_mod, 0) n.requests.message_tracker),
    )

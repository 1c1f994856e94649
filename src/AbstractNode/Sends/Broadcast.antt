-- ===== src/AbstractNode/Sends/Broadcast.antt =====
-- To whom `Broadcast` of even-http/ps/core/abstract_node.cc goes.
use rpc.Common.{
  ℕ, ◌+◌, ◌%◌, ◌≡◌, ◌≢◌, refl, sym, subst, true, false, String, none, some, List, [], ◌∷◌, ◌++◌,
  length, arith, nat_beq_iff, nat_eq, Option-cases, inl, inr, append-nil, append_assoc,
}
use rpc.Common.Dict.{Dict, get, has, get-put_self, has-get}
use rpc.Common.Words.{u32_mod, u64_mod}
use rpc.Cluster.{NodeRole, is_server}
use rpc.AbstractNode.Requests.{add_message_track}
use rpc.AbstractNode.Sends.{Sent, Node, track, broadcast_loop, broadcast}
use rpc.AbstractNode.Sends.Delivery.{address_of, data_message, Same, send_to_lem}

-- One message for each of the ranks that has an address.
unfoldable pub to_all : ℕ → ℕ → List ℕ → Dict ℕ (String × ℕ) → Node → List Sent
to_all request_id command bytes [] n = []
to_all request_id command bytes ((rank_id, _) ∷ rest) n =
    let more = to_all request_id command bytes rest n in
    elim (address_of rank_id n) [
      | none ↦ more
      | some a ↦ data_message request_id command a bytes n ∷ more
    ]

to_all-Same :
    (request_id command : ℕ) (bytes : List ℕ) (m : Dict ℕ (String × ℕ)) (n k : Node)
    → Same n k
    → to_all request_id command bytes m k ≡ to_all request_id command bytes m n
unfolding to_all data_message
to_all-Same request_id command bytes [] n k s = refl
to_all-Same request_id command bytes ((rank_id, _) ∷ m) n k s =
    ground (arith, to_all-Same request_id command bytes m n k s, s.places rank_id, s.role, s.rank)

broadcast_loop_lem :
    (request_id command : ℕ) (bytes : List ℕ) (m : Dict ℕ (String × ℕ)) (n : Node)
    → ((k : ℕ) → has k m ≡ true → address_of k n ≢ none)
    → let done = broadcast_loop request_id command bytes m n in
      (done.0.sent ≡ n.sent ++ to_all request_id command bytes m n)
      × (done.1 ≡ false)
      × (done.0.requests ≡ n.requests)
unfolding broadcast_loop to_all has
broadcast_loop_lem request_id command bytes [] n known = (sym (append-nil n.sent), refl, refl)
broadcast_loop_lem request_id command bytes ((rank_id, address) ∷ m) n known =
    elim (Option-cases (address_of rank_id n)) [
      | inl nowhere ↦ absurd (known rank_id (ground (arith, nat_beq_iff rank_id rank_id)) nowhere)
      | inr (a, e) ↦
          let (k, f, log, kept, s) = send_to_lem request_id command rank_id bytes n a e in
          ground (
            arith,
            f,
            log,
            kept,
            broadcast_loop_lem request_id command bytes m k
                (λ r h. subst (λ o. o ≢ none) (sym (s.places r)) (known r (ground arith))),
            to_all-Same request_id command bytes m n k s,
            append_assoc n.sent (data_message request_id command a bytes n ∷ [])
                (to_all request_id command bytes m n),
          )
    ]

has_address : (k : ℕ) (n : Node) → has k n.nodes_address ≡ true → address_of k n ≢ none
unfolding address_of
has_address k n h e = ground (arith, has-get k n.nodes_address)

-- `Broadcast` to the servers never fails: each server whose address is known is sent the message once,
-- all under the id of the new request, from which the tracker expects as many answers as there are
-- addresses. For another role nothing is sent and there is no result.
pub broadcast_lem :
    (node_role : NodeRole) (bytes : List ℕ) (command : ℕ) (n : Node)
    → let id = (n.requests.next_request_id + 1) % u64_mod in
      let (n', answer) = broadcast node_role bytes command n in
      (is_server node_role ≡ true
        → (n'.sent ≡ n.sent ++ to_all id command bytes n.nodes_address n)
          × (answer ≡ some id)
          × (get id n'.requests.message_tracker ≡ some (length n.nodes_address % u32_mod, 0)))
      × (is_server node_role ≡ false → (n'.sent ≡ n.sent) × (answer ≡ none))
unfolding broadcast add_message_track address_of
broadcast_lem node_role bytes command n =
    let id = (n.requests.next_request_id + 1) % u64_mod in
    let t = (track (length n.nodes_address) n).0 in
    let loop = broadcast_loop_lem id command bytes n.nodes_address t (λ k h. has_address k t h) in
    let same : Same n t = record {
      role = refl;
      rank = refl;
      servers = refl;
      workers = refl;
      places = λ r. refl;
    } in
    (
      λ e. ground (
        arith,
        loop,
        to_all-Same id command bytes n.nodes_address n t same,
        get-put_self id (length n.nodes_address % u32_mod, 0) n.requests.message_tracker,
      ),
      λ e. ground arith,
    )

-- ===== src/AbstractNode/Collective/Matching/Receiving.antt =====
-- That CollectiveReceiveAsync of even-http/ps/core/abstract_node.cc keeps what the maps hold.
use rpc.Common.{ℕ, suc, ◌+◌, ◌<◌, ◌≡◌, true, false, none, List, ◌∷◌, length, nat_eq, tag_eq, arith}
use rpc.Common.Dict.{put, get_or, get-put, get-erase, has-get}
use rpc.Common.Words.{u64_mod}
use rpc.AbstractNode.Collective.{Collective, collective_receive_async, Event, receives}
use rpc.AbstractNode.Collective.History.{
  receive_count, used, nth_receive_past, receive_count_le, nth_receive-used,
}
use rpc.AbstractNode.Collective.Matching.{Matches, next_rank_request_id_lem}

module _ (h : List Event) (c : Collective) (m : Matches h c) (small : length h + 1 < u64_mod) where
  pub receives-Matches :
      (r o : ℕ) → used o h ≡ false → Matches (receives r o ∷ h) (collective_receive_async r o c).0
  unfolding collective_receive_async get_or
  receives-Matches r o fresh =
      let n = receive_count r h in
      let tag : ℕ × ℕ = (r, suc n) in
      let request =
        next_rank_request_id_lem r n c.expected_rank_request_ids (m.expected r)
          (omega (arith, receive_count_le r h)) in
      let none_yet = nth_receive_past r (suc n) h (omega arith) in
      let here = m.received r (suc n) in
      record {
        expected = λ s.
            ground (arith, request, get-put r s (suc n) c.expected_rank_request_ids, m.expected s);
        actual = λ s. ground (arith, m.actual s);
        callback = λ s i. ground (
          arith,
          request,
          none_yet,
          here,
          m.due r (suc n),
          m.callback s i,
          has-get tag c.received_data,
          get-put tag (s, i) o c.receive_callbacks,
        );
        received = λ s i. ground (
          arith,
          request,
          none_yet,
          here,
          m.due r (suc n),
          m.received s i,
          has-get tag c.received_data,
          get-erase tag (s, i) c.received_data,
        );
        done = λ s i. ground (
          arith,
          request,
          none_yet,
          here,
          m.due r (suc n),
          m.done s i,
          has-get tag c.received_data,
          get-put tag (s, i) false c.receive_messages_done,
          get-put tag (s, i) true (put tag false c.receive_messages_done),
        );
        due = λ s i e. ground (arith, request, none_yet, m.due s i);
        written = λ s i p d a b w. ground (
          arith,
          request,
          none_yet,
          here,
          m.due r (suc n),
          m.written s i p d,
          nth_receive-used s i p h,
          has-get tag c.received_data,
          get-put o p (get_or tag none c.received_data) c.outputs,
        );
        apart = λ s i t j p a b. ground (
          arith,
          none_yet,
          m.apart s i t j p,
          nth_receive-used s i p h,
          nth_receive-used t j p h,
        );
      }

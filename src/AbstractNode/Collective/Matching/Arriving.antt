-- ===== src/AbstractNode/Collective/Matching/Arriving.antt =====
-- That RunReceiveCallback of even-http/ps/core/abstract_node.cc, in its two critical sections, keeps
-- what the maps hold.
use rpc.Common.{
  ℕ, suc, ◌+◌, ◌<◌, ◌≡◌, inl, inr, Bool, true, none, some, List, ◌∷◌, length, if◌then◌else◌, nat_eq,
  tag_eq, Option-cases, arith,
}
use rpc.Common.Dict.{get, has, put, get_or, get-put, get-erase, has-get, has-put, has-erase}
use rpc.Common.Words.{u64_mod}
use rpc.AbstractNode.Collective.{
  Collective, store_received, run_callback, Event, arrives, calls_back,
}
use rpc.AbstractNode.Collective.History.{arrival_count, nth_arrival_past, arrival_count_le}
use rpc.AbstractNode.Collective.Matching.{Matches, next_rank_request_id_lem}

module _ (h : List Event) (c : Collective) (m : Matches h c) (small : length h + 1 < u64_mod) where
  pub arrives-Matches :
      (copies : ℕ → Bool) (r : ℕ) (d : List ℕ)
      → copies (length d) ≡ true
      → (c' : Collective) × (store_received copies r d c ≡ some c') × Matches (arrives r d ∷ h) c'
  unfolding store_received
  arrives-Matches copies r d ok =
      let n = arrival_count r h in
      let tag : ℕ × ℕ = (r, suc n) in
      let number =
        next_rank_request_id_lem r n c.actual_rank_request_ids (m.actual r)
          (omega (arith, arrival_count_le r h)) in
      let none_yet = nth_arrival_past r (suc n) h (omega arith) in
      let here = m.callback r (suc n) in
      let asked = has-get tag c.receive_callbacks in
      let stored : Collective = record c {
        actual_rank_request_ids = put r (suc n) c.actual_rank_request_ids;
        received_data = put tag (some d) c.received_data;
      } in
      let c' : Collective =
        if has tag c.receive_callbacks
        then record stored { running = put tag tt c.running }
        else stored in
      (
        c',
        ground (arith, number),
        record {
          expected = λ s. ground (arith, m.expected s);
          actual = λ s. ground (arith, get-put r s (suc n) c.actual_rank_request_ids, m.actual s);
          callback = λ s i. ground (
            arith,
            none_yet,
            here,
            asked,
            m.callback s i,
            m.due r (suc n),
            has-put tag (s, i) tt c.running,
          );
          received = λ s i. ground (
            arith,
            none_yet,
            here,
            asked,
            m.received s i,
            m.due r (suc n),
            has-put tag (s, i) tt c.running,
            get-put tag (s, i) (some d) c.received_data,
          );
          done = λ s i. ground (
            arith,
            none_yet,
            here,
            asked,
            m.done s i,
            m.due r (suc n),
            has-put tag (s, i) tt c.running,
          );
          due = λ s i e. ground (
            arith,
            none_yet,
            here,
            asked,
            m.due s i,
            m.due r (suc n),
            has-put tag (s, i) tt c.running,
          );
          written = λ s i p b x y w. ground (
            arith,
            none_yet,
            here,
            asked,
            m.written s i p b,
            m.due r (suc n),
            has-put tag (s, i) tt c.running,
          );
          apart = m.apart;
        },
      )

  pub calls_back-Matches : (t : ℕ × ℕ) → Matches (calls_back t ∷ h) (run_callback t c)
  unfolding run_callback get_or
  calls_back-Matches (r, j) =
      let due = m.due r j in
      let back = m.callback r j in
      let got = m.received r j in
      record {
        expected = λ s. ground (arith, m.expected s);
        actual = λ s. ground (arith, m.actual s);
        callback = λ s i. ground (
          arith,
          due,
          back,
          m.callback s i,
          get-erase (r, j) (s, i) c.receive_callbacks,
          has-erase (r, j) (s, i) c.running,
        );
        received = λ s i. ground (
          arith,
          due,
          back,
          m.received s i,
          get-erase (r, j) (s, i) c.received_data,
          has-erase (r, j) (s, i) c.running,
        );
        done = λ s i. ground (
          arith,
          due,
          back,
          m.done s i,
          get-put (r, j) (s, i) true c.receive_messages_done,
          has-erase (r, j) (s, i) c.running,
        );
        due = λ s i e. ground (arith, due, back, m.due s i, has-erase (r, j) (s, i) c.running);
        written = λ s i p b x y w. elim (Option-cases (get (r, j) c.receive_callbacks)) [
          | inl gone ↦ ground (arith, due, back, got, gone, m.written s i p b)
          | inr (o, there) ↦ ground (
            arith,
            due,
            back,
            got,
            there,
            m.written s i p b,
            m.apart s i r j p,
            has-erase (r, j) (s, i) c.running,
            get-put o p (get_or (r, j) none c.received_data) c.outputs,
          )
        ];
        apart = m.apart;
      }

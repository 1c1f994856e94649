-- ===== src/ServerNode/Messages/Answering.antt =====
-- A request of even-http/ps/core/abstract_node.cc to servers of even-http/ps/core/server_node.cc, and
-- their answers.
use rpc.Common.{
  ℕ, ◌<◌, ◌≡◌, refl, ◌∙◌, Bool, true, Option, none, some, List, [], ◌∷◌, length, drop, arith,
  nat_beq_iff, nat_eq, drop-length_append,
}
use rpc.Common.Dict.{Dict, get, put, Distinct, get-put, has-get}
use rpc.Common.Words.{u32_mod}
use rpc.AbstractNode.Collective.{VectorPtr}
use rpc.AbstractNode.Requests.{Requests, is_copied, begin_send, collect, is_answered}
use rpc.AbstractNode.Requests.Answers.{
  Response, handle_all, AllCopied, answers, answered, begin_send_collects,
}
use rpc.AbstractNode.Sends.{MessageMeta, Node, data_meta}
use rpc.ServerNode.Messages.{Reply, Server, response, process_send_data, on_message}

-- A user's handler that answers a request with what the server of the rank computes from its data.
abbrev pub serve : (ℕ → List ℕ → List ℕ) → ℕ → MessageMeta → List ℕ → Server → Server
serve f conn meta bytes s = response conn meta (f s.rank_id bytes) s

-- What the asking node reads of a reply.
abbrev read_reply : Reply → Response
read_reply r = (r.meta.request_id, (r.meta.rank_id, r.bytes))

module _ (copies : ℕ → Bool) (f : ℕ → List ℕ → List ℕ) (servers : ℕ → Server) (command : ℕ)
    (n : Node) where
  -- The answer of the server of a rank to a message under the id of a request.
  unfoldable pub answer_of : ℕ → ℕ → List ℕ → Option Response
  unfolding on_message
  answer_of id rank_id bytes =
      elim (on_message copies (serve f) 0 (data_meta id command n) bytes (servers rank_id)) [
        | none ↦ none
        | some s ↦ elim (drop (length (servers rank_id).sent) s.sent) [
          | [] ↦ none
          | reply ∷ _ ↦ some (read_reply reply)
        ]
      ]

  -- The answers to messages for several ranks, in the order in which the servers come to them.
  unfoldable pub all_answer : ℕ → Dict ℕ (List ℕ) → Option (List Response)
  unfolding answer_of
  all_answer id [] = some []
  all_answer id ((rank_id, bytes) ∷ asked) = elim (answer_of id rank_id bytes) [
    | none ↦ none
    | some r ↦ elim (all_answer id asked) [ none ↦ none | some rs ↦ some (r ∷ rs) ]
  ]

  answer_of_lem :
      (id rank_id : ℕ) (bytes : List ℕ)
      → (servers rank_id).rank_id ≡ rank_id
      → copies (length bytes) ≡ true
      → answer_of id rank_id bytes ≡ some (id, (rank_id, f rank_id bytes))
  unfolding answer_of on_message process_send_data response
  answer_of_lem id rank_id bytes own fine =
      let s = servers rank_id in
      let reply : Reply = record {
        conn = 0;
        meta = record (data_meta id command n) { role = s.role; rank_id = s.rank_id };
        bytes = f s.rank_id bytes;
      } in
      ground (arith, drop-length_append s.sent (reply ∷ []))

abbrev replies : (ℕ → List ℕ → List ℕ) → ℕ → Dict ℕ (List ℕ) → List Response
replies f id [] = []
replies f id ((r, bytes) ∷ asked) = (id, (r, f r bytes)) ∷ replies f id asked

replies-AllCopied :
    (copies : ℕ → Bool) (f : ℕ → List ℕ → List ℕ) (id : ℕ) (asked : Dict ℕ (List ℕ))
    → Distinct asked
    → ((r : ℕ) (bytes : List ℕ) → get r asked ≡ some bytes → is_copied copies (f r bytes) ≡ true)
    → AllCopied copies (replies f id asked)
unfolding get
replies-AllCopied copies f id [] d fine = tt
replies-AllCopied copies f id ((r, bytes) ∷ asked) (a, d) fine = (
  fine r bytes (ground (arith, nat_beq_iff r r)),
  replies-AllCopied copies f id asked d
      (λ k b h. fine k b (ground (arith, nat_beq_iff r k, has-get r asked))),
)

answers-replies :
    (f : ℕ → List ℕ → List ℕ) (id : ℕ) (asked : Dict ℕ (List ℕ))
    → answers id (replies f id asked) ≡ length asked
answers-replies f id [] = refl
answers-replies f id ((r, bytes) ∷ asked) =
    ground (arith, nat_beq_iff id id, answers-replies f id asked)

get-answered :
    (f : ℕ → List ℕ → List ℕ) (id k : ℕ) (asked m : Dict ℕ (List ℕ))
    → Distinct asked
    → get k (answered id m (replies f id asked))
      ≡ elim (get k asked) [ none ↦ get k m | some bytes ↦ some (f k bytes) ]
unfolding get
get-answered f id k [] m d = refl
get-answered f id k ((r, bytes) ∷ asked) m (a, d) = ground (
  arith,
  nat_beq_iff id id,
  nat_beq_iff r k,
  get-put r k (f r bytes) m,
  has-get r asked,
  get-answered f id k asked (put r (f r bytes) m) d,
)

-- Each rank is asked with its message.
abbrev pub Asks : Dict ℕ (List ℕ) → List ℕ → List (List ℕ) → Type 0
Asks asked [] [] = Unit
Asks asked [] (bytes ∷ messages) = ⊥
Asks asked (r ∷ ranks) [] = ⊥
Asks asked (r ∷ ranks) (bytes ∷ messages) = (get r asked ≡ some bytes) × Asks asked ranks messages

abbrev pub outcome : (ℕ → List ℕ → List ℕ) → List ℕ → List (List ℕ) → List VectorPtr
outcome f [] messages = []
outcome f (r ∷ ranks) [] = []
outcome f (r ∷ ranks) (bytes ∷ messages) = some (f r bytes) ∷ outcome f ranks messages

collect-outcome :
    (f : ℕ → List ℕ → List ℕ) (id : ℕ) (asked : Dict ℕ (List ℕ)) (ranks : List ℕ)
    (messages : List (List ℕ))
    → Distinct asked
    → Asks asked ranks messages
    → collect ranks (answered id [] (replies f id asked)) ≡ outcome f ranks messages
collect-outcome f id asked [] [] d a = refl
collect-outcome f id asked [] (bytes ∷ messages) d a = absurd a
collect-outcome f id asked (r ∷ ranks) [] d a = absurd a
collect-outcome f id asked (r ∷ ranks) (bytes ∷ messages) d (here, rest) =
    ground (arith, get-answered f id r asked [] d, collect-outcome f id asked ranks messages d rest)

module _ (copies : ℕ → Bool) (f : ℕ → List ℕ → List ℕ) (servers : ℕ → Server) (command : ℕ)
    (n : Node) where
  all_answer_lem :
      (id : ℕ) (asked : Dict ℕ (List ℕ))
      → ((r : ℕ) → (servers r).rank_id ≡ r)
      → Distinct asked
      → ((r : ℕ) (bytes : List ℕ) → get r asked ≡ some bytes → copies (length bytes) ≡ true)
      → all_answer copies f servers command n id asked ≡ some (replies f id asked)
  unfolding all_answer get
  all_answer_lem id [] own d fine = refl
  all_answer_lem id ((r, bytes) ∷ asked) own (a, d) fine = ground (
    arith,
    answer_of_lem copies f servers command n id r bytes (own r)
        (fine r bytes (ground (arith, nat_beq_iff r r))),
    all_answer_lem id asked own d
        (λ k b h. fine k b (ground (arith, nat_beq_iff r k, has-get r asked))),
  )

  -- `Send` with an output, to servers of different ranks that are known by their ranks, serve `f` and
  -- can copy what they are sent, and to a node that can copy their answers, in whatever order they
  -- come to the messages: each of them answers,
  -- the request counts as answered when all have, and its output is then what `f` makes of each
  -- message at its rank, in the order of the ranks asked.
  pub answers_collected :
      (ranks : List ℕ) (messages : List (List ℕ)) (q q' : Requests) (id : ℕ)
      (asked : Dict ℕ (List ℕ))
      → ((r : ℕ) → (servers r).rank_id ≡ r)
      → ((r : ℕ) (bytes : List ℕ) → get r asked ≡ some bytes → copies (length bytes) ≡ true)
      → ((r : ℕ) (bytes : List ℕ) → get r asked ≡ some bytes → is_copied copies (f r bytes) ≡ true)
      → begin_send ranks messages q ≡ some (q', id)
      → get id q.receive_messages ≡ none
      → get id q.outputs ≡ none
      → 0 < length ranks
      → length ranks < u32_mod
      → Distinct asked
      → length asked ≡ length ranks
      → Asks asked ranks messages
      → (es : List Response) × (all_answer copies f servers command n id asked ≡ some es)
        × (done : Requests) × (handle_all copies es q' ≡ some done)
        × (is_answered id done ≡ true)
        × (get id done.outputs ≡ some (outcome f ranks messages))
  answers_collected ranks messages q q' id asked own fine fit begun new unseen some_ranks few d all
        a =
      let es = replies f id asked in
      let counted : answers id es ≡ length ranks = answers-replies f id asked ∙ all in
      let (done, handled, ended, output) =
        begin_send_collects copies ranks messages q q' id es
          (replies-AllCopied copies f id asked d fit) begun new unseen some_ranks few
          (omega (arith, counted)) in
      (
        es,
        all_answer_lem id asked own d fine,
        done,
        handled,
        ground (arith, ended, counted, nat_beq_iff (length ranks) (length ranks)),
        ground (
          arith,
          output,
          counted,
          nat_beq_iff (length ranks) (length ranks),
          collect-outcome f id asked ranks messages d a,
        ),
      )

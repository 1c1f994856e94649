-- ===== src/AbstractNode/Requests/Answers.antt =====
-- When a request of even-http/ps/core/abstract_node.cc is answered, and with what.
use rpc.Common.{
  ℕ, suc, ◌+◌, ◌%◌, ◌≤◌, ◌<◌, ◌≡◌, refl, true, Bool, ap, ◌∙◌, ◌≢◌, inl, inr, Option, none, some,
  List, [], ◌∷◌, ◌++◌, length, if◌then◌else◌, nat_beq, nat_eq, Option-cases, arith,
}
use rpc.Common.Dict.{
  Dict, get, put, get_or, get-put, get-put_self, get-erase, get-subscript, subscript_present,
}
use rpc.Common.Words.{u32_mod, u64_mod}
use rpc.AbstractNode.Collective.{VectorPtr}
use rpc.AbstractNode.Requests.{
  Requests, add_message_track, begin_send, check_message_track, store_response, collect, call,
  run_message_callback, notify_message_arrival, handle_response, process_send_data_resp, is_copied,
  is_answered, tracked_of,
}
use native.Mathlib.Decide.{ℕ_discrete}
use native.Mathlib.Nat.{mod-eq_of_lt}

-- All that the maps hold of a request: its counts, its callback, the data so far, and its output.
abbrev Status : Type 0
Status = Option (ℕ × ℕ) × (Option (List ℕ) × (Option (Dict ℕ (List ℕ)) × Option (List VectorPtr)))

abbrev status : ℕ → Requests → Status
status id q = (
  get id q.message_tracker,
  (get id q.message_callbacks, (get id q.receive_messages, get id q.outputs)),
)

-- The three parts of a response's handling leave other requests alone.
module _ (id j : ℕ) (other : j ≢ id) (q : Requests) where
  process-other : (r : ℕ) (d : List ℕ) → status id (store_response j r d q) ≡ status id q
  unfolding store_response
  process-other r d =
      let res = put r d (get_or j [] q.receive_messages) in
      ground (arith, get-put j id res q.receive_messages)

  run-other : status id (run_message_callback j q) ≡ status id q
  unfolding run_message_callback check_message_track call get_or
  run-other = elim (Option-cases (get j q.message_callbacks)) [
    | inl gone ↦ ground (arith, gone, get-subscript j id (0, 0) q.message_tracker)
    | inr (ranks, there) ↦ ground (
      arith,
      there,
      get-subscript j id (0, 0) q.message_tracker,
      get-erase j id q.message_callbacks,
      get-erase j id q.receive_messages,
      get-put j id (get_or j [] q.outputs ++ collect ranks (get_or j [] q.receive_messages))
          q.outputs,
    )
  ]

  notify-other : status id (notify_message_arrival j q) ≡ status id q
  unfolding notify_message_arrival
  notify-other =
      let (expected, actual) = tracked_of j q in
      ground (arith, get-put j id (expected, (actual + 1) % u32_mod) q.message_tracker)

-- The handling of a response whose data have been copied.
unfoldable settle : ℕ → ℕ → List ℕ → Requests → Requests
settle request_id rank_id received q =
    notify_message_arrival request_id
      (run_message_callback request_id (store_response request_id rank_id received q))

settle-other :
    (id j r : ℕ) (d : List ℕ) (q : Requests) → j ≢ id → status id (settle j r d q) ≡ status id q
unfolding settle
settle-other id j r d q ne =
    let stored = store_response j r d q in
    notify-other id j ne (run_message_callback j stored)
    ∙ (run-other id j ne stored ∙ process-other id j ne q r d)

-- What they make of the request itself.
module _ (id : ℕ) (q : Requests) (ranks : List ℕ) (n k : ℕ) (out : Option (List VectorPtr)) where
  process-own :
      (r : ℕ) (d : List ℕ) (t : Option (ℕ × ℕ)) (cb : Option (List ℕ))
      (got : Option (Dict ℕ (List ℕ)))
      → status id q ≡ (t, (cb, (got, out)))
      → status id (store_response id r d q)
        ≡ (t, (cb, (some (put r d (elim got [ none ↦ [] | some m ↦ m ])), out)))
  unfolding store_response get_or
  process-own r d t cb got e =
      ground
        (arith, e, get-put_self id (put r d (get_or id [] q.receive_messages)) q.receive_messages)

  run_waits :
      (got : Option (Dict ℕ (List ℕ)))
      → status id q ≡ (some (n, k), (some ranks, (got, out)))
      → suc k < n
      → n < u32_mod
      → status id (run_message_callback id q) ≡ status id q
  unfolding run_message_callback check_message_track tracked_of get_or
  run_waits got e l b = ground (
    arith,
    e,
    mod-eq_of_lt {n = suc k} {m = u32_mod} (omega arith),
    subscript_present id (0, 0) (n, k) q.message_tracker,
  )

  run_calls :
      (m : Dict ℕ (List ℕ))
      → status id q ≡ (some (n, k), (some ranks, (some m, none)))
      → suc k ≡ n
      → n < u32_mod
      → status id (run_message_callback id q)
        ≡ (some (n, k), (none, (none, some (collect ranks m))))
  unfolding run_message_callback check_message_track call tracked_of get_or
  run_calls m e l b = ground (
    arith,
    e,
    mod-eq_of_lt {n = suc k} {m = u32_mod} (omega arith),
    subscript_present id (0, 0) (n, k) q.message_tracker,
    get-erase id id q.message_callbacks,
    get-erase id id q.receive_messages,
    get-put_self id (get_or id [] q.outputs ++ collect ranks (get_or id [] q.receive_messages))
        q.outputs,
  )

  notify-own :
      (rest : Option (List ℕ) × (Option (Dict ℕ (List ℕ)) × Option (List VectorPtr)))
      → status id q ≡ (some (n, k), rest)
      → suc k < u32_mod
      → status id (notify_message_arrival id q) ≡ (some (n, suc k), rest)
  unfolding notify_message_arrival tracked_of get_or
  notify-own rest e b = ground (
    arith,
    e,
    mod-eq_of_lt {n = suc k} {m = u32_mod} b,
    get-put_self id (n, suc k) q.message_tracker,
  )

-- Responses, oldest first: the request, the rank that answers, and its data.
abbrev pub Response : Type 0
Response = ℕ × (ℕ × List ℕ)

unfoldable settle_all : List Response → Requests → Requests
settle_all [] q = q
settle_all ((id, (r, d)) ∷ es) q = settle_all es (settle id r d q)

module _ (copies : ℕ → Bool) where
  unfoldable pub handle_all : List Response → Requests → Option Requests
  handle_all [] q = some q
  handle_all ((id, (r, d)) ∷ es) q = elim (handle_response copies id r d q) [
    | none ↦ none
    | some q' ↦ handle_all es q'
  ]

  -- memcpy_s copies the data of each response.
  abbrev pub AllCopied : List Response → Type 0
  AllCopied [] = Unit
  AllCopied ((id, (r, d)) ∷ es) = (is_copied copies d ≡ true) × AllCopied es

  handle_all-settle_all :
      (es : List Response) (q : Requests) → AllCopied es → handle_all es q ≡ some (settle_all es q)
  unfolding handle_all settle_all settle handle_response process_send_data_resp
  handle_all-settle_all [] q fine = refl
  handle_all-settle_all ((id, (r, d)) ∷ es) q (copied, fine) =
      ground (arith, copied, handle_all-settle_all es (settle id r d q) fine)

-- How many of them answer request `id`, and what they say.
abbrev pub answers : ℕ → List Response → ℕ
answers id [] = 0
answers id ((j, (r, d)) ∷ es) = if nat_beq j id then suc (answers id es) else answers id es

abbrev pub answered : ℕ → Dict ℕ (List ℕ) → List Response → Dict ℕ (List ℕ)
answered id m [] = m
answered id m ((j, (r, d)) ∷ es) =
    if nat_beq j id then answered id (put r d m) es else answered id m es

abbrev so_far : ℕ → Dict ℕ (List ℕ) → Option (Dict ℕ (List ℕ))
so_far k m = if nat_beq k 0 then none else some m

-- A request for `n` answers that has `k` of them.
abbrev waiting : ℕ → ℕ → List ℕ → Dict ℕ (List ℕ) → Status
waiting n k ranks m = (some (n, k), (some ranks, (so_far k m, none)))

abbrev finished : ℕ → List ℕ → Dict ℕ (List ℕ) → Status
finished n ranks m = (some (n, n), (none, (none, some (collect ranks m))))

module _ (id n : ℕ) (ranks : List ℕ) (fits : n < u32_mod) where
  settle-waits :
      (k r : ℕ) (d : List ℕ) (m : Dict ℕ (List ℕ)) (q : Requests)
      → status id q ≡ waiting n k ranks m
      → (k ≡ 0 → m ≡ [])
      → suc k < n
      → status id (settle id r d q) ≡ waiting n (suc k) ranks (put r d m)
  unfolding settle
  settle-waits k r d m q e z l =
      let stored = store_response id r d q in
      let held : status id stored ≡ (some (n, k), (some ranks, (some (put r d m), none))) =
        process-own id q ranks n k none r d (some (n, k)) (some ranks) (so_far k m) e
        ∙ ground (arith, z) in
      let ran = run_waits id stored ranks n k none (some (put r d m)) held l fits in
      notify-own id (run_message_callback id stored) ranks n k none
        (some ranks, (some (put r d m), none)) (ran ∙ held) (omega arith)
      ∙ ground arith

  settle-finishes :
      (k r : ℕ) (d : List ℕ) (m : Dict ℕ (List ℕ)) (q : Requests)
      → status id q ≡ waiting n k ranks m
      → (k ≡ 0 → m ≡ [])
      → suc k ≡ n
      → status id (settle id r d q) ≡ finished n ranks (put r d m)
  unfolding settle
  settle-finishes k r d m q e z l =
      let stored = store_response id r d q in
      let held : status id stored ≡ (some (n, k), (some ranks, (some (put r d m), none))) =
        process-own id q ranks n k none r d (some (n, k)) (some ranks) (so_far k m) e
        ∙ ground (arith, z) in
      let ran = run_calls id stored ranks n k none (put r d m) held l fits in
      notify-own id (run_message_callback id stored) ranks n k none
        (none, (none, some (collect ranks (put r d m)))) ran (omega arith)
      ∙ ap (λ t. (some (n, t), (none, (none, some (collect ranks (put r d m)))))) l

  after : ℕ → Dict ℕ (List ℕ) → Status
  after k m = if nat_beq k n then finished n ranks m else waiting n k ranks m

  settle_all-after :
      (es : List Response) (k : ℕ) (m : Dict ℕ (List ℕ)) (q : Requests)
      → status id q ≡ after k m
      → (k ≡ 0 → m ≡ [])
      → answers id es + k ≤ n
      → status id (settle_all es q) ≡ after (answers id es + k) (answered id m es)
  unfolding settle_all after
  settle_all-after [] k m q e z l = ground (arith, e)
  settle_all-after ((j, (r, d)) ∷ es) k m q e z l = elim (ℕ_discrete j id) [
    | no other ↦
        ground (arith, settle-other id j r d q other, settle_all-after es k m (settle j r d q))
    | yes own ↦ elim (ℕ_discrete (suc k) n) [
      | yes last ↦ ground (
        arith,
        settle-finishes k r d m q,
        settle_all-after es (suc k) (put r d m) (settle id r d q),
      )
      | no more ↦
          ground (
            arith,
            settle-waits k r d m q,
            settle_all-after es (suc k) (put r d m) (settle id r d q),
          )
    ]
  ]

-- A request that `Send` began for at least one rank and that nothing was known of before, after any
-- responses whose data memcpy_s copies and of which at most as many as it has ranks are its own: it counts as answered exactly when
-- there are that many, then its output is the ranks' data, in the order of the ranks (nothing for a
-- rank that did not answer, and the last data of one that answered twice), and before that it has no
-- output.
pub begin_send_collects :
    (copies : ℕ → Bool) (ranks : List ℕ) (messages : List (List ℕ)) (q q' : Requests) (id : ℕ)
    (es : List Response)
    → AllCopied copies es
    → begin_send ranks messages q ≡ some (q', id)
    → get id q.receive_messages ≡ none
    → get id q.outputs ≡ none
    → 0 < length ranks
    → length ranks < u32_mod
    → answers id es ≤ length ranks
    → (r : Requests) × (handle_all copies es q' ≡ some r)
      × (is_answered id r ≡ nat_beq (answers id es) (length ranks))
      × (get id r.outputs ≡ (
          if nat_beq (answers id es) (length ranks)
          then some (collect ranks (answered id [] es))
          else none))
unfolding begin_send add_message_track is_answered tracked_of get_or after
begin_send_collects copies ranks messages q q' id es copied e a b some_ranks fits l =
    let n = length ranks in
    let taken = (q.next_request_id + 1) % u64_mod in
    let start : status id q' ≡ after id n ranks fits 0 [] = ground (
      arith,
      e,
      mod-eq_of_lt {n = n} {m = u32_mod} fits,
      get-put_self taken (length messages % u32_mod, 0) q.message_tracker,
      get-put_self taken ranks q.message_callbacks,
    ) in
    let last = settle_all-after id n ranks fits es 0 [] q' start (λ z. refl) (omega arith) in
    (
      settle_all es q',
      handle_all-settle_all copies es q' copied,
      ground (arith, last),
      ground (arith, last),
    )

-- ===== src/Relay/Reads.antt =====
-- `conn_readcb` of libevent-example/message.cpp on what one client sends, cut into reads anywhere.
use rpc.Common.{
  concat, ℕ, zero, suc, ◌≤◌, ◌<◌, ◌≡◌, refl, sym, ap, subst, ◌∙◌, true, List, [], ◌∷◌, ◌++◌, length,
  ltb, arith, nat_eq, append_assoc, append-nil, length-append,
}
use native.Mathlib.Decide.{dec_lt}
use rpc.Relay.{
  Relay, max_packet_size, Outcome, ok, overflow, dangling, read_round, again, stops, after,
  read_loop, get_client_id, conn_readcb,
}
use rpc.Relay.Packets.{Packet, sent, stream, AllFit, length-wire, read_round-sent}
use rpc.Relay.Routing.{AllOpen, Routed, Routed-nil, pass-Routed, Routed-Routed}

-- Of two ways to cut a text, the one with the longer front goes on inside it.
front_extends :
    (a b xs ys : List ℕ)
    → xs ++ ys ≡ a ++ b
    → length a ≤ length xs
    → (rest : List ℕ) × (xs ≡ a ++ rest) × (rest ++ ys ≡ b)
front_extends [] b xs ys e l = (xs, refl, e)
front_extends (x ∷ a) b [] ys e l = absurd (omega arith)
front_extends (x ∷ a) b (z ∷ xs) ys e l =
    let (rest, f, g) = front_extends a b xs ys (ground arith) (omega arith) in
    (rest, ground (arith, f), g)

-- What the loop does with part of a stream of packets, and what it leaves.
pub record Passed (source : ℕ) (ps : List Packet) (future : List ℕ) (r : Relay) (o : Outcome)
    : Type 0 where
  pub done : List Packet
  pub left : List Packet
  pub rest : List ℕ
  pub relay : Relay
  pub parts : ps ≡ done ++ left
  pub result : o ≡ ok rest relay
  pub routed : Routed source done r relay
  pub pending : rest ++ future ≡ stream left
  pub short : length rest < 256

read_round_waits :
    (source : ℕ) (input : List ℕ) (r : Relay)
    → length input < 256
    → read_round source input r ≡ stops (ok input r)
unfolding read_round
read_round_waits source input r l =
    let short : ltb (length input) max_packet_size ≡ true = ground arith in rw short refl

ok-Passed :
    (source : ℕ) (input future : List ℕ) (ps : List Packet) (r : Relay)
    → length input < 256
    → input ++ future ≡ stream ps
    → AllOpen r
    → Passed source ps future r (ok input r)
ok-Passed source input future ps r l e all = record {
  done = [];
  left = ps;
  rest = input;
  relay = r;
  parts = refl;
  result = refl;
  routed = Routed-nil source r all;
  pending = e;
  short = l;
}

Passed-cons :
    (source : ℕ) (p : Packet) (ps : List Packet) (future : List ℕ) (r t : Relay) (o : Outcome)
    → Routed source (p ∷ []) r t
    → Passed source ps future t o
    → Passed source (p ∷ ps) future r o
Passed-cons source p ps future r t o a b = record {
  done = p ∷ b.done;
  left = b.left;
  rest = b.rest;
  relay = b.relay;
  parts = ap (◌∷◌ p) b.parts;
  result = b.result;
  routed = Routed-Routed source (p ∷ []) b.done r t b.relay a b.routed;
  pending = b.pending;
  short = b.short;
}

read_loop_waits :
    (fuel source : ℕ) (input : List ℕ) (r : Relay)
    → length input < 256
    → read_loop fuel source input r ≡ ok input r
unfolding read_loop
read_loop_waits zero source input r l = refl
read_loop_waits (suc fuel) source input r l = ground (arith, read_round_waits source input r l)

read_loop_next :
    (fuel source : ℕ) (input rest : List ℕ) (r t : Relay)
    → read_round source input r ≡ again rest t
    → read_loop (suc fuel) source input r ≡ read_loop fuel source rest t
unfolding read_loop
read_loop_next fuel source input rest r t e = ground (arith, e)

AllFit-append : (ps qs : List Packet) → AllFit (ps ++ qs) → AllFit qs
AllFit-append [] qs f = f
AllFit-append (p ∷ ps) qs (f, fs) = AllFit-append ps qs fs

read_loop-Passed :
    (fuel source : ℕ) (input future : List ℕ) (ps : List Packet) (r : Relay)
    → length input ≤ fuel
    → AllFit ps
    → input ++ future ≡ stream ps
    → AllOpen r
    → Passed source ps future r (read_loop fuel source input r)
read_loop-Passed fuel source input future [] r l fit e all =
    let few : length input < 256 = omega (arith, length-append input future, ap length e) in
    subst (Passed source [] future r) (sym (read_loop_waits fuel source input r few))
      (ok-Passed source input future [] r few e all)
read_loop-Passed zero source input future (p ∷ ps) r l fit e all =
    subst (Passed source (p ∷ ps) future r)
      (sym (read_loop_waits zero source input r (omega arith)))
      (ok-Passed source input future (p ∷ ps) r (omega arith) e all)
read_loop-Passed (suc fuel) source input future (p ∷ ps) r l (fit, fits) e all =
    elim (dec_lt (length input) 256) [
      | yes few ↦
          subst (Passed source (p ∷ ps) future r)
            (sym (read_loop_waits (suc fuel) source input r few))
            (ok-Passed source input future (p ∷ ps) r few e all)
      | no enough ↦
          let size = length-wire p.claimed_source p in
          let (rest, front, back) =
            front_extends (sent p) (stream ps) input future e (omega arith) in
          let (t, passes, routed) = pass-Routed source p r all in
          let turn : read_round source input r ≡ again rest t =
            ap (λ k. read_round source k r) front
            ∙ read_round-sent source p rest r fit (rw (← front) (omega arith))
            ∙ ap (after rest) passes in
          let less : length rest ≤ fuel =
            omega (arith, ap length front, length-append (sent p) rest) in
          subst (Passed source (p ∷ ps) future r)
            (sym (read_loop_next fuel source input rest r t turn))
            (Passed-cons source p ps future r t (read_loop fuel source rest t) routed
              (read_loop-Passed fuel source rest future ps t less fits back routed.all_open))
    ]

-- The reads of one client: each finds what the one before has left, and what has come in since.
unfoldable pub relay_all : ℕ → List ℕ → List (List ℕ) → Relay → Outcome
unfolding conn_readcb
relay_all bev left [] r = ok left r
relay_all bev left (c ∷ cs) r = elim (conn_readcb bev (left ++ c) r) [
  | ok rest t ↦ relay_all bev rest cs t
  | overflow ↦ overflow
  | dangling ↦ dangling
]

relay_all-Passed :
    (bev : ℕ) (left : List ℕ) (cs : List (List ℕ)) (ps : List Packet) (r : Relay)
    → length left < 256
    → AllFit ps
    → left ++ concat cs ≡ stream ps
    → AllOpen r
    → Passed (get_client_id bev r.client_map) ps [] r (relay_all bev left cs r)
unfolding relay_all conn_readcb
relay_all-Passed bev left [] ps r few fit e all =
    ok-Passed (get_client_id bev r.client_map) left [] ps r few e all
relay_all-Passed bev left (c ∷ cs) ps r few fit e all =
    let source = get_client_id bev r.client_map in
    let a =
      read_loop-Passed (length (left ++ c)) source (left ++ c) (concat cs) ps r (omega arith) fit
        (append_assoc left c (concat cs) ∙ e) all in
    let b =
      relay_all-Passed bev a.rest cs a.left a.relay a.short
        (AllFit-append a.done a.left (subst AllFit a.parts fit)) a.pending a.routed.all_open in
    record {
      done = a.done ++ b.done;
      left = b.left;
      rest = b.rest;
      relay = b.relay;
      parts = a.parts ∙ ap (a.done ++◌) b.parts ∙ sym (append_assoc a.done b.done b.left);
      result = ground (arith, a.result, b.result);
      routed = Routed-Routed source a.done b.done r a.relay b.relay a.routed (
          subst (λ m. Routed (get_client_id bev m) b.done a.relay b.relay) a.routed.same_map
            b.routed);
      pending = b.pending;
      short = b.short;
    }

-- A client's packets of at most 256 bytes each, cut into reads anywhere, while no client with an id has
-- been freed: a first part of them is passed on in order, each to the client that it names and to no
-- other, with the id of the sender put in, and a packet for nobody is dropped. Nothing is written
-- outside `msg` or to a freed client. What is not passed on stays in the input, fewer than 256 bytes.
pub relay_all-stream :
    (bev : ℕ) (cs : List (List ℕ)) (ps : List Packet) (r : Relay)
    → AllFit ps
    → concat cs ≡ stream ps
    → AllOpen r
    → (done : List Packet) × (left : List Packet) × (t : Relay) × (ps ≡ done ++ left)
      × (relay_all bev [] cs r ≡ ok (stream left) t)
      × Routed (get_client_id bev r.client_map) done r t
      × (length (stream left) < 256)
relay_all-stream bev cs ps r fit cut all =
    let a = relay_all-Passed bev [] cs ps r (omega arith) fit cut all in
    let same : a.rest ≡ stream a.left = sym (append-nil a.rest) ∙ a.pending in
    (
      a.done,
      a.left,
      a.relay,
      a.parts,
      a.result ∙ ap (λ b. ok b a.relay) same,
      a.routed,
      subst (λ b. length b < 256) same a.short,
    )

-- ===== src/EventTcp/Server/Streams.antt =====
-- The reads of many clients by event-tcp/proto_server.cpp, in any order: each client's messages come
-- to the callback as if it were alone.
use rpc.Common.{
  concat, ℕ, ◌≡◌, refl, sym, ap, subst, ◌∙◌, Bool, true, false, Option, none, some, List, [], ◌∷◌,
  ◌++◌, map, length, if◌then◌else◌, arith, nat_beq, Bool-cases, inl, inr, nat_eq, append_assoc,
  append-nil,
}
use rpc.Common.Dict.{get}
use rpc.EventTcp.{MsgParser, Arrival, message}
use rpc.EventTcp.Parser.{parse_all, parse-Drains}
use rpc.EventTcp.Logs.{some_inj, clean, parse_all-clean}
use rpc.EventTcp.RoundTrip.{stream, AllFit, IsIdle, parse_all-stream}
use rpc.EventTcp.Server.{
  MsgConnection, MsgServer, ServerCall, received, disconnected, read_callback,
}
use rpc.EventTcp.Server.Reads.{parsed, After, IsReady, parsed-IsReady, read_loop-After}

-- The reads of all clients, in the order in which they come in.
unfoldable pub read_all : List (ℕ × List ℕ) → MsgServer → Option MsgServer
unfolding read_callback
read_all [] s = some s
read_all ((p, input) ∷ reads) s = elim (read_callback p input s) [
  | none ↦ none
  | some t ↦ read_all reads t
]

abbrev pub reads_of : ℕ → List (ℕ × List ℕ) → List (List ℕ)
reads_of k [] = []
reads_of k ((p, input) ∷ reads) =
    let rest = reads_of k reads in if nat_beq p k then input ∷ rest else rest

-- What the message callback was given for a connection.
abbrev pub received_of : ℕ → List ServerCall → List Arrival
received_of k [] = []
received_of k (disconnected p ∷ calls) = received_of k calls
received_of k (received p a ∷ calls) =
    let rest = received_of k calls in if nat_beq p k then a ∷ rest else rest

received_of-append :
    (k : ℕ) (xs ys : List ServerCall)
    → received_of k (xs ++ ys) ≡ received_of k xs ++ received_of k ys
received_of-append k [] ys = refl
received_of-append k (disconnected p ∷ xs) ys = received_of-append k xs ys
received_of-append k (received p a ∷ xs) ys = ground (arith, received_of-append k xs ys)

received_of-map :
    (k p : ℕ) (as' : List Arrival)
    → received_of k (map (λ a. received p a) as') ≡ (if nat_beq p k then as' else [])
received_of-map k p [] = ground arith
received_of-map k p (a ∷ as') = ground (arith, received_of-map k p as')

received_of-After :
    (k p : ℕ) (d : MsgConnection) (as' : List Arrival) (s t : MsgServer)
    → After p d as' s t
    → received_of k t.calls ≡ received_of k s.calls ++ (if nat_beq p k then as' else [])
received_of-After k p d as' s t a =
    ap (received_of k) a.calls
    ∙ received_of-append k s.calls (map (λ x. received p x) as')
    ∙ ap (received_of k s.calls ++◌) (received_of-map k p as')

-- Every read is of a connection whose object is there and ready.
abbrev pub AllReady : MsgServer → Type 0
AllReady s = (p : ℕ) (c : MsgConnection) → get p s.objects ≡ some c → IsReady c

abbrev pub AllKnown : List (ℕ × List ℕ) → MsgServer → Type 0
AllKnown [] s = Unit
AllKnown ((p, input) ∷ reads) s =
    ((c : MsgConnection) × (get p s.objects ≡ some c)) × AllKnown reads s

AllKnown-After :
    (reads : List (ℕ × List ℕ)) (p : ℕ) (d : MsgConnection) (as' : List Arrival) (s t : MsgServer)
    → After p d as' s t
    → AllKnown reads s
    → AllKnown reads t
AllKnown-After [] p d as' s t a known = tt
AllKnown-After ((k, input) ∷ reads) p d as' s t a ((c, there), known) =
    (one (nat_beq p k) (a.objects k), AllKnown-After reads p d as' s t a known)
  where
    one :
        (b : Bool)
        → get k t.objects ≡ (if b then some d else get k s.objects)
        → (e : MsgConnection) × (get k t.objects ≡ some e)
    one true h = (d, h)
    one false h = (c, h ∙ there)

AllReady-After :
    (p : ℕ) (d : MsgConnection) (as' : List Arrival) (s t : MsgServer)
    → After p d as' s t
    → IsReady d
    → AllReady s
    → AllReady t
AllReady-After p d as' s t a new all k c there = elim (Bool-cases (nat_beq p k)) [
  | inl same ↦ let here : d ≡ c = ground (arith, a.objects k) in subst IsReady here new
  | inr other ↦ all k c (ground (arith, a.objects k))
]

read_all-parse_all :
    (reads : List (ℕ × List ℕ)) (s : MsgServer) (k : ℕ) (c : MsgConnection) (q : MsgParser)
    → s.has_message_cb ≡ true
    → AllReady s
    → AllKnown reads s
    → get k s.objects ≡ some c
    → parse_all (clean c.parser) (reads_of k reads) ≡ some q
    → (t : MsgServer) × (read_all reads s ≡ some t)
      × (received_of k t.calls ≡ received_of k s.calls ++ q.arrived)
      × ((d : MsgConnection) × (get k t.objects ≡ some d) × (clean d.parser ≡ clean q))
unfolding read_all read_callback parse_all
read_all-parse_all [] s k c q listens all known there e =
    let same = some_inj (clean c.parser) q e in
    (
      s,
      refl,
      sym (append-nil (received_of k s.calls)) ∙ ap (λ p. received_of k s.calls ++ p.arrived) same,
      (c, there, ap clean same),
    )
read_all-parse_all ((p, input) ∷ reads) s k c q listens all ((b, stored), known) there e =
    elim (Bool-cases (nat_beq p k)) [
      | inl same ↦
          let (r, f, _) = parse-Drains (clean c.parser) input in
          let at : get p s.objects ≡ some c = ground arith in
          let (t, run, a) =
            read_loop-After (length input) p input s c r (omega arith) listens at (all p c at) f in
          let later : parse_all r (reads_of k reads) ≡ some q = ground (arith, f) in
          let (v, g, joined) = parse_all-clean (reads_of k reads) r q later in
          let (u, run', got, (d, here, left)) =
            read_all-parse_all reads t k (parsed c r) v a.listens
              (AllReady-After p (parsed c r) r.arrived s t a
                (parsed-IsReady c (clean c.parser) r input f) all)
              (AllKnown-After reads p (parsed c r) r.arrived s t a known)
              (ground (arith, a.objects k)) g in
          (
            u,
            ground (arith, run, run'),
            ground (
              arith,
              got,
              received_of-After k p (parsed c r) r.arrived s t a,
              append_assoc (received_of k s.calls) r.arrived v.arrived,
              joined,
            ),
            (d, here, left ∙ sym (ap clean joined)),
          )
      | inr other ↦
          let (r, f, _) = parse-Drains (clean b.parser) input in
          let (t, run, a) =
            read_loop-After (length input) p input s b r (omega arith) listens stored
              (all p b stored) f in
          let (u, run', got, (d, here, left)) =
            read_all-parse_all reads t k c q a.listens
              (AllReady-After p (parsed b r) r.arrived s t a
                (parsed-IsReady b (clean b.parser) r input f) all)
              (AllKnown-After reads p (parsed b r) r.arrived s t a known)
              (ground (arith, a.objects k)) (ground arith) in
          (
            u,
            ground (arith, run, run'),
            ground (
              arith,
              got,
              received_of-After k p (parsed b r) r.arrived s t a,
              append-nil (received_of k s.calls),
            ),
            (d, here, left),
          )
    ]

-- Messages of fewer than 2 ^ 32 - 1 bytes each that a client sends by `send_msg`, cut into reads
-- anywhere, with the reads of other clients in between, reach the message callback of the server with
-- that client's connection, whole, in order and nothing else with it, and leave its parser between two
-- messages. Each read is of a connection that is there, and all start out waiting for bytes.
pub server_read_all-stream :
    (reads : List (ℕ × List ℕ)) (s : MsgServer) (k : ℕ) (c : MsgConnection) (ms : List (List ℕ))
    → s.has_message_cb ≡ true
    → AllReady s
    → AllKnown reads s
    → get k s.objects ≡ some c
    → IsIdle c.parser
    → c.parser.has_callback ≡ true
    → concat (reads_of k reads) ≡ stream ms
    → AllFit ms
    → (t : MsgServer) × (read_all reads s ≡ some t)
      × (received_of k t.calls ≡ received_of k s.calls ++ map message ms)
      × ((d : MsgConnection) × (get k t.objects ≡ some d) × IsIdle d.parser)
server_read_all-stream reads s k c ms listens all known there idle calls cut fit =
    let (q, e, idle', log) =
      parse_all-stream ms (reads_of k reads) (clean c.parser) cut fit
        (record { no_bytes = idle.no_bytes; no_header = idle.no_header }) calls in
    let (t, run, got, (d, here, left)) =
      read_all-parse_all reads s k c q listens all known there e in
    (
      t,
      run,
      got ∙ ap (received_of k s.calls ++◌) log,
      (
        d,
        here,
        record {
          no_bytes = ground (arith, idle'.no_bytes);
          no_header = ground (arith, idle'.no_header);
        },
      ),
    )

-- ===== src/EventTcp/Client/Messages.antt =====
-- The messages that come to `msgclient` of event-tcp/proto_client.cpp.
use rpc.Common.{
  concat, ℕ, ◌≡◌, refl, sym, ap, ◌∙◌, true, Option, none, some, List, [], ◌∷◌, ◌++◌, map, arith,
  append_assoc, append-nil,
}
use rpc.EventTcp.{MsgParser, Arrival, message, bad_magic}
use rpc.EventTcp.Parser.{parse_all, parse-Drains}
use rpc.EventTcp.Logs.{some_inj, clean, parse_all-clean}
use rpc.EventTcp.RoundTrip.{stream, AllFit, IsIdle, parse_all-stream}
use rpc.EventTcp.Client.{MsgClient, received, stop, on_arrival, on_arrivals, on_read_handler, log}

on_arrivals-append :
    (a b : List Arrival) (c : MsgClient) → on_arrivals (a ++ b) c ≡ on_arrivals b (on_arrivals a c)
unfolding on_arrivals
on_arrivals-append [] b c = refl
on_arrivals-append (x ∷ a) b c = on_arrivals-append a b (on_arrival x c)

-- Nothing but the log, and on an error the connection, changes in the callback.
on_arrivals-parser : (a : List Arrival) (c : MsgClient) → (on_arrivals a c).parser ≡ c.parser
unfolding on_arrivals on_arrival log stop
on_arrivals-parser [] c = refl
on_arrivals-parser (message m ∷ a) c =
    on_arrivals-parser a (on_arrival (message m) c) ∙ ground arith
on_arrivals-parser (bad_magic ∷ a) c = on_arrivals-parser a (on_arrival bad_magic c) ∙ ground arith

-- The reads of a client, one after the other.
unfoldable pub read_all : MsgClient → List (List ℕ) → Option MsgClient
unfolding on_read_handler
read_all c [] = some c
read_all c (x ∷ xs) = elim (on_read_handler x c) [ none ↦ none | some d ↦ read_all d xs ]

on_arrivals_messages :
    (ms : List (List ℕ)) (c : MsgClient)
    → c.has_message_cb ≡ true
    → on_arrivals (map message ms) c
      ≡ record c { calls = c.calls ++ map (λ m. received (message m)) ms }
unfolding on_arrivals on_arrival log
on_arrivals_messages [] c h = ground (arith, append-nil c.calls)
on_arrivals_messages (m ∷ ms) c h =
    let d : MsgClient = record c { calls = c.calls ++ received (message m) ∷ [] } in
    let first : on_arrival (message m) c ≡ d = ground arith in
    ap (on_arrivals (map message ms)) first
    ∙ on_arrivals_messages ms d h
    ∙ ground (
      arith,
      append_assoc c.calls (received (message m) ∷ []) (map (λ k. received (message k)) ms),
    )

abbrev set_parser : MsgParser → MsgClient → MsgClient
set_parser p c = record c { parser = p }

on_arrivals-set_parser :
    (a : List Arrival) (p : MsgParser) (c : MsgClient)
    → on_arrivals a (set_parser p c) ≡ set_parser p (on_arrivals a c)
unfolding on_arrivals on_arrival log stop
on_arrivals-set_parser [] p c = refl
on_arrivals-set_parser (x ∷ a) p c =
    ap (on_arrivals a) (once x) ∙ on_arrivals-set_parser a p (on_arrival x c)
  where
    once : (x : Arrival) → on_arrival x (set_parser p c) ≡ set_parser p (on_arrival x c)
    once (message m) = ground arith
    once bad_magic = ground arith

-- The client's part in a sequence of reads.
read_all-parse_all :
    (cs : List (List ℕ)) (c : MsgClient) (q : MsgParser)
    → parse_all (clean c.parser) cs ≡ some q
    → (d : MsgClient) × (read_all c cs ≡ some d)
      × (clean d.parser ≡ clean q)
      × ((k : MsgParser) → set_parser k d ≡ set_parser k (on_arrivals q.arrived c))
unfolding read_all parse_all on_read_handler
read_all-parse_all [] c q e =
    let same = some_inj (clean c.parser) q e in
    (c, refl, ap clean same, λ k. ap (λ p. set_parser k (on_arrivals p.arrived c)) same)
read_all-parse_all (x ∷ cs) c q e =
    let (r, f, _) = parse-Drains (clean c.parser) x in
    let c1 = on_arrivals r.arrived (set_parser r c) in
    let (q1, g, same) = parse_all-clean cs r q (ground (arith, f)) in
    let keeps : c1.parser ≡ r = on_arrivals-parser r.arrived (set_parser r c) in
    let (d, h, left, logs) = read_all-parse_all cs c1 q1 (rw keeps g) in
    (
      d,
      ground (arith, f, h),
      left ∙ sym (ap clean same),
      λ k.
          logs k
          ∙ ap (λ e. set_parser k (on_arrivals q1.arrived e)) (on_arrivals-set_parser r.arrived r c)
          ∙ ap (set_parser k) (on_arrivals-set_parser q1.arrived r (on_arrivals r.arrived c))
          ∙ ap (set_parser k) (sym (on_arrivals-append r.arrived q1.arrived c))
          ∙ ap (λ p. set_parser k (on_arrivals p.arrived c)) (sym same),
    )

-- Messages of fewer than 2 ^ 32 - 1 bytes each, sent by `send_msg` and cut into reads anywhere, reach
-- the message callback of a client whose parser is between two messages, whole, in order and nothing
-- else. No other callback is called, and the parser is between two messages again.
pub read_all-stream :
    (ms cs : List (List ℕ)) (c : MsgClient)
    → concat cs ≡ stream ms
    → AllFit ms
    → IsIdle c.parser
    → c.parser.has_callback ≡ true
    → c.has_message_cb ≡ true
    → (d : MsgClient) × (read_all c cs ≡ some d)
      × IsIdle d.parser
      × (d.calls ≡ c.calls ++ map (λ m. received (message m)) ms)
read_all-stream ms cs c cut fit idle listens answers =
    let (q, e, idle', log) =
      parse_all-stream ms cs (clean c.parser) cut fit
        (record { no_bytes = idle.no_bytes; no_header = idle.no_header }) listens in
    let (d, f, left, calls) = read_all-parse_all cs c q e in
    (
      d,
      f,
      record {
        no_bytes = ground (arith, idle'.no_bytes);
        no_header = ground (arith, idle'.no_header);
      },
      ap (λ k. k.calls) (calls q)
          ∙ ap (λ a. (on_arrivals a c).calls) log
          ∙ ap (λ k. k.calls) (on_arrivals_messages ms c answers),
    )

-- ===== src/EventTcp/Logs.antt =====
-- The parser of event-tcp/proto_utils.cpp does not read the log of what has arrived.
use rpc.Common.{
  ℕ, ◌≡◌, refl, sym, ap, subst, ◌∙◌, some, List, [], ◌∷◌, ◌++◌, take, arith, append_assoc,
  append-nil,
}
use rpc.EventTcp.{
  MsgParser, Arrival, message, bad_magic, parse, goes_on, parse_round, take_header, take_body,
  call_back,
}
use rpc.EventTcp.Parser.{Drains, stops, again, Drains-parse, parse_all, parse-Drains}

-- The parser that has logged something before.
abbrev pub logged : List Arrival → MsgParser → MsgParser
logged a p = record p { arrived = a ++ p.arrived }

parse_round-logged :
    (a : List Arrival) (p : MsgParser) → parse_round (logged a p) ≡ logged a (parse_round p)
unfolding parse_round take_header take_body call_back
parse_round-logged a p = ground (
  arith,
  append_assoc a p.arrived (bad_magic ∷ []),
  append_assoc a p.arrived (message (take p.header_length p.buffer) ∷ []),
)

Drains-logged : {p q : MsgParser} (a : List Arrival) → Drains p q → Drains (logged a p) (logged a q)
unfolding goes_on
Drains-logged a (stops g) = stops g
Drains-logged {p = p} {q = q} a (again g d) =
    again g (subst (λ k. Drains k (logged a q)) (sym (parse_round-logged a p)) (Drains-logged a d))

pub some_inj : (a b : MsgParser) → some a ≡ some b → a ≡ b
some_inj a b h = ground arith

-- What a parser does, does not depend on what it has logged.
pub parse-logged :
    (a : List Arrival) (p q : MsgParser) (bytes : List ℕ)
    → parse p bytes ≡ some q
    → parse (logged a p) bytes ≡ some (logged a q)
parse-logged a p q bytes e =
    let (r, f, d) = parse-Drains p bytes in
    let same : r ≡ q = some_inj r q (sym f ∙ e) in
    Drains-parse (logged a p) (logged a r) bytes (Drains-logged a d)
    ∙ ap (λ k. some (logged a k)) same

parse_all-logged :
    (a : List Arrival) (cs : List (List ℕ)) (p q : MsgParser)
    → parse_all p cs ≡ some q
    → parse_all (logged a p) cs ≡ some (logged a q)
unfolding parse_all
parse_all-logged a [] p q e = ap (λ k. some (logged a k)) (some_inj p q e)
parse_all-logged a (c ∷ cs) p q e =
    let (p', f, _) = parse-Drains p c in
    let rest : parse_all p' cs ≡ some q = ground (arith, f) in
    ground (arith, parse-logged a p p' c f, parse_all-logged a cs p' q rest)

abbrev pub clean : MsgParser → MsgParser
clean p = record p { arrived = [] }

parse_all_total : (cs : List (List ℕ)) (p : MsgParser) → (q : MsgParser) × (parse_all p cs ≡ some q)
unfolding parse_all
parse_all_total [] p = (p, refl)
parse_all_total (c ∷ cs) p =
    let (p', f, _) = parse-Drains p c in
    let (q, e) = parse_all_total cs p' in (q, ground (arith, f, e))

pub parse_all-clean :
    (cs : List (List ℕ)) (p q : MsgParser)
    → parse_all p cs ≡ some q
    → (r : MsgParser) × (parse_all (clean p) cs ≡ some r) × (q ≡ logged p.arrived r)
parse_all-clean cs p q e =
    let (r, f) = parse_all_total cs (clean p) in
    let g : parse_all p cs ≡ some (logged p.arrived r) =
      subst (λ a. parse_all (record p { arrived = a }) cs ≡ some (logged p.arrived r))
        (append-nil p.arrived) (parse_all-logged p.arrived cs (clean p) r f) in
    (r, f, some_inj q (logged p.arrived r) (sym e ∙ g))

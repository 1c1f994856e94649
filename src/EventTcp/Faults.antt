-- ===== src/EventTcp/Faults.antt =====
-- The headers that `msgparser::parse` of event-tcp/proto_utils.cpp does not take as the sender means
-- them.
use rpc.Common.{
  ℕ, ◌<◌, ◌%◌, ◌≡◌, ◌≢◌, refl, sym, ap, subst, ◌∙◌, true, some, List, [], ◌∷◌, ◌++◌, length, arith,
  nat_beq_iff, append_assoc, append-nil,
}
use rpc.Common.Words.{u32_mod}
use rpc.EventTcp.{
  MsgParser, message, bad_magic, magic, no_length, read_be, goes_on, call_back, take_header,
  parse_round, parse, to_be, header_bytes,
}
use rpc.EventTcp.Parser.{Drains, again, stops, extend, parse-Drains, Drains-parse}
use rpc.EventTcp.RoundTrip.{IsIdle, idle_stops, read_be-to_be, round_header, round_body}

-- Between two messages, a header that gives a length of 2 ^ 32 - 1 modulo 2 ^ 32 is dropped: the
-- bytes of its message are read as the headers and messages that follow.
pub parse_reserved_length :
    (p : MsgParser) (num : ℕ) (bytes : List ℕ)
    → IsIdle p
    → num % u32_mod ≡ no_length
    → parse p (header_bytes num ++ bytes) ≡ parse (record p { header_magic = magic }) bytes
parse_reserved_length p num bytes idle e =
    let sent : MsgParser = record p { buffer = header_bytes num ++ bytes } in
    let opened : MsgParser = record p {
      header_magic = magic;
      header_length = num % u32_mod;
      buffer = bytes;
    } in
    let (g, r) = round_header sent num bytes idle.no_header refl in
    let (q, got, d) = parse-Drains (record p { header_magic = magic }) bytes in
    let same : opened ≡ extend (record p { header_magic = magic }) bytes =
      rw (e, idle.no_header, idle.no_bytes) refl in
    let all : Drains (extend p (header_bytes num ++ bytes)) q =
      subst (λ b. Drains (record p { buffer = b ++ (header_bytes num ++ bytes) }) q)
        (sym idle.no_bytes) (again g (subst (λ k. Drains k q) (sym (r ∙ same)) d)) in
    Drains-parse p q (header_bytes num ++ bytes) all ∙ sym got

round_bad_header :
    (p : MsgParser) (word num : ℕ) (rest : List ℕ)
    → p.header_length ≡ no_length
    → p.has_callback ≡ true
    → word < u32_mod
    → num < u32_mod
    → word ≢ magic
    → p.buffer ≡ to_be word ++ (to_be num ++ rest)
    → (goes_on p ≡ true)
      × (parse_round p ≡ record p {
        header_magic = word;
        header_length = num;
        buffer = rest;
        arrived = p.arrived ++ bad_magic ∷ [];
      })
unfolding goes_on parse_round take_header call_back to_be read_be
round_bad_header p word num rest e c w n other b =
    ground (arith, read_be-to_be word, read_be-to_be num, nat_beq_iff word magic)

-- Between two messages, a header with another magic word is reported to the callback, and its message
-- is delivered all the same.
pub parse_bad_magic :
    (p : MsgParser) (word : ℕ) (bytes : List ℕ)
    → IsIdle p
    → p.has_callback ≡ true
    → word < u32_mod
    → word ≢ magic
    → length bytes < no_length
    → parse p (to_be word ++ (to_be (length bytes) ++ bytes))
      ≡ some (record p { header_magic = 0; arrived = p.arrived ++ bad_magic ∷ message bytes ∷ [] })
parse_bad_magic p word bytes idle c w other small =
    let sent = to_be word ++ (to_be (length bytes) ++ bytes) in
    let opened : MsgParser = record p {
      header_magic = word;
      header_length = length bytes;
      buffer = bytes;
      arrived = p.arrived ++ bad_magic ∷ [];
    } in
    let done : MsgParser = record p {
      header_magic = 0;
      buffer = [];
      header_length = no_length;
      arrived = (p.arrived ++ bad_magic ∷ []) ++ message bytes ∷ [];
    } in
    let (g, r) = round_body opened bytes [] c small refl (sym (append-nil bytes)) in
    let (g', r') =
      round_bad_header (extend p sent) word (length bytes) bytes idle.no_header c w (omega arith)
        other (rw idle.no_bytes refl) in
    let last : Drains done done = stops (idle_stops done refl refl) in
    Drains-parse p done sent (
      again g'
        (subst (λ k. Drains k done) (sym r') (again g (subst (λ k. Drains k done) (sym r) last))))
    ∙ ap some (
        rw
          (
            idle.no_header,
            idle.no_bytes,
            append_assoc p.arrived (bad_magic ∷ []) (message bytes ∷ []),
          )
          refl)

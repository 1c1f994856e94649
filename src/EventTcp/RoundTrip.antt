-- ===== src/EventTcp/RoundTrip.antt =====
-- What `send_msg` of event-tcp/proto_client.cpp and proto_server.cpp writes, `msgparser::parse` of
-- event-tcp/proto_utils.cpp reads.
use rpc.Common.{
  concat, ℕ, ◌%◌, ◌<◌, ◌≡◌, refl, sym, subst, ◌∙◌, Bool, true, false, some, List, [], ◌∷◌, ◌++◌,
  length, map, arith, length-append, append-nil, append_assoc, take-length_append,
  drop-length_append,
}
use rpc.Common.Words.{u32_mod}
use native.Mathlib.Nat.{mod-eq_of_lt}
use rpc.EventTcp.{
  MsgParser, message, magic, no_length, read_be, goes_on, call_back, take_header, take_body,
  parse_round, init, to_be, header_bytes, frame,
}
use rpc.EventTcp.Parser.{Drains, stops, again, extend, parse_all, parse_all-concat}

pub read_be-to_be : (x : ℕ) → x < u32_mod → read_be 0 (to_be x) ≡ x
unfolding read_be to_be
read_be-to_be x l = omega arith

-- Between two messages.
pub record IsIdle (p : MsgParser) : Type 0 where
  pub no_bytes : p.buffer ≡ []
  pub no_header : p.header_length ≡ no_length

pub init-IsIdle : (b : Bool) → IsIdle (init b)
init-IsIdle b = record { no_bytes = refl; no_header = refl }

pub idle_stops : (p : MsgParser) → p.header_length ≡ no_length → p.buffer ≡ [] → goes_on p ≡ false
unfolding goes_on
idle_stops p e b = ground arith

-- A header with its magic word right, and what follows it.
pub round_header :
    (p : MsgParser) (num : ℕ) (rest : List ℕ)
    → p.header_length ≡ no_length
    → p.buffer ≡ header_bytes num ++ rest
    → (goes_on p ≡ true)
      × (parse_round p
          ≡ record p { header_magic = magic; header_length = num % u32_mod; buffer = rest })
unfolding goes_on parse_round take_header header_bytes to_be read_be
round_header p num rest e b = ground (arith, read_be-to_be (num % u32_mod))

-- The bytes of the message.
pub round_body :
    (p : MsgParser) (bytes rest : List ℕ)
    → p.has_callback ≡ true
    → length bytes < no_length
    → p.header_length ≡ length bytes
    → p.buffer ≡ bytes ++ rest
    → (goes_on p ≡ true)
      × (parse_round p ≡ record p {
        header_magic = 0;
        header_length = no_length;
        buffer = rest;
        arrived = p.arrived ++ message bytes ∷ [];
      })
unfolding goes_on parse_round take_body call_back
round_body p bytes rest c small e b =
    ground (
      arith,
      length-append bytes rest,
      take-length_append bytes rest,
      drop-length_append bytes rest,
    )

abbrev pub stream : List (List ℕ) → List ℕ
stream [] = []
stream (m ∷ ms) = frame m ++ stream ms

-- The lengths that a header can tell from no header.
abbrev pub AllFit : List (List ℕ) → Type 0
AllFit [] = Unit
AllFit (m ∷ ms) = (length m < no_length) × AllFit ms

stream-Drains :
    (ms : List (List ℕ)) (p : MsgParser)
    → AllFit ms
    → p.has_callback ≡ true
    → p.header_length ≡ no_length
    → p.buffer ≡ stream ms
    → (q : MsgParser) × Drains p q × IsIdle q × (q.arrived ≡ p.arrived ++ map message ms)
unfolding frame
stream-Drains [] p f c e b = (
  p,
  stops (idle_stops p e b),
  record { no_bytes = b; no_header = e },
  sym (append-nil p.arrived),
)
stream-Drains (m ∷ ms) p (f, fs) c e b =
    let opened : MsgParser = record p {
      header_magic = magic;
      header_length = length m;
      buffer = m ++ stream ms;
    } in
    let done : MsgParser = record p {
      header_magic = 0;
      header_length = no_length;
      buffer = stream ms;
      arrived = p.arrived ++ message m ∷ [];
    } in
    let (g, r) =
      round_header p (length m) (m ++ stream ms) e
        (b ∙ append_assoc (header_bytes (length m)) m (stream ms)) in
    let (g', r') = round_body opened m (stream ms) c f refl refl in
    let (q, d, idle, log) = stream-Drains ms done fs c refl refl in
    (
      q,
      again g (
          subst (λ k. Drains k q)
            (sym (r ∙ rw (mod-eq_of_lt {n = length m} {m = u32_mod} (omega arith)) refl))
            (again g' (subst (λ k. Drains k q) (sym r') d))),
      idle,
      log ∙ append_assoc p.arrived (message m ∷ []) (map message ms),
    )

-- Messages of fewer than 2 ^ 32 - 1 bytes each, written one after the other and cut into reads
-- anywhere, reach the callback whole, in order and nothing else, and leave the parser between two
-- messages.
pub parse_all-stream :
    (ms cs : List (List ℕ)) (p : MsgParser)
    → concat cs ≡ stream ms
    → AllFit ms
    → IsIdle p
    → p.has_callback ≡ true
    → (q : MsgParser) × (parse_all p cs ≡ some q)
      × IsIdle q
      × (q.arrived ≡ p.arrived ++ map message ms)
parse_all-stream ms cs p cut f idle c =
    let (q, d, idle', log) =
      stream-Drains ms (extend p (concat cs)) f c idle.no_header (rw (idle.no_bytes, cut) refl) in
    (q, parse_all-concat cs p q (idle_stops p idle.no_header idle.no_bytes) d, idle', log)

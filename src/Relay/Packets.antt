-- ===== src/Relay/Packets.antt =====
-- The packets of libevent-example/message.cpp: a header and its bytes, read back.
use rpc.Common.{
  ℕ, ◌+◌, ◌-◌, ◌%◌, ◌≤◌, ◌<◌, ◌≡◌, refl, false, Option, List, [], ◌∷◌, ◌++◌, length, take, drop,
  min, ltb, arith, take-length_append, drop-length_append, length-append, take_all,
}
use rpc.Common.Words.{u32_mod}
use native.Mathlib.Nat.{mod-eq_of_lt}
use rpc.Relay.{
  Header, Relay, header_bytes, to_le, read_le, read_header, header_length, max_packet_size, counted,
  pass_on, read_round, after,
}

pub record Packet : Type 0 where
  pub target : ℕ
  pub claimed_source : ℕ
  pub bytes : List ℕ

-- On the wire, with the source that is named.
unfoldable pub wire : ℕ → Packet → List ℕ
wire source p =
    header_bytes (record { target_id = p.target; source_id = source; length = length p.bytes })
    ++ p.bytes

wire_lem :
    (source : ℕ) (p : Packet)
    → wire source p
      ≡ header_bytes (record { target_id = p.target; source_id = source; length = length p.bytes })
        ++ p.bytes
unfolding wire
wire_lem source p = refl

pub length-wire : (source : ℕ) (p : Packet) → length (wire source p) ≡ length p.bytes + 12
unfolding wire header_bytes to_le
length-wire source p = omega arith

abbrev pub sent : Packet → List ℕ
sent p = wire p.claimed_source p

abbrev pub stream : List Packet → List ℕ
stream [] = []
stream (p ∷ ps) = sent p ++ stream ps

-- Packets of 256 bytes at most.
abbrev pub Fits : Packet → Type 0
Fits p = (p.target < u32_mod) × (p.claimed_source < u32_mod) × (length p.bytes ≤ 244)

abbrev pub AllFit : List Packet → Type 0
AllFit [] = Unit
AllFit (p ∷ ps) = Fits p × AllFit ps

read_le-to_le : (x : ℕ) → x < u32_mod → read_le (to_le x) ≡ x
unfolding read_le to_le
read_le-to_le x l = omega arith

abbrev pub header_of : Packet → Header
header_of p = record { target_id = p.target; source_id = p.claimed_source; length = length p.bytes }

read_header-sent :
    (p : Packet) (rest : List ℕ)
    → Fits p
    → (read_header (sent p ++ rest) ≡ header_of p)
      × (drop header_length (sent p ++ rest) ≡ p.bytes ++ rest)
unfolding read_header wire header_bytes
read_header-sent p rest (t, s, l) = ground (
  arith,
  read_le-to_le p.target t,
  read_le-to_le p.claimed_source s,
  read_le-to_le (length p.bytes),
)

-- One packet passed on.
abbrev pub pass : ℕ → Packet → Relay → Option Relay
pass source p r = pass_on p.target (wire source p) (counted (length p.bytes + 12) r)

-- A round on a packet that has come in whole, with 256 bytes there.
pub read_round-sent :
    (source : ℕ) (p : Packet) (rest : List ℕ) (r : Relay)
    → Fits p
    → 256 ≤ length (sent p ++ rest)
    → read_round source (sent p ++ rest) r ≡ after rest (pass source p r)
unfolding read_round
read_round-sent source p rest r fits enough =
    let (head, body) = read_header-sent p rest fits in
    let input = sent p ++ rest in
    let small : (length p.bytes + 12) % u32_mod ≡ length p.bytes + 12 =
      mod-eq_of_lt {n = length p.bytes + 12} {m = u32_mod} (omega arith) in
    let bytes : take (length p.bytes + 12) (
          header_bytes
            (record { target_id = p.target; source_id = source; length = length p.bytes })
          ++ take (length p.bytes) (p.bytes ++ rest))
        ≡ wire source p =
      rw (take-length_append p.bytes rest, ← wire_lem source p)
        (take_all (length p.bytes + 12) (wire source p) (omega (arith, length-wire source p))) in
    let not_short : ltb (length input) max_packet_size ≡ false = ground arith in
    let not_cut : ltb (length input) (length p.bytes + 12) ≡ false =
      ground (arith, length-append (sent p) rest, length-wire p.claimed_source p) in
    let room : ltb (max_packet_size - header_length)
          (min (length p.bytes) (length (p.bytes ++ rest)))
        ≡ false =
      ground (arith, length-append p.bytes rest) in
    rw (head, body, small, bytes, not_short, not_cut, room, drop-length_append p.bytes rest) refl

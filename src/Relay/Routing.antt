-- ===== src/Relay/Routing.antt =====
-- Where the packets that come in go in libevent-example/message.cpp.
use rpc.Common.{
  ℕ, ◌+◌, ◌%◌, ◌≡◌, refl, sym, ap, ◌∙◌, true, none, some, List, [], ◌∷◌, ◌++◌, length, arith,
  if◌then◌else◌, nat_beq, nat_beq_iff, nat_eq, Bool-cases, Option-cases, inl, inr, append_assoc,
  append-nil,
}
use rpc.Common.Dict.{Dict, get, put, get-put}
use rpc.Common.Words.{u32_mod}
use rpc.Relay.{Relay, Peer, counted, bufferevent_write, pass_on}
use rpc.Relay.Packets.{Packet, wire, pass}

-- No client that has an id has been freed.
abbrev pub AllOpen : Relay → Type 0
AllOpen r =
    (id bev : ℕ)
    → get id r.client_map ≡ some bev
    → (p : Peer) × (get bev r.peers ≡ some p) × (p.is_open ≡ true)

-- Of the packets, those for the bufferevent, with the id of the sender put in.
abbrev pub addressed : Dict ℕ ℕ → ℕ → ℕ → List Packet → List ℕ
addressed map source bev [] = []
addressed map source bev (p ∷ ps) =
    let rest = addressed map source bev ps in
    elim (get p.target map) [
      | none ↦ rest
      | some b ↦ if nat_beq b bev then wire source p ++ rest else rest
    ]

-- `t` is `r` with those packets written.
pub record Routed (source : ℕ) (ps : List Packet) (r t : Relay) : Type 0 where
  pub same_map : t.client_map ≡ r.client_map
  pub all_open : AllOpen t
  pub written :
      (bev : ℕ) (p : Peer)
      → get bev r.peers ≡ some p
      → get bev t.peers
        ≡ some (record p { output = p.output ++ addressed r.client_map source bev ps })

pub Routed-nil : (source : ℕ) (r : Relay) → AllOpen r → Routed source [] r r
Routed-nil source r all = record {
  same_map = refl;
  all_open = all;
  written = λ bev p h. h ∙ ap (λ o. some (record p { output = o })) (sym (append-nil p.output));
}

pub pass-Routed :
    (source : ℕ) (p : Packet) (r : Relay)
    → AllOpen r
    → (t : Relay) × (pass source p r ≡ some t) × Routed source (p ∷ []) r t
unfolding pass_on bufferevent_write
pass-Routed source p r all = elim (Option-cases (get p.target r.client_map)) [
  | inl n ↦ (
    counted (length p.bytes + 12) r,
    ground arith,
    record {
      same_map = refl;
      all_open = all;
      written = λ bev q h. ground (arith, append-nil q.output);
    },
  )
  | inr (b, h) ↦
      let (q, there, on) = all p.target b h in
      let q' : Peer = record q { output = q.output ++ wire source p } in
      let t : Relay = record (counted (length p.bytes + 12) r) {
        send_number = (r.send_number + 1) % u32_mod;
        peers = put b q' r.peers;
      } in
      (
        t,
        ground (arith, there),
        record {
          same_map = refl;
          all_open = λ id bev g.
              let (k, here, up) = all id bev g in
              elim (Bool-cases (nat_beq b bev)) [
                | inl e ↦ (q', ground (arith, get-put b bev q' r.peers), on)
                | inr e ↦ (k, ground (arith, get-put b bev q' r.peers), up)
              ];
          written = λ bev k g. ground (
            arith,
            get-put b bev q' r.peers,
            append-nil (wire source p),
            append-nil k.output,
            nat_beq_iff b bev,
          );
        },
      )
]

addressed-append :
    (map : Dict ℕ ℕ) (source bev : ℕ) (ps qs : List Packet)
    → addressed map source bev (ps ++ qs)
      ≡ addressed map source bev ps ++ addressed map source bev qs
addressed-append map source bev [] qs = refl
addressed-append map source bev (p ∷ ps) qs =
    let more = addressed-append map source bev ps qs in
    elim (Option-cases (get p.target map)) [
      | inl n ↦ ground (arith, more)
      | inr (b, h) ↦ ground (
        arith,
        more,
        append_assoc (wire source p) (addressed map source bev ps) (addressed map source bev qs),
      )
    ]

pub Routed-Routed :
    (source : ℕ) (ps qs : List Packet) (r t u : Relay)
    → Routed source ps r t
    → Routed source qs t u
    → Routed source (ps ++ qs) r u
Routed-Routed source ps qs r t u a b = record {
  same_map = b.same_map ∙ a.same_map;
  all_open = b.all_open;
  written = λ bev p h.
      let mid = addressed r.client_map source bev ps in
      let last = addressed r.client_map source bev qs in
      b.written bev (record p { output = p.output ++ mid }) (a.written bev p h)
      ∙ ap (λ m. some (record p { output = (p.output ++ mid) ++ addressed m source bev qs }))
          a.same_map
      ∙ ap (λ o. some (record p { output = o }))
          (append_assoc p.output mid last
            ∙ ap (p.output ++◌) (sym (addressed-append r.client_map source bev ps qs)));
}

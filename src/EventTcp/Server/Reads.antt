-- ===== src/EventTcp/Server/Reads.antt =====
-- What `readCallback` and `msgconnection` of event-tcp/proto_server.cpp give to the message callback,
-- whatever other clients send in between.
use rpc.Common.{
  ℕ, zero, suc, ◌≤◌, ◌≡◌, refl, sym, ap, subst, ◌∙◌, true, false, some, List, [], ◌∷◌, ◌++◌, map,
  length, take, drop, if◌then◌else◌, arith, nat_beq, nat_beq_iff, nat_eq, append_assoc, append-nil,
  take-append-drop, length-drop,
}
use rpc.Common.Dict.{get, put, get-put}
use rpc.EventTcp.{MsgParser, Arrival, parse, goes_on}
use rpc.EventTcp.Parser.{Drains, stops, Drains-stopped, Drains-parse, parse-append, parse-Drains}
use rpc.EventTcp.Logs.{some_inj, logged, clean, parse-logged}
use rpc.EventTcp.Server.{
  MsgConnection, MsgServer, received, deliver_arrivals, on_read_handler, read_loop,
}

abbrev pub parsed : MsgConnection → MsgParser → MsgConnection
parsed c q = record c { parser = clean q }

-- `t` is `s` after the connection `p` has become `d`, with `as'` given to the message callback.
pub record After (p : ℕ) (d : MsgConnection) (as' : List Arrival) (s t : MsgServer) : Type 0 where
  pub objects : (k : ℕ) → get k t.objects ≡ (if nat_beq p k then some d else get k s.objects)
  pub calls : t.calls ≡ s.calls ++ map (λ a. received p a) as'
  pub listens : t.has_message_cb ≡ true

map-append_received :
    (p : ℕ) (as' bs : List Arrival)
    → map (λ a. received p a) (as' ++ bs)
      ≡ map (λ a. received p a) as' ++ map (λ a. received p a) bs
map-append_received p [] bs = refl
map-append_received p (a ∷ as') bs = ap (◌∷◌ (received p a)) (map-append_received p as' bs)

on_read_handler-After :
    (p : ℕ) (bytes : List ℕ) (s : MsgServer) (c : MsgConnection) (q : MsgParser)
    → s.has_message_cb ≡ true
    → get p s.objects ≡ some c
    → parse (clean c.parser) bytes ≡ some q
    → (t : MsgServer) × (on_read_handler p bytes s ≡ some t) × After p (parsed c q) q.arrived s t
unfolding on_read_handler deliver_arrivals
on_read_handler-After p bytes s c q listens there e =
    let t : MsgServer = record s {
      objects = put p (parsed c q) s.objects;
      calls = s.calls ++ map (λ a. received p a) q.arrived;
    } in
    (
      t,
      ground (arith, there, e),
      record { objects = λ k. get-put p k (parsed c q) s.objects; calls = refl; listens = listens },
    )

-- What the parser does with two blocks, its log emptied in between.
parse-split :
    (p : MsgParser) (xs ys : List ℕ) (q : MsgParser)
    → parse (clean p) (xs ++ ys) ≡ some q
    → (r : MsgParser) × (u : MsgParser) × (parse (clean p) xs ≡ some r)
      × (parse (clean r) ys ≡ some u)
      × (q ≡ logged r.arrived u)
parse-split p xs ys q e =
    let (r, f, _) = parse-Drains (clean p) xs in
    let (u, g, _) = parse-Drains (clean r) ys in
    let second : parse r ys ≡ some q = sym (ground (arith, parse-append (clean p) xs ys)) ∙ e in
    let whole : parse r ys ≡ some (logged r.arrived u) =
      subst (λ a. parse (record r { arrived = a }) ys ≡ some (logged r.arrived u))
        (append-nil r.arrived) (parse-logged r.arrived (clean r) u ys g) in
    (r, u, f, g, some_inj q (logged r.arrived u) (sym second ∙ whole))

-- Two reads of one connection.
After-After :
    (p : ℕ) (c d : MsgConnection) (as' bs : List Arrival) (s t u : MsgServer)
    → After p c as' s t
    → After p d bs t u
    → After p d (as' ++ bs) s u
After-After p c d as' bs s t u f g = record {
  objects = λ k. ground (arith, f.objects k, g.objects k);
  calls =
      g.calls
      ∙ ap (λ l. l ++ map (λ a. received p a) bs) f.calls
      ∙ append_assoc s.calls (map (λ a. received p a) as') (map (λ a. received p a) bs)
      ∙ ap (s.calls ++◌) (sym (map-append_received p as' bs));
  listens = g.listens;
}

-- Between two reads.
pub record IsReady (c : MsgConnection) : Type 0 where
  pub waits : goes_on c.parser ≡ false
  pub quiet : c.parser.arrived ≡ []

pub parsed-IsReady :
    (c : MsgConnection) (p q : MsgParser) (bytes : List ℕ)
    → parse p bytes ≡ some q
    → IsReady (parsed c q)
unfolding goes_on
parsed-IsReady c p q bytes e =
    let (r, f, d) = parse-Drains p bytes in
    record {
      waits = subst (λ k. goes_on k ≡ false) (some_inj r q (sym f ∙ e)) (Drains-stopped d);
      quiet = refl;
    }

parse_nothing :
    (c : MsgConnection) (q : MsgParser)
    → IsReady c
    → parse (clean c.parser) [] ≡ some q
    → (q.arrived ≡ []) × (parsed c q ≡ c)
unfolding goes_on
parse_nothing c q ready e =
    let still =
      subst (λ b. Drains (record (clean c.parser) { buffer = b }) (clean c.parser))
        (sym (append-nil c.parser.buffer)) (stops ready.waits) in
    let same =
      some_inj (clean c.parser) q
        (sym (Drains-parse (clean c.parser) (clean c.parser) [] still) ∙ e) in
    (
      sym (ap (λ k. k.arrived) same),
      ap (parsed c) (sym same)
          ∙ ap (λ a. record c { parser = record c.parser { arrived = a } }) (sym ready.quiet),
    )

pub read_loop-After :
    (fuel p : ℕ) (input : List ℕ) (s : MsgServer) (c : MsgConnection) (q : MsgParser)
    → length input ≤ fuel
    → s.has_message_cb ≡ true
    → get p s.objects ≡ some c
    → IsReady c
    → parse (clean c.parser) input ≡ some q
    → (t : MsgServer) × (read_loop fuel p input s ≡ some t) × After p (parsed c q) q.arrived s t
unfolding read_loop
read_loop-After fuel p [] s c q l listens there ready e =
    let (nothing, same) = parse_nothing c q ready e in
    (
      s,
      refl,
      record {
        objects = λ k. ground (arith, same, nat_beq_iff p k);
        calls = rw nothing (sym (append-nil s.calls));
        listens = listens;
      },
    )
read_loop-After zero p (x ∷ xs) s c q l listens there ready e = absurd (omega arith)
read_loop-After (suc fuel) p (x ∷ xs) s c q l listens there ready e =
    let first = take 1024 (x ∷ xs) in
    let rest = drop 1024 (x ∷ xs) in
    let (r, u, f, g, same) =
      parse-split c.parser first rest q (rw (take-append-drop 1024 (x ∷ xs)) e) in
    let (t, run, a) = on_read_handler-After p first s c r listens there f in
    let here : get p t.objects ≡ some (parsed c r) = ground (arith, a.objects p) in
    let (t', run', b) =
      read_loop-After fuel p rest t (parsed c r) u (omega (arith, length-drop 1024 (x ∷ xs)))
        a.listens here (parsed-IsReady c (clean c.parser) r first f) g in
    (
      t',
      ground (arith, run, run'),
      subst (λ k. After p (parsed c k) k.arrived s t') (sym same)
          (After-After p (parsed c r) (parsed c u) r.arrived u.arrived s t t' a b),
    )

-- ===== src/EventTcp/Parser.antt =====
-- `msgparser::parse` of event-tcp/proto_utils.cpp: its loop ends, and how a stream is cut into calls
-- cannot be seen.
use rpc.Common.{
  concat, ℕ, zero, suc, ◌+◌, ◌*◌, ◌≤◌, ◌<◌, ◌≡◌, refl, sym, ap, subst, ◌∙◌, true, false, Option,
  none, some, List, [], ◌∷◌, ◌++◌, length, take, drop, if◌then◌else◌, nat_beq, Bool-cases, arith,
  inl, inr, length-drop, length-append, append_assoc, append-nil,
}
use rpc.EventTcp.{
  MsgParser, no_length, header_size, goes_on, call_back, take_header, take_body, parse_round,
  parse_loop, parse,
}

-- What the loop uses up.
unfoldable pub work : MsgParser → ℕ
work p = 2 * length p.buffer + (if nat_beq p.header_length no_length then 0 else 1)

work-parse_round : (p : MsgParser) → goes_on p ≡ true → work (parse_round p) < work p
unfolding work goes_on parse_round take_header take_body call_back
work-parse_round p g =
    ground (arith, length-drop header_size p.buffer, length-drop p.header_length p.buffer)

-- The loop as a relation: `Drains p q` when it stops at `q`.
pub data Drains : MsgParser → MsgParser → Type 0 where
  stops : {p : MsgParser} → goes_on p ≡ false → Drains p p
  again : {p q : MsgParser} → goes_on p ≡ true → Drains (parse_round p) q → Drains p q

parse_loop-Drains :
    (fuel : ℕ) (p : MsgParser)
    → work p ≤ fuel
    → (q : MsgParser) × (parse_loop fuel p ≡ some q) × Drains p q
unfolding parse_loop
parse_loop-Drains zero p l = elim (Bool-cases (goes_on p)) [
  | inl g ↦ absurd (omega (arith, work-parse_round p g))
  | inr g ↦ (p, ground arith, stops g)
]
parse_loop-Drains (suc fuel) p l = elim (Bool-cases (goes_on p)) [
  | inl g ↦
      let (q, e, d) =
        parse_loop-Drains fuel (parse_round p) (omega (arith, work-parse_round p g)) in
      (q, ground (arith, e), again g d)
  | inr g ↦ (p, ground arith, stops g)
]

Drains-unique : {p q r : MsgParser} → Drains p q → Drains p r → q ≡ r
Drains-unique (stops g) (stops h) = refl
Drains-unique (stops g) (again h d) = absurd (ground arith)
Drains-unique (again g d) (stops h) = absurd (ground arith)
Drains-unique (again g d) (again h e) = Drains-unique d e

abbrev pub extend : MsgParser → List ℕ → MsgParser
extend p ys = record p { buffer = p.buffer ++ ys }

pub parse-Drains :
    (p : MsgParser) (input : List ℕ)
    → (q : MsgParser) × (parse p input ≡ some q) × Drains (extend p input) q
unfolding parse work
parse-Drains p input =
    parse_loop-Drains (2 * length (p.buffer ++ input) + 1) (extend p input) (ground arith)

-- It is what the loop reaches.
pub Drains-parse :
    (p q : MsgParser) (input : List ℕ) → Drains (extend p input) q → parse p input ≡ some q
Drains-parse p q input d = let (r, e, d') = parse-Drains p input in e ∙ ap some (Drains-unique d' d)

take_within : (n : ℕ) (xs ys : List ℕ) → n ≤ length xs → take n (xs ++ ys) ≡ take n xs
take_within zero xs ys l = refl
take_within (suc n) [] ys l = absurd (omega arith)
take_within (suc n) (x ∷ xs) ys l = ap (◌∷◌ x) (take_within n xs ys (omega arith))

drop_within : (n : ℕ) (xs ys : List ℕ) → n ≤ length xs → drop n (xs ++ ys) ≡ drop n xs ++ ys
drop_within zero xs ys l = refl
drop_within (suc n) [] ys l = absurd (omega arith)
drop_within (suc n) (x ∷ xs) ys l = drop_within n xs ys (omega arith)

goes_on-extend : (p : MsgParser) (ys : List ℕ) → goes_on p ≡ true → goes_on (extend p ys) ≡ true
unfolding goes_on
goes_on-extend p ys g = ground (arith, length-append p.buffer ys)

parse_round-extend :
    (p : MsgParser) (ys : List ℕ)
    → goes_on p ≡ true
    → parse_round (extend p ys) ≡ extend (parse_round p) ys
unfolding goes_on parse_round take_header take_body call_back
parse_round-extend p ys g = ground (
  arith,
  length-append p.buffer ys,
  take_within 4 p.buffer ys,
  drop_within 4 p.buffer ys,
  drop_within 8 p.buffer ys,
  length-drop 4 p.buffer,
  take_within 4 (drop 4 p.buffer) ys,
  take_within p.header_length p.buffer ys,
  drop_within p.header_length p.buffer ys,
)

Drains-extend :
    {p q r : MsgParser} (ys : List ℕ) → Drains p q → Drains (extend q ys) r → Drains (extend p ys) r
Drains-extend ys (stops g) e = e
Drains-extend {p = p} {r = r} ys (again g d) e =
    again (goes_on-extend p ys g)
      (subst (λ k. Drains k r) (sym (parse_round-extend p ys g)) (Drains-extend ys d e))

-- The reads of a connection, one after the other.
unfoldable pub parse_all : MsgParser → List (List ℕ) → Option MsgParser
parse_all p [] = some p
parse_all p (c ∷ cs) = elim (parse p c) [ none ↦ none | some p' ↦ parse_all p' cs ]

pub Drains-stopped : {p q : MsgParser} → Drains p q → goes_on q ≡ false
Drains-stopped (stops g) = g
Drains-stopped (again g d) = Drains-stopped d

-- What is left to read after a read.
pub Drains-rest :
    (p q r : MsgParser) (xs ys : List ℕ)
    → Drains (extend p xs) q
    → Drains (extend p (xs ++ ys)) r
    → Drains (extend q ys) r
Drains-rest p q r xs ys d e =
    let (s, _, f) = parse-Drains q ys in
    let whole : Drains (extend p (xs ++ ys)) s =
      subst (λ b. Drains (record p { buffer = b }) s) (append_assoc p.buffer xs ys)
        (Drains-extend ys d f) in
    subst (Drains (extend q ys)) (Drains-unique whole e) f

-- Two reads in a row are one read of the bytes of both.
pub parse-append :
    (p : MsgParser) (xs ys : List ℕ)
    → parse p (xs ++ ys) ≡ elim (parse p xs) [ none ↦ none | some q ↦ parse q ys ]
parse-append p xs ys =
    let (q, e, d) = parse-Drains p xs in
    let (r, f, g) = parse-Drains p (xs ++ ys) in
    f ∙ rw e (sym (Drains-parse q r ys (Drains-rest p q r xs ys d g)))

-- So are any number of them, for a parser that waits for more bytes.
pub parse_all-concat :
    (cs : List (List ℕ)) (p q : MsgParser)
    → goes_on p ≡ false
    → Drains (extend p (concat cs)) q
    → parse_all p cs ≡ some q
unfolding parse_all
parse_all-concat [] p q s d = ap some (
    Drains-unique (stops s)
      (subst (λ b. Drains (record p { buffer = b }) q) (append-nil p.buffer) d))
parse_all-concat (c ∷ cs) p q s d =
    let (p', e, d') = parse-Drains p c in
    ground (
      arith,
      e,
      parse_all-concat cs p' q (Drains-stopped d') (Drains-rest p p' q c (concat cs) d' d),
    )

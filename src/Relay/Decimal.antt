-- ===== src/Relay/Decimal.antt =====
-- `inttostr` of libevent-example/message.cpp. For the least int, whose negative C++ leaves open, there
-- is no result.
use rpc.Common.{
  ℕ, zero, suc, ◌+◌, ◌-◌, ◌*◌, ◌/◌, ◌%◌, ◌≤◌, ◌<◌, ◌^◌, Option, some, none, ltb, ◌≡◌, refl, true,
  false, List, [], ◌∷◌, if◌then◌else◌, nat_beq, Bool-cases, inl, inr, arith, sym, subst, ap, ◌∙◌,
}
use native.Mathlib.Decide.{dec_lt}
use rpc.Common.Words.{ℤ, pos, negsuc}

-- The loop; a number has no more digits than its value, but 0.
unfoldable pub digits : ℕ → ℕ → List ℕ → List ℕ
digits zero num result = result
digits (suc fuel) num result = elim (nat_beq num 0) [
  | true ↦ result
  | false ↦ digits fuel (num / 10) ((48 + num % 10) ∷ result)
]

abbrev magnitude : ℕ → List ℕ
magnitude num = if nat_beq num 0 then 48 ∷ [] else digits num num []

unfoldable pub inttostr : ℤ → Option (List ℕ)
unfolding digits
inttostr (pos n) = some (magnitude n)
inttostr (negsuc n) = if ltb n (2 ^ 31 - 1) then some (45 ∷ magnitude (suc n)) else none

-- Above the least int.
abbrev pub HasNegative : ℤ → Type 0
HasNegative (pos n) = Unit
HasNegative (negsuc n) = n < 2 ^ 31 - 1

-- The number that digits spell behind `acc`.
abbrev pub value : ℕ → List ℕ → ℕ
value acc [] = acc
value acc (c ∷ cs) = value (10 * acc + (c - 48)) cs

abbrev pub minus : ℕ → ℤ
minus zero = pos 0
minus (suc n) = negsuc n

-- A sign and digits, read.
abbrev pub read_int : List ℕ → ℤ
read_int [] = pos 0
read_int (c ∷ cs) = if nat_beq c 45 then minus (value 0 cs) else pos (value 0 (c ∷ cs))

digits_more :
    (fuel num : ℕ) (result : List ℕ)
    → 0 < num
    → digits (suc fuel) num result ≡ digits fuel (num / 10) ((48 + num % 10) ∷ result)
unfolding digits
digits_more fuel num result h = ground arith

digits_done : (fuel num : ℕ) (result : List ℕ) → num ≡ 0 → digits fuel num result ≡ result
unfolding digits
digits_done zero num result h = refl
digits_done (suc fuel) num result h = ground arith

value-digits :
    (fuel num : ℕ) (result : List ℕ)
    → num ≤ fuel
    → value 0 (digits fuel num result) ≡ value num result
value-digits zero num result l =
    let none_left : num ≡ 0 = omega arith in
    ap (value 0) (digits_done zero num result none_left) ∙ ap (λ k. value k result) (sym none_left)
value-digits (suc fuel) num result l = elim (dec_lt 0 num) [
  | yes more ↦
      let digit : 10 * (num / 10) + (48 + num % 10 - 48) ≡ num = omega arith in
      ap (value 0) (digits_more fuel num result more)
      ∙ value-digits fuel (num / 10) ((48 + num % 10) ∷ result) (omega arith)
      ∙ ap (λ k. value k result) digit
  | no done ↦
      let none_left : num ≡ 0 = omega arith in
      ap (value 0) (digits_done (suc fuel) num result none_left)
      ∙ ap (λ k. value k result) (sym none_left)
]

value-magnitude : (n : ℕ) → value 0 (magnitude n) ≡ n
value-magnitude n = elim (Bool-cases (nat_beq n 0)) [
  | inl e ↦ ground arith
  | inr e ↦ rw e (value-digits n n [] (omega arith))
]

abbrev NotSigned : List ℕ → Type 0
NotSigned [] = ⊥
NotSigned (c ∷ cs) = 48 ≤ c

digits-NotSigned :
    (fuel num : ℕ) (result : List ℕ) → NotSigned result → NotSigned (digits fuel num result)
unfolding digits
digits-NotSigned zero num result h = h
digits-NotSigned (suc fuel) num result h = elim (dec_lt 0 num) [
  | yes more ↦
      subst NotSigned (sym (digits_more fuel num result more))
        (digits-NotSigned fuel (num / 10) ((48 + num % 10) ∷ result) (omega arith))
  | no done ↦ subst NotSigned (sym (digits_done (suc fuel) num result (omega arith))) h
]

magnitude-NotSigned : (n : ℕ) → NotSigned (magnitude n)
magnitude-NotSigned n = elim (Bool-cases (nat_beq n 0)) [
  | inl e ↦ rw (e, magnitude) (omega arith)
  | inr e ↦ rw (e, magnitude) (starts n (ground arith))
]
  where
    starts : (n : ℕ) → 0 < n → NotSigned (digits n n [])
    starts zero h = absurd (omega arith)
    starts (suc n) h =
        subst NotSigned (sym (digits_more n (suc n) [] h))
          (digits-NotSigned n (suc n / 10) ((48 + suc n % 10) ∷ []) (omega arith))

read_int_unsigned : (ds : List ℕ) → NotSigned ds → read_int ds ≡ pos (value 0 ds)
read_int_unsigned [] h = absurd h
read_int_unsigned (c ∷ cs) h = ground arith

-- Every int but the least has a text, which reads back as the number, its sign included.
pub read_int-inttostr :
    (z : ℤ) → HasNegative z → (text : List ℕ) × (inttostr z ≡ some text) × (read_int text ≡ z)
unfolding inttostr
read_int-inttostr (pos n) h = (
  magnitude n,
  refl,
  read_int_unsigned (magnitude n) (magnitude-NotSigned n) ∙ ap pos (value-magnitude n),
)
read_int-inttostr (negsuc n) h =
    (45 ∷ magnitude (suc n), ground (arith, h), ap minus (value-magnitude (suc n)))

-- ===== src/Text/Decimal/Laws.antt =====
-- A printed number reads back as itself.
use womprat.Base.{
  Bytes, ℕ, zero, suc, ◌+◌, ◌/◌, ◌%◌, ◌^◌, ◌<◌, pos, true, some, [], ◌∷◌, nat_eq, ◌≡◌, refl, sym,
  ap, ◌∙◌, inl, inr, arith, ltb, All, Bool-cases,
}
use womprat.Text.Decimal.Defs.{digits_onto, decimal, is_digit, digits_value, atoi}

digits_value-digits_onto :
    (fuel n : ℕ) (acc : Bytes)
    → n < fuel
    → digits_value 0 (digits_onto fuel n acc) ≡ digits_value n acc
unfolding digits_onto digits_value
digits_value-digits_onto zero n acc h = elim h [ ]
digits_value-digits_onto (suc fuel) n acc h =
    let digit : ℕ = n % 10 + b'0' in
    elim (Bool-cases (ltb n 10)) [
      | inl small ↦ rw small (ground arith)
      | inr more ↦
          rw more
            (digits_value-digits_onto fuel (n / 10) (digit ∷ acc) (ground arith) ∙ ground arith)
    ]

digits_onto-head :
    (fuel n : ℕ) (acc : Bytes)
    → (c : ℕ) × (s : Bytes) × (digits_onto (suc fuel) n acc ≡ c ∷ s) × (is_digit c ≡ true)
unfolding digits_onto
digits_onto-head zero n acc = (n % 10 + b'0', acc, ground arith, ground arith)
digits_onto-head (suc fuel) n acc = elim (Bool-cases (ltb n 10)) [
  | inl small ↦ (n % 10 + b'0', acc, rw small, ground arith)
  | inr more ↦
      let (c, s, e, digit) = digits_onto-head fuel (n / 10) ((n % 10 + b'0') ∷ acc) in
      (c, s, rw more e, digit)
]

atoi-digits :
    (c n : ℕ) (s : Bytes)
    → is_digit c ≡ true
    → digits_value 0 (c ∷ s) ≡ some n
    → n < 2 ^ 63
    → atoi (c ∷ s) ≡ some (pos n)
unfolding atoi
atoi-digits c n s digit value small = ground arith

All-digits_onto :
    (fuel n : ℕ) (acc : Bytes)
    → All (λ c. is_digit c ≡ true) acc
    → All (λ c. is_digit c ≡ true) (digits_onto fuel n acc)
unfolding digits_onto
All-digits_onto zero n acc h = h
All-digits_onto (suc fuel) n acc h = elim (Bool-cases (ltb n 10)) [
  | inl small ↦ rw small (ground arith, h)
  | inr more ↦ rw more (All-digits_onto fuel (n / 10) ((n % 10 + b'0') ∷ acc) (ground arith, h))
]

pub All-decimal : (n : ℕ) → All (λ c. is_digit c ≡ true) (decimal n)
unfolding decimal
All-decimal n = All-digits_onto (suc n) n [] tt

pub atoi-decimal : (n : ℕ) → n < 2 ^ 63 → atoi (decimal n) ≡ some (pos n)
unfolding decimal
atoi-decimal n h =
    let (c, s, e, digit) = digits_onto-head n n [] in
    let value : digits_value 0 (c ∷ s) ≡ some n =
      ap (digits_value 0) (sym e)
      ∙ digits_value-digits_onto (suc n) n [] (omega arith)
      ∙ (unfold digits_value in refl) in
    ap atoi e ∙ atoi-digits c n s digit value h

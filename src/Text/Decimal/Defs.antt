-- ===== src/Text/Decimal/Defs.antt =====
-- Decimal numbers, as `strconv` reads and prints them.
use womprat.Base.{
  Bytes, ℕ, zero, suc, ◌+◌, ◌-◌, ◌*◌, ◌/◌, ◌%◌, ◌^◌, ℤ, pos, negsuc, Bool, ◌&&◌, Option, none, some,
  [], ◌∷◌, ◌==◌, nat_eq, ltb, leb, if◌then◌else◌,
}

-- The digits of `n`, in front of `acc`; the fuel is a bound of the number of digits.
unfoldable pub digits_onto : ℕ → ℕ → Bytes → Bytes
digits_onto zero n acc = acc
digits_onto (suc fuel) n acc =
    let digit = n % 10 + b'0' in
    let rest = digits_onto fuel (n / 10) (digit ∷ acc) in if ltb n 10 then digit ∷ acc else rest

-- strconv.Itoa of a number that is not negative
unfoldable pub decimal : ℕ → Bytes
unfolding digits_onto
decimal n = digits_onto (suc n) n []

abbrev pub is_digit : ℕ → Bool
is_digit c = leb b'0' c && leb c b'9'

unfoldable pub digits_value : ℕ → Bytes → Option ℕ
digits_value acc [] = some acc
digits_value acc (c ∷ s) =
    let rest = digits_value (acc * 10 + (c - b'0')) s in if is_digit c then rest else none

-- what `Atoi` reads behind an optional sign, up to a limit
unfoldable pub number : Bytes → ℕ → Option ℕ
number [] limit = none
number (c ∷ s) limit = elim (digits_value 0 (c ∷ s)) [
  | none ↦ none
  | some n ↦ if leb n limit then some n else none
]

unfoldable pub negate : Option ℕ → Option ℤ
negate none = none
negate (some zero) = some (pos 0)
negate (some (suc n)) = some (negsuc n)

unfoldable pub positive : Option ℕ → Option ℤ
positive none = none
positive (some n) = some (pos n)

-- strconv.Atoi on a 64-bit platform; `none` is its error
unfoldable pub atoi : Bytes → Option ℤ
unfolding number negate positive digits_value
atoi [] = none
atoi (c ∷ s) =
    if c == b'-'
    then negate (number s (2 ^ 63))
    else if c == b'+'
    then positive (number s (2 ^ 63 - 1))
    else positive (number (c ∷ s) (2 ^ 63 - 1))

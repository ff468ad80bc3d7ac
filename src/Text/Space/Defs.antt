-- ===== src/Text/Space/Defs.antt =====
-- The definition of `strings.TrimSpace`.
use mathlib.Core.List.{reverse}
use womprat.Base.{
  Bytes, ℕ, zero, suc, ◌-◌, Bool, ◌&&◌, ◌||◌, [], ◌∷◌, ◌==◌, nat_eq, leb, if◌then◌else◌,
}

abbrev within : ℕ → ℕ → ℕ → Bool
within lo hi c = leb lo c && leb c hi

-- \t \n \v \f \r and the space
abbrev is_ascii_space : ℕ → Bool
is_ascii_space c = within 9 13 c || c == 32

-- U+0085 and U+00A0
abbrev is_space_2 : ℕ → ℕ → Bool
is_space_2 a b = a == 0xC2 && (b == 0x85 || b == 0xA0)

-- U+1680, U+2000 to U+200A, U+2028, U+2029, U+202F, U+205F and U+3000
abbrev is_space_3 : ℕ → ℕ → ℕ → Bool
is_space_3 a b c =
    a == 0xE1 && b == 0x9A && c == 0x80
    || a == 0xE2 && b == 0x80 && (within 0x80 0x8A c || c == 0xA8 || c == 0xA9 || c == 0xAF)
    || a == 0xE2 && b == 0x81 && c == 0x9F
    || a == 0xE3 && b == 0x80 && c == 0x80

-- The length of the white-space character at the front, 0 if there is none.
unfoldable pub width : Bytes → ℕ
width [] = 0
width (a ∷ []) = if is_ascii_space a then 1 else 0
width (a ∷ b ∷ []) = if is_ascii_space a then 1 else if is_space_2 a b then 2 else 0
width (a ∷ b ∷ c ∷ s) =
    if is_ascii_space a then 1 else if is_space_2 a b then 2 else if is_space_3 a b c then 3 else 0

-- The same at the end, for a reversed text.
unfoldable pub width_back : Bytes → ℕ
width_back [] = 0
width_back (a ∷ []) = if is_ascii_space a then 1 else 0
width_back (b ∷ a ∷ []) = if is_ascii_space b then 1 else if is_space_2 a b then 2 else 0
width_back (c ∷ b ∷ a ∷ s) =
    if is_ascii_space c then 1 else if is_space_2 b c then 2 else if is_space_3 a b c then 3 else 0

-- Drop `skip` bytes, and then white space while there is some.
unfoldable pub drop_space : (Bytes → ℕ) → ℕ → Bytes → Bytes
drop_space w skip [] = []
drop_space w (suc skip) (c ∷ s) = drop_space w skip s
drop_space w zero (c ∷ s) =
    let rest = drop_space w (w (c ∷ s) - 1) s in if w (c ∷ s) == 0 then c ∷ s else rest

unfoldable pub trim_space : Bytes → Bytes
unfolding drop_space width width_back
trim_space s = reverse (drop_space width_back 0 (reverse (drop_space width 0 s)))

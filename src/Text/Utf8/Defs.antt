-- ===== src/Text/Utf8/Defs.antt =====
-- Runes of UTF-8, and the cut at a rune's start.
use mathlib.Core.List.{reverse}
use womprat.Base.{
  Bytes, ℕ, zero, suc, ◌-◌, Bool, false, not, ◌&&◌, [], ◌∷◌, ◌==◌, nat_eq, ltb, leb, length, take,
  if◌then◌else◌,
}

abbrev pub within : ℕ → ℕ → ℕ → Bool
within lo hi c = leb lo c && leb c hi

abbrev pub is_continuation : ℕ → Bool
is_continuation = within 0x80 0xBF

-- the range of the second byte, by the first
unfoldable pub second_ok : ℕ → ℕ → Bool
second_ok a b =
    if a == 0xE0
    then within 0xA0 0xBF b
    else if a == 0xED
    then within 0x80 0x9F b
    else if a == 0xF0
    then within 0x90 0xBF b
    else if a == 0xF4
    then within 0x80 0x8F b
    else is_continuation b

-- utf8.DecodeRune: the length of the rune at the front, 0 where the bytes are no rune.
unfoldable pub rune_width : Bytes → ℕ
unfolding second_ok
rune_width [] = 0
rune_width (a ∷ []) = if ltb a 0x80 then 1 else 0
rune_width (a ∷ b ∷ []) =
    if ltb a 0x80 then 1 else if within 0xC2 0xDF a && is_continuation b then 2 else 0
rune_width (a ∷ b ∷ c ∷ []) =
    if ltb a 0x80
    then 1
    else if within 0xC2 0xDF a && is_continuation b
    then 2
    else if within 0xE0 0xEF a && second_ok a b && is_continuation c
    then 3
    else 0
rune_width (a ∷ b ∷ c ∷ d ∷ s) =
    if ltb a 0x80
    then 1
    else if within 0xC2 0xDF a && is_continuation b
    then 2
    else if within 0xE0 0xEF a && second_ok a b && is_continuation c
    then 3
    else if within 0xF0 0xF4 a && second_ok a b && is_continuation c && is_continuation d
    then 4
    else 0

-- strings.ToValidUTF8(s, ""), with `skip` bytes of the current rune still to copy.
unfoldable pub copy_valid : ℕ → Bytes → Bytes
copy_valid skip [] = []
copy_valid (suc skip) (c ∷ s) = c ∷ copy_valid skip s
copy_valid zero (c ∷ s) =
    let w = rune_width (c ∷ s) in
    let rest = copy_valid (w - 1) s in if w == 0 then rest else c ∷ rest

unfoldable pub to_valid_utf8 : Bytes → Bytes
unfolding copy_valid rune_width
to_valid_utf8 = copy_valid zero

-- utf8.DecodeLastRune on the reversed text: the size, 1 for bytes that are no rune.
unfoldable pub last_size : Bytes → ℕ
last_size [] = 0
last_size (a ∷ []) = 1
last_size (a ∷ b ∷ []) = if ltb a 0x80 then 1 else if rune_width (b ∷ a ∷ []) == 2 then 2 else 1
last_size (a ∷ b ∷ c ∷ []) =
    if ltb a 0x80
    then 1
    else if not (is_continuation b)
    then (if rune_width (b ∷ a ∷ []) == 2 then 2 else 1)
    else if rune_width (c ∷ b ∷ a ∷ []) == 3
    then 3
    else 1
last_size (a ∷ b ∷ c ∷ d ∷ s) =
    if ltb a 0x80
    then 1
    else if not (is_continuation b)
    then (if rune_width (b ∷ a ∷ []) == 2 then 2 else 1)
    else if not (is_continuation c)
    then (if rune_width (c ∷ b ∷ a ∷ []) == 3 then 3 else 1)
    else if rune_width (d ∷ c ∷ b ∷ a ∷ []) == 4
    then 4
    else 1

unfoldable pub last_rune_width : Bytes → ℕ
unfolding last_size rune_width
last_rune_width s = last_size (reverse s)

-- `for i := range value` meets the index `n`: a rune starts there.
unfoldable pub starts_at : ℕ → ℕ → Bytes → Bool
starts_at skip n [] = false
starts_at skip zero (c ∷ s) = skip == 0
starts_at (suc skip) (suc n) (c ∷ s) = starts_at skip n s
starts_at zero (suc n) (c ∷ s) = starts_at (rune_width (c ∷ s) - 1) n s

-- `for len(value) > maxBytes`: each round takes at least one byte away.
unfoldable pub drop_runes : ℕ → Bytes → ℕ → Bytes
drop_runes zero value limit = value
drop_runes (suc fuel) value limit =
    let size = last_rune_width value in
    let rest = drop_runes fuel (take (length value - size) value) limit in
    if leb (length value) limit then value else if size == 0 then [] else rest

-- A negative or zero limit is 0 here.
unfoldable pub truncate_utf8_bytes : Bytes → ℕ → Bytes
unfolding to_valid_utf8 starts_at drop_runes last_rune_width
truncate_utf8_bytes value limit =
    let valid = to_valid_utf8 value in
    if limit == 0
    then []
    else if leb (length valid) limit
    then valid
    else if starts_at 0 limit valid
    then take limit valid
    else drop_runes (length valid) valid limit

-- ===== src/Text/Host.antt =====
-- `(*url.URL).Hostname` and `Port`: the parts of the `Host` field.
use womprat.Base.{
  Bytes, ℕ, ◌-◌, Bool, false, ◌&&◌, Option, none, some, [], ◌∷◌, leb, ◌==◌, nat_eq, all, length,
  take, if◌then◌else◌,
}

abbrev pub is_digit : ℕ → Bool
is_digit c = leb b'0' c && leb c b'9'

-- strings.LastIndexByte: what stands before the last such byte, and behind it.
unfoldable pub cut_last : ℕ → Bytes → Option (Bytes × Bytes)
cut_last b [] = none
cut_last b (c ∷ cs) = elim (cut_last b cs) [
  | some (before, after) ↦ some (c ∷ before, after)
  | none ↦ if c == b then some ([], cs) else none
]

-- the last byte of a text is `b`
abbrev ends_with : ℕ → Bytes → Bool
ends_with b [] = false
ends_with b (c ∷ []) = c == b
ends_with b (c ∷ d ∷ cs) = ends_with b (d ∷ cs)

abbrev drop_brackets : Bytes → Bytes
drop_brackets [] = []
drop_brackets (c ∷ cs) = if c == b'[' && ends_with b']' cs then take (length cs - 1) cs else c ∷ cs

-- the port is optional, and made of digits
unfoldable pub split_host_port : Bytes → Bytes × Bytes
unfolding cut_last
split_host_port host = elim (cut_last b':' host) [
  | none ↦ (drop_brackets host, [])
  | some (before, after) ↦
      if all is_digit after then (drop_brackets before, after) else (drop_brackets host, [])
]

unfoldable pub hostname : Bytes → Bytes
unfolding split_host_port
hostname host = (split_host_port host).0

unfoldable pub port : Bytes → Bytes
unfolding split_host_port
port host = (split_host_port host).1

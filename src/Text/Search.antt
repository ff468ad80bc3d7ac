-- ===== src/Text/Search.antt =====
-- Tests and cuts of Go's `strings` package on byte lists.
use womprat.Base.{
  Bytes, ℕ, ◌-◌, Bool, true, false, ◌&&◌, ◌||◌, List, [], ◌∷◌, ◌==◌, nat_eq, leb, eqb, any, length,
  take, drop, if◌then◌else◌, All, All-take, Bool-cases, inl, inr,
}

-- strings.HasPrefix
unfoldable pub has_prefix : Bytes → Bytes → Bool
has_prefix s [] = true
has_prefix [] (p ∷ ps) = false
has_prefix (c ∷ s) (p ∷ ps) = c == p && has_prefix s ps

-- strings.HasSuffix
unfoldable pub has_suffix : Bytes → Bytes → Bool
unfolding eqb
has_suffix s suffix =
    leb (length suffix) (length s) && eqb (drop (length s - length suffix) s) suffix

-- strings.TrimPrefix
pub trim_prefix : Bytes → Bytes → Bytes
unfolding has_prefix
trim_prefix s prefix = if has_prefix s prefix then drop (length prefix) s else s

-- strings.TrimSuffix
unfoldable pub trim_suffix : Bytes → Bytes → Bytes
unfolding has_suffix
trim_suffix s suffix = if has_suffix s suffix then take (length s - length suffix) s else s

-- strings.Contains
unfoldable pub contains : Bytes → Bytes → Bool
unfolding has_prefix
contains [] sub = has_prefix [] sub
contains (c ∷ s) sub = has_prefix (c ∷ s) sub || contains s sub

-- strings.ContainsAny, for a set of ASCII characters
unfoldable pub contains_any : Bytes → Bytes → Bool
contains_any s chars = any (λ c. any (λ d. c == d) chars) s

-- one more byte at the front of the first part
unfoldable pub push_front : ℕ → List Bytes → List Bytes
push_front c [] = (c ∷ []) ∷ []
push_front c (w ∷ ws) = (c ∷ w) ∷ ws

-- strings.Split by one byte
unfoldable pub split : ℕ → Bytes → List Bytes
unfolding push_front
split sep [] = [] ∷ []
split sep (c ∷ s) = let rest = split sep s in if c == sep then [] ∷ rest else push_front c rest

-- strings.Trim by a set of ASCII characters, at the front
unfoldable pub trim_left : Bytes → Bytes → Bytes
trim_left chars [] = []
trim_left chars (c ∷ s) =
    let rest = trim_left chars s in if any (λ d. c == d) chars then rest else c ∷ s

module _ (P : ℕ → Type 0) where
  pub All-trim_left : (chars s : Bytes) → All P s → All P (trim_left chars s)
  unfolding trim_left
  All-trim_left chars [] h = tt
  All-trim_left chars (c ∷ s) h = elim (Bool-cases (any (λ d. c == d) chars)) [
    | inl cut ↦ rw cut (All-trim_left chars s h.1)
    | inr stays ↦ rw stays h
  ]

  pub All-trim_suffix : (s suffix : Bytes) → All P s → All P (trim_suffix s suffix)
  unfolding trim_suffix
  All-trim_suffix s suffix h = elim (Bool-cases (has_suffix s suffix)) [
    | inl found ↦ rw found (All-take P _ s h)
    | inr missing ↦ rw missing h
  ]

-- ===== src/Text/Utf8/Cut.antt =====
-- What `truncateUTF8Bytes` of download.go keeps of a text that begins with a rune.
use mathlib.Core.List.{reverse, reverse-cons}
use womprat.Base.{
  Bytes, ℕ, zero, suc, ◌-◌, ◌≤◌, false, [], ◌∷◌, ◌++◌, ◌==◌, nat_eq, leb, length, take,
  if◌then◌else◌, Bool-cases, ◌≡◌, refl, sym, subst, ◌∙◌, inl, inr, arith,
}
use womprat.Text.Utf8.Defs.{
  rune_width, copy_valid, to_valid_utf8, drop_runes, truncate_utf8_bytes, starts_at,
  last_rune_width, last_size,
}

last_size-bounds : (a : ℕ) (t : Bytes) → (1 ≤ last_size (a ∷ t)) × (last_size (a ∷ t) ≤ 4)
unfolding last_size
last_size-bounds a [] = (omega arith, omega arith)
last_size-bounds a (b ∷ []) = (ground arith, ground arith)
last_size-bounds a (b ∷ c ∷ []) = (ground arith, ground arith)
last_size-bounds a (b ∷ c ∷ d ∷ t) = (ground arith, ground arith)

some_first : (s : Bytes) (c : ℕ) → (a : ℕ) × (t : Bytes) × (s ++ (c ∷ []) ≡ a ∷ t)
some_first [] c = (c, [], refl)
some_first (a ∷ s) c = (a, s ++ (c ∷ []), refl)

last_rune_width-bounds :
    (c : ℕ) (s : Bytes) → (1 ≤ last_rune_width (c ∷ s)) × (last_rune_width (c ∷ s) ≤ 4)
unfolding last_rune_width
last_rune_width-bounds c s =
    let (a, t, e) = some_first (reverse s) c in
    subst (λ x. (1 ≤ last_size x) × (last_size x ≤ 4)) (sym (reverse-cons c s ∙ e))
      (last_size-bounds a t)

-- A cut keeps the first byte.
drop_runes-head :
    (fuel c : ℕ) (s : Bytes) (limit : ℕ)
    → 4 ≤ limit
    → (r : Bytes) × (drop_runes fuel (c ∷ s) limit ≡ c ∷ r)
unfolding drop_runes
drop_runes-head zero c s limit h = (s, refl)
drop_runes-head (suc fuel) c s limit h =
    let k = last_rune_width-bounds c s in
    elim (Bool-cases (leb (suc (length s)) limit)) [
      | inl q ↦ (s, rw q refl)
      | inr q ↦ elim (Bool-cases (last_rune_width (c ∷ s) == 0)) [
        | inl z ↦ absurd (ground (arith, z, k))
        | inr z ↦
            let n : ℕ = length s - last_rune_width (c ∷ s) in
            let e : suc (length s) - last_rune_width (c ∷ s) ≡ suc n = ground (arith, q, k, h) in
            let rest = drop_runes-head fuel c (take n s) limit h in (rest.0, rw (q, z, e) rest.1)
      ]
    ]

take-head : (c : ℕ) (s : Bytes) (limit : ℕ) → 4 ≤ limit → (r : Bytes) × (take limit (c ∷ s) ≡ c ∷ r)
take-head c s zero h = absurd (omega arith)
take-head c s (suc limit) h = (take limit s, refl)

cut-head :
    (c : ℕ) (v : Bytes) (limit fuel : ℕ)
    → 4 ≤ limit
    → (r : Bytes) × ((if limit == 0
          then []
          else if leb (length (c ∷ v)) limit
          then c ∷ v
          else if starts_at 0 limit (c ∷ v)
          then take limit (c ∷ v)
          else drop_runes fuel (c ∷ v) limit)
        ≡ c ∷ r)
cut-head c v limit fuel h = elim (Bool-cases (limit == 0)) [
  | inl z ↦ absurd (ground (arith, z, h))
  | inr z ↦ elim (Bool-cases (leb (length (c ∷ v)) limit)) [
    | inl fits ↦ (v, rw (z, fits) refl)
    | inr long ↦ elim (Bool-cases (starts_at 0 limit (c ∷ v))) [
      | inl cut ↦ let t = take-head c v limit h in (t.0, rw (z, long, cut) t.1)
      | inr odd ↦ let t = drop_runes-head fuel c v limit h in (t.0, rw (z, long, odd) t.1)
    ]
  ]
]

pub truncate-head :
    (c : ℕ) (s : Bytes) (limit : ℕ)
    → (rune_width (c ∷ s) == 0) ≡ false
    → 4 ≤ limit
    → (r : Bytes) × (truncate_utf8_bytes (c ∷ s) limit ≡ c ∷ r)
unfolding truncate_utf8_bytes to_valid_utf8 copy_valid
truncate-head c s limit q h =
    let v : Bytes = copy_valid (rune_width (c ∷ s) - 1) s in
    let t = cut-head c v limit (length (c ∷ v)) h in (t.0, rw q t.1)

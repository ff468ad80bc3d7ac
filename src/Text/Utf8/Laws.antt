-- ===== src/Text/Utf8/Laws.antt =====
-- What the repaired and the cut texts keep, and how long they are.
use womprat.Base.{
  Bytes, ℕ, zero, suc, ◌-◌, ◌≤◌, [], ◌∷◌, ◌==◌, nat_eq, inl, inr, arith, leb, length, take, All,
  All-take, length-take, Bool-cases,
}
use womprat.Text.Utf8.Defs.{
  rune_width, copy_valid, to_valid_utf8, last_rune_width, starts_at, drop_runes,
  truncate_utf8_bytes,
}

pub length-copy_valid : (skip : ℕ) (s : Bytes) → length (copy_valid skip s) ≤ length s
unfolding copy_valid
length-copy_valid skip [] = omega arith
length-copy_valid (suc skip) (c ∷ s) = omega (arith, length-copy_valid skip s)
length-copy_valid zero (c ∷ s) = ground (arith, length-copy_valid (rune_width (c ∷ s) - 1) s)

pub length-to_valid_utf8 : (s : Bytes) → length (to_valid_utf8 s) ≤ length s
unfolding to_valid_utf8
length-to_valid_utf8 s = length-copy_valid 0 s

drop_runes-le :
    (fuel : ℕ) (v : Bytes) (limit : ℕ) → length v ≤ fuel → length (drop_runes fuel v limit) ≤ limit
unfolding drop_runes
drop_runes-le zero v limit h = omega arith
drop_runes-le (suc fuel) v limit h = ground (
  arith,
  length-take (length v - last_rune_width v) v,
  drop_runes-le fuel (take (length v - last_rune_width v) v) limit,
)

-- A cut text is within the limit.
pub length-truncate : (v : Bytes) (limit : ℕ) → length (truncate_utf8_bytes v limit) ≤ limit
unfolding truncate_utf8_bytes
length-truncate v limit = ground (
  arith,
  length-take limit (to_valid_utf8 v),
  drop_runes-le (length (to_valid_utf8 v)) (to_valid_utf8 v) limit,
)

module _ {ℓ} (P : ℕ → Type ℓ) where
  All-copy_valid : (skip : ℕ) (s : Bytes) → All P s → All P (copy_valid skip s)
  unfolding copy_valid
  All-copy_valid skip [] h = tt
  All-copy_valid (suc skip) (c ∷ s) h = (h.0, All-copy_valid skip s h.1)
  All-copy_valid zero (c ∷ s) h = elim (Bool-cases (rune_width (c ∷ s) == 0)) [
    | inl bad ↦ rw bad (All-copy_valid (rune_width (c ∷ s) - 1) s h.1)
    | inr good ↦ rw good (h.0, All-copy_valid (rune_width (c ∷ s) - 1) s h.1)
  ]

  pub All-to_valid_utf8 : (s : Bytes) → All P s → All P (to_valid_utf8 s)
  unfolding to_valid_utf8
  All-to_valid_utf8 s h = All-copy_valid 0 s h

  All-drop_runes : (fuel : ℕ) (v : Bytes) (limit : ℕ) → All P v → All P (drop_runes fuel v limit)
  unfolding drop_runes
  All-drop_runes zero v limit h = h
  All-drop_runes (suc fuel) v limit h =
      let rest : Bytes = take (length v - last_rune_width v) v in
      elim (Bool-cases (leb (length v) limit)) [
        | inl fits ↦ rw fits h
        | inr long ↦ rw long (elim (Bool-cases (last_rune_width v == 0)) [
          | inl stuck ↦ rw stuck tt
          | inr more ↦ rw more (All-drop_runes fuel rest limit (All-take P _ v h))
        ])
      ]

  pub All-truncate : (v : Bytes) (limit : ℕ) → All P v → All P (truncate_utf8_bytes v limit)
  unfolding truncate_utf8_bytes
  All-truncate v limit h =
      let valid : Bytes = to_valid_utf8 v in
      let good : All P valid = All-to_valid_utf8 v h in
      elim (Bool-cases (limit == 0)) [
        | inl z ↦ rw z tt
        | inr nz ↦ rw nz (elim (Bool-cases (leb (length valid) limit)) [
          | inl fits ↦ rw fits good
          | inr long ↦ rw long (elim (Bool-cases (starts_at 0 limit valid)) [
            | inl cut ↦ rw cut (All-take P limit valid good)
            | inr odd ↦ rw odd (All-drop_runes (length valid) valid limit good)
          ])
        ])
      ]

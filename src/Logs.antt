-- ===== src/Logs.antt =====
-- The end of the log that is shown: logging.go.
use womprat.Base.{
  Bytes, ℕ, ◌-◌, ◌≤◌, ◌||◌, [], ◌∷◌, ◌++◌, ◌==◌, nat_eq, leb, any, ◌<◌, false, length, drop,
  if◌then◌else◌, Bool-cases, nat_eqb_iff, length-drop, ◌≡◌, refl, sym, subst, ap, ◌⊎◌, inl, inr,
  arith,
}

-- the loop that looks for the end of a line, and the step over it unless it is the last byte
unfoldable pub from_line_end : Bytes → Bytes
from_line_end [] = []
from_line_end (c ∷ []) = if c == 10 then c ∷ [] else []
from_line_end (c ∷ d ∷ s) = let rest = from_line_end (d ∷ s) in if c == 10 then d ∷ s else rest

unfoldable pub tail_bytes_at_line_boundary : Bytes → ℕ → Bytes
tail_bytes_at_line_boundary bytes max_bytes =
    if max_bytes == 0 || leb (length bytes) max_bytes
    then bytes
    else from_line_end (drop (length bytes - max_bytes) bytes)

-- No line ends in the text.
abbrev pub Unbroken : Bytes → Type 0
Unbroken s = any (λ c. c == 10) s ≡ false

-- How the text is cut: the part in front of the tail ends with its first line end; or no line ends
-- in front of the last byte, and the tail is that line end, or nothing where there is none.
abbrev pub AtLine : Bytes → Bytes → Type 0
AtLine front tail =
    ((tail ≡ []) × Unbroken front)
    ⊎ ((tail ≡ 10 ∷ []) × Unbroken front)
    ⊎ ((before : Bytes) × (front ≡ before ++ (10 ∷ [])) × Unbroken before × (0 < length tail))

at_line :
    (c : ℕ) (front tail : Bytes) → (c == 10) ≡ false → AtLine front tail → AtLine (c ∷ front) tail
at_line c front tail q (inl (e, none)) = inl (e, rw q none)
at_line c front tail q (inr (inl (e, none))) = inr (inl (e, rw q none))
at_line c front tail q (inr (inr (before, e, none, rest))) =
    inr (inr (c ∷ before, ap (◌∷◌ c) e, rw q none, rest))

from_line_end_skip :
    (c d : ℕ) (s : Bytes) → (c == 10) ≡ false → from_line_end (c ∷ d ∷ s) ≡ from_line_end (d ∷ s)
unfolding from_line_end
from_line_end_skip c d s q = rw q refl

from_line_end-AtLine :
    (s : Bytes)
    → (front : Bytes) × (s ≡ front ++ from_line_end s)
      × (length (from_line_end s) ≤ length s)
      × AtLine front (from_line_end s)
unfolding from_line_end
from_line_end-AtLine [] = ([], refl, omega arith, inl (refl, refl))
from_line_end-AtLine (c ∷ []) = elim (Bool-cases (c == 10)) [
  | inl q ↦ (
    [],
    rw q refl,
    rw q (omega arith),
    rw q (inr (inl (ap (λ x. x ∷ []) ((nat_eqb_iff c 10).0 q), refl))),
  )
  | inr q ↦ (c ∷ [], rw q refl, rw q (omega arith), rw q (inl (refl, refl)))
]
from_line_end-AtLine (c ∷ d ∷ s) = elim (Bool-cases (c == 10)) [
  | inl q ↦ (
    c ∷ [],
    rw q refl,
    rw q (omega arith),
    rw q (inr (inr ([], ap (λ x. x ∷ []) ((nat_eqb_iff c 10).0 q), refl, omega arith))),
  )
  | inr q ↦
      let h = from_line_end-AtLine (d ∷ s) in
      (
        c ∷ h.0,
        rw q (ap (◌∷◌ c) h.1),
        rw q (omega (arith, h.2)),
        subst (AtLine (c ∷ h.0)) (sym (from_line_end_skip c d s q))
            (at_line c h.0 (from_line_end (d ∷ s)) q h.3),
      )
]

-- The end of the log that is shown is the whole log if and where it fits or the limit is 0. Otherwise
-- the bytes that do not fit are cut off, and of the rest everything up to its first line end, this
-- included: what is left is within the limit. Where no line ends in front of the last byte of that
-- rest, its last byte is left if it is a line end, and nothing if it is not.
pub tail_bytes-AtLine :
    (bytes : Bytes) (max_bytes : ℕ)
    → (((max_bytes ≡ 0) ⊎ (length bytes ≤ max_bytes))
        × (tail_bytes_at_line_boundary bytes max_bytes ≡ bytes))
      ⊎ ((max_bytes < length bytes)
          × (0 < max_bytes)
          × ((front : Bytes) × (drop (length bytes - max_bytes) bytes
                ≡ front ++ tail_bytes_at_line_boundary bytes max_bytes)
              × (length (tail_bytes_at_line_boundary bytes max_bytes) ≤ max_bytes)
              × AtLine front (tail_bytes_at_line_boundary bytes max_bytes)))
unfolding tail_bytes_at_line_boundary
tail_bytes-AtLine bytes max_bytes =
    elim (Bool-cases (max_bytes == 0 || leb (length bytes) max_bytes)) [
      | inl q ↦ inl (
        elim (Bool-cases (max_bytes == 0)) [
          | inl zero ↦ inl ((nat_eqb_iff max_bytes 0).0 zero)
          | inr some_limit ↦ inr (ground (arith, q))
        ],
        rw q refl,
      )
      | inr q ↦
          let rest : Bytes = drop (length bytes - max_bytes) bytes in
          let h = from_line_end-AtLine rest in
          inr (
            ground (arith, q),
            ground (arith, q),
            (
              h.0,
              rw q h.1,
              rw q (ground (arith, q, h.2, length-drop (length bytes - max_bytes) bytes)),
              rw q h.3,
            ),
          )
    ]

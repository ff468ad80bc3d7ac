-- ===== src/Download/Filename/Trimmed.antt =====
-- About the cut of dots and spaces in `sanitizeDownloadFilename` of download.go.
use womprat.Base.{Bytes, ℕ, false, [], ◌∷◌, ◌==◌, nat_eq, any, Bool-cases, ◌≡◌, refl, ◌⊎◌, inl, inr}
use womprat.Text.Search.{trim_left}

pub trim_left-first :
    (chars s : Bytes)
    → (trim_left chars s ≡ [])
      ⊎ ((c : ℕ) × (rest : Bytes) × (trim_left chars s ≡ c ∷ rest)
          × (any (λ d. c == d) chars ≡ false))
unfolding trim_left
trim_left-first chars [] = inl refl
trim_left-first chars (c ∷ s) = elim (Bool-cases (any (λ d. c == d) chars)) [
  | inl cut ↦ rw cut (trim_left-first chars s)
  | inr stays ↦ rw stays (inr (c, s, refl, stays))
]

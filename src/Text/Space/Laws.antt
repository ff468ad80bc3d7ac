-- ===== src/Text/Space/Laws.antt =====
-- Trimming twice is trimming once.
use mathlib.Core.List.{reverse, reverse-append, reverse-reverse}
use womprat.Base.{
  Bytes, ℕ, zero, suc, ◌-◌, [], ◌∷◌, ◌++◌, ◌==◌, nat_eq, ◌≡◌, refl, sym, ap, ◌∙◌, inl, inr, arith,
  Bool-cases,
}
use womprat.Text.Space.Defs.{width, width_back, drop_space, trim_space}

module _ (w : Bytes → ℕ) where
  drop_space_stop : (s : Bytes) → w s ≡ 0 → drop_space w 0 s ≡ s
  unfolding drop_space
  drop_space_stop [] h = refl
  drop_space_stop (c ∷ s) h = rw h

  drop_space-width : w [] ≡ 0 → (k : ℕ) (s : Bytes) → w (drop_space w k s) ≡ 0
  unfolding drop_space
  drop_space-width e k [] = e
  drop_space-width e (suc k) (c ∷ s) = drop_space-width e k s
  drop_space-width e zero (c ∷ s) = ground (arith, drop_space-width e (w (c ∷ s) - 1) s)

  drop_space_suffix : (k : ℕ) (s : Bytes) → (front : Bytes) × (s ≡ front ++ drop_space w k s)
  unfolding drop_space
  drop_space_suffix k [] = ([], refl)
  drop_space_suffix (suc k) (c ∷ s) =
      let (front, e) = drop_space_suffix k s in (c ∷ front, ap (◌∷◌ c) e)
  drop_space_suffix zero (c ∷ s) = elim (Bool-cases (w (c ∷ s) == 0)) [
    | inl stop ↦ ([], rw stop)
    | inr more ↦
        let (front, e) = drop_space_suffix (w (c ∷ s) - 1) s in (c ∷ front, rw more (ap (◌∷◌ c) e))
  ]

-- A text that begins with no white space has none at the front of any part from the front.
width-append : (s t : Bytes) → width (s ++ t) ≡ 0 → width s ≡ 0
unfolding width
width-append [] t h = refl
width-append (a ∷ []) [] h = h
width-append (a ∷ []) (b ∷ []) h = ground arith
width-append (a ∷ []) (b ∷ c ∷ t) h = ground arith
width-append (a ∷ b ∷ []) [] h = h
width-append (a ∷ b ∷ []) (c ∷ t) h = ground arith
width-append (a ∷ b ∷ c ∷ s) t h = h

pub trim_space_idem : (s : Bytes) → trim_space (trim_space s) ≡ trim_space s
unfolding trim_space
trim_space_idem s =
    let inner : Bytes = drop_space width 0 s in
    let back : Bytes = drop_space width_back 0 (reverse inner) in
    let (front, e) = drop_space_suffix width_back 0 (reverse inner) in
    let whole : inner ≡ reverse back ++ reverse front =
      sym (reverse-reverse inner) ∙ ap reverse e ∙ reverse-append front back in
    let no_space : width (reverse back) ≡ 0 =
      width-append (reverse back) (reverse front)
        (rw (← whole) (drop_space-width width (unfold width in refl) 0 s)) in
    let left : drop_space width 0 (reverse back) ≡ reverse back =
      drop_space_stop width (reverse back) no_space in
    let right : drop_space width_back 0 back ≡ back =
      drop_space_stop width_back back
        (drop_space-width width_back (unfold width_back in refl) 0 (reverse inner)) in
    ap (λ t. reverse (drop_space width_back 0 (reverse t))) left
    ∙ ap (λ t. reverse (drop_space width_back 0 t)) (reverse-reverse back)
    ∙ ap reverse right

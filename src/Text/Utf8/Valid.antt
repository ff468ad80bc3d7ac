-- ===== src/Text/Utf8/Valid.antt =====
-- Texts that are valid UTF-8 stay as they are, and what keeps them so.
use womprat.Base.{
  Bytes, ℕ, zero, suc, ◌-◌, Bool, true, false, not, ◌&&◌, [], ◌∷◌, ◌++◌, ◌==◌, nat_eq, ltb, all,
  length, map, Bool-cases, ◌≡◌, refl, sym, subst, ap, ◌∙◌, ◌⊎◌, inl, inr, arith,
}
use womprat.Text.Utf8.Laws.{length-copy_valid}
use womprat.Text.Utf8.Defs.{
  within, is_continuation, second_ok, rune_width, copy_valid, to_valid_utf8,
}

pub ascii_width : (c : ℕ) (t : Bytes) → ltb c 128 ≡ true → rune_width (c ∷ t) ≡ 1
unfolding rune_width
ascii_width c [] q = rw q refl
ascii_width c (_ ∷ []) q = rw q refl
ascii_width c (_ ∷ _ ∷ []) q = rw q refl
ascii_width c (_ ∷ _ ∷ _ ∷ t) q = rw q refl

abbrev two : ℕ → ℕ → Bool
two a b = not (ltb a 128) && (within 0xC2 0xDF a && is_continuation b)

abbrev three : ℕ → ℕ → ℕ → Bool
three a b c =
    not (ltb a 128)
    && (not (within 0xC2 0xDF a && is_continuation b)
        && (within 0xE0 0xEF a && second_ok a b && is_continuation c))

abbrev four : ℕ → ℕ → ℕ → ℕ → Bool
four a b c d =
    not (ltb a 128)
    && (not (within 0xC2 0xDF a && is_continuation b)
        && (not (within 0xE0 0xEF a && second_ok a b && is_continuation c)
            && (within 0xF0 0xF4 a && second_ok a b && is_continuation c && is_continuation d)))

two_width : (a b : ℕ) (t : Bytes) → two a b ≡ true → rune_width (a ∷ b ∷ t) ≡ 2
unfolding rune_width
two_width a b [] q = ground (arith, q)
two_width a b (_ ∷ []) q = ground (arith, q)
two_width a b (_ ∷ _ ∷ t) q = ground (arith, q)

three_width : (a b c : ℕ) (t : Bytes) → three a b c ≡ true → rune_width (a ∷ b ∷ c ∷ t) ≡ 3
unfolding rune_width
three_width a b c [] q = ground (arith, q)
three_width a b c (_ ∷ t) q = ground (arith, q)

four_width : (a b c d : ℕ) (t : Bytes) → four a b c d ≡ true → rune_width (a ∷ b ∷ c ∷ d ∷ t) ≡ 4
unfolding rune_width
four_width a b c d t q = ground (arith, q)

-- The rune at the front of a text, and how wide it is.
abbrev Width : ℕ → Bytes → Type 0
Width a s =
    (rune_width (a ∷ s) ≡ 0)
    ⊎ ((ltb a 128 ≡ true) × (rune_width (a ∷ s) ≡ 1))
    ⊎ ((b : ℕ) × (t : Bytes) × (s ≡ b ∷ t) × (two a b ≡ true))
    ⊎ ((b c : ℕ) × (t : Bytes) × (s ≡ b ∷ c ∷ t) × (three a b c ≡ true))
    ⊎ ((b c d : ℕ) × (t : Bytes) × (s ≡ b ∷ c ∷ d ∷ t) × (four a b c d ≡ true))

wide_four :
    (a b c d : ℕ) (s : Bytes)
    → ltb a 128 ≡ false
    → two a b ≡ false
    → three a b c ≡ false
    → Width a (b ∷ c ∷ d ∷ s)
unfolding rune_width
wide_four a b c d s q w v = elim (Bool-cases (four a b c d)) [
  | inl u ↦ inr (inr (inr (inr (b, c, d, s, refl, u))))
  | inr u ↦ inl (ground (arith, q, w, v, u))
]

wide_three : (a b c : ℕ) (s : Bytes) → ltb a 128 ≡ false → two a b ≡ false → Width a (b ∷ c ∷ s)
unfolding rune_width
wide_three a b c [] q w = elim (Bool-cases (three a b c)) [
  | inl u ↦ inr (inr (inr (inl (b, c, [], refl, u))))
  | inr u ↦ inl (ground (arith, q, w, u))
]
wide_three a b c (d ∷ s) q w = elim (Bool-cases (three a b c)) [
  | inl u ↦ inr (inr (inr (inl (b, c, d ∷ s, refl, u))))
  | inr u ↦ wide_four a b c d s q w u
]

wide_two : (a b : ℕ) (s : Bytes) → ltb a 128 ≡ false → Width a (b ∷ s)
unfolding rune_width
wide_two a b [] q = elim (Bool-cases (two a b)) [
  | inl u ↦ inr (inr (inl (b, [], refl, u)))
  | inr u ↦ inl (ground (arith, q, u))
]
wide_two a b (c ∷ s) q = elim (Bool-cases (two a b)) [
  | inl u ↦ inr (inr (inl (b, c ∷ s, refl, u)))
  | inr u ↦ wide_three a b c s q u
]

Width-cases : (a : ℕ) (s : Bytes) → Width a s
unfolding rune_width
Width-cases a [] = elim (Bool-cases (ltb a 128)) [
  | inl q ↦ inr (inl (q, ascii_width a [] q))
  | inr q ↦ inl (rw q refl)
]
Width-cases a (b ∷ s) = elim (Bool-cases (ltb a 128)) [
  | inl q ↦ inr (inl (q, ascii_width a (b ∷ s) q))
  | inr q ↦ wide_two a b s q
]

-- What is copied behind a rune does not change the rune.
width-copy_valid :
    (a : ℕ) (s : Bytes)
    → (rune_width (a ∷ s) ≡ 0)
      ⊎ (rune_width (a ∷ copy_valid (rune_width (a ∷ s) - 1) s) ≡ rune_width (a ∷ s))
unfolding copy_valid
width-copy_valid a s = elim (Width-cases a s) [
  | inl q ↦ inl q
  | inr (inl (q, w)) ↦ inr (rw w (ascii_width a _ q))
  | inr (inr (inl (b, t, e, q))) ↦
      inr (rw (e, two_width a b t q) (two_width a b (copy_valid 0 t) q))
  | inr (inr (inr (inl (b, c, t, e, q)))) ↦
      inr (rw (e, three_width a b c t q) (three_width a b c (copy_valid 0 t) q))
  | inr (inr (inr (inr (b, c, d, t, e, q)))) ↦
      inr (rw (e, four_width a b c d t q) (four_width a b c d (copy_valid 0 t) q))
]

copy_valid_idem : (k : ℕ) (s : Bytes) → copy_valid k (copy_valid k s) ≡ copy_valid k s
unfolding copy_valid
copy_valid_idem k [] = refl
copy_valid_idem (suc k) (c ∷ s) = ap (◌∷◌ c) (copy_valid_idem k s)
copy_valid_idem zero (c ∷ s) = elim (Bool-cases (rune_width (c ∷ s) == 0)) [
  | inl q ↦
      let z : rune_width (c ∷ s) - 1 ≡ 0 = ground (arith, q) in
      rw q
        (subst (λ k. copy_valid 0 (copy_valid k s) ≡ copy_valid k s) (sym z) (copy_valid_idem 0 s))
  | inr q ↦ elim (width-copy_valid c s) [
    | inl w ↦ absurd (ground (arith, q, w))
    | inr w ↦ rw (q, w, q) (ap (◌∷◌ c) (copy_valid_idem (rune_width (c ∷ s) - 1) s))
  ]
]

abbrev pub IsValid : Bytes → Type 0
IsValid s = copy_valid 0 s ≡ s

pub to_valid_utf8-IsValid : (s : Bytes) → IsValid (to_valid_utf8 s)
unfolding to_valid_utf8
to_valid_utf8-IsValid s = copy_valid_idem 0 s

pub ascii-IsValid : (s : Bytes) → all (λ c. ltb c 128) s ≡ true → IsValid s
unfolding copy_valid
ascii-IsValid [] h = refl
ascii-IsValid (c ∷ s) h =
    rw (ascii_width c s (ground arith)) (ap (◌∷◌ c) (ascii-IsValid s (ground arith)))

pub IsValid-tail : (c : ℕ) (s : Bytes) → ltb c 128 ≡ true → IsValid (c ∷ s) → IsValid s
unfolding copy_valid
IsValid-tail c s q h =
    let e : c ∷ copy_valid 0 s ≡ c ∷ s = rw (copy_valid, ascii_width c s q) at h in
    ground (arith, e)

pub IsValid-width : (c : ℕ) (s : Bytes) → IsValid (c ∷ s) → (rune_width (c ∷ s) == 0) ≡ false
unfolding copy_valid
IsValid-width c s h = elim (Bool-cases (rune_width (c ∷ s) == 0)) [
  | inr q ↦ q
  | inl q ↦
      let e : copy_valid (rune_width (c ∷ s) - 1) s ≡ c ∷ s = rw (copy_valid, q) at h in
      let l : length (copy_valid (rune_width (c ∷ s) - 1) s) ≡ suc (length s) = ap length e in
      absurd (omega (arith, l, length-copy_valid (rune_width (c ∷ s) - 1) s))
]

module _ (f : ℕ → ℕ)
    (tame : (c : ℕ)
      → ((ltb c 128 ≡ true) × (ltb (f c) 128 ≡ true)) ⊎ ((ltb c 128 ≡ false) × (f c ≡ c))) where
  continuation-map : (c : ℕ) → is_continuation (f c) ≡ is_continuation c
  continuation-map c = elim (tame c) [ inl h ↦ ground (arith, h) | inr h ↦ rw h.1 refl ]

  width-map : (a : ℕ) (s : Bytes) → rune_width (f a ∷ map f s) ≡ rune_width (a ∷ s)
  unfolding rune_width second_ok
  width-map a s = elim (tame a) [
    | inl h ↦ ascii_width (f a) (map f s) h.1 ∙ sym (ascii_width a s h.0)
    | inr h ↦ rw h.1 (same a s)
  ]
    where
      same : (a : ℕ) (s : Bytes) → rune_width (a ∷ map f s) ≡ rune_width (a ∷ s)
      same a [] = refl
      same a (b ∷ []) = rw (continuation-map b) refl
      same a (b ∷ c ∷ []) = elim (tame b) [
        | inl h ↦ ground (arith, h)
        | inr h ↦ rw h.1 (rw (continuation-map c) refl)
      ]
      same a (b ∷ c ∷ d ∷ s) = elim (tame b) [
        | inl h ↦ ground (arith, h)
        | inr h ↦ rw h.1 (rw (continuation-map c, continuation-map d) refl)
      ]

  copy_valid-map : (k : ℕ) (s : Bytes) → copy_valid k (map f s) ≡ map f (copy_valid k s)
  unfolding copy_valid
  copy_valid-map k [] = refl
  copy_valid-map (suc k) (c ∷ s) = ap (◌∷◌ (f c)) (copy_valid-map k s)
  copy_valid-map zero (c ∷ s) =
      let rest = copy_valid-map (rune_width (c ∷ s) - 1) s in
      elim (Bool-cases (rune_width (c ∷ s) == 0)) [
        | inl q ↦ rw (width-map c s, q) rest
        | inr q ↦ rw (width-map c s, q) (ap (◌∷◌ (f c)) rest)
      ]

  pub map-IsValid : (s : Bytes) → IsValid s → IsValid (map f s)
  map-IsValid s h = copy_valid-map 0 s ∙ ap (map f) h

-- A rune stays when the text is cut in front of an ASCII byte.
pub width-cut :
    (c : ℕ) (r : Bytes) (d : ℕ) (t : Bytes)
    → ltb d 128 ≡ true
    → (rune_width (c ∷ (r ++ (d ∷ t))) == 0) ≡ false
    → (rune_width (c ∷ r) == 0) ≡ false
unfolding rune_width second_ok
width-cut c [] d [] q h = ground (arith, q, h)
width-cut c [] d (x ∷ []) q h = ground (arith, q, h)
width-cut c [] d (x ∷ y ∷ t) q h = ground (arith, q, h)
width-cut c (b ∷ []) d [] q h = ground (arith, q, h)
width-cut c (b ∷ []) d (x ∷ t) q h = ground (arith, q, h)
width-cut c (b ∷ b₂ ∷ []) d t q h = ground (arith, q, h)
width-cut c (b ∷ b₂ ∷ b₃ ∷ r) d t q h = h

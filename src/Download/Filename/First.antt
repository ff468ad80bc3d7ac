-- ===== src/Download/Filename/First.antt =====
-- The first character of a file name is never cut off or replaced by a dot.
use mathlib.Core.List.{reverse, reverse-append, reverse-reverse, append-nil}
use womprat.Base.{
  Bytes, codes, ℕ, Bool, drop, ◌-◌, ◌≤◌, true, false, [], ◌∷◌, ◌++◌, ◌==◌, nat_eq, bytes_eq,
  eqb_iff, ltb, any, length, take, take-append-drop, if◌then◌else◌, ◌≡◌, refl, sym, subst, ap, ◌∙◌,
  ◌⊎◌, inl, inr, arith, All, All-reverse, Bool-cases,
}
use womprat.Platform.{Platform}
use womprat.Text.Search.{trim_suffix, trim_left, has_suffix}
use womprat.Text.Space.{trim_space}
use womprat.Text.Utf8.{
  rune_width, truncate_utf8_bytes, length-truncate, IsValid, to_valid_utf8-IsValid, IsValid-tail,
  IsValid-width, map-IsValid, width-cut, truncate-head, ascii_width, ascii-IsValid,
}
use womprat.Download.Filename.Defs.{
  replace_byte, trim_dots, ext_back, ext, is_reserved, clean_name, shorten, avoid_reserved,
}
use womprat.Download.Filename.Trimmed.{trim_left-first}

-- The first byte of a text is neither a dot nor a space.
abbrev pub StartsWell : Bytes → Type 0
StartsWell s = (c : ℕ) × (rest : Bytes) × (s ≡ c ∷ rest) × (any (λ d. c == d) (codes " .") ≡ false)

-- And it begins a rune.
abbrev Stays : Bytes → Type 0
Stays s =
    (c : ℕ) × (rest : Bytes) × (s ≡ c ∷ rest)
    × (any (λ d. c == d) (codes " .") ≡ false)
    × ((rune_width (c ∷ rest) == 0) ≡ false)

-- nothing, or an ASCII byte and more
abbrev CutsAtAscii : Bytes → Type 0
CutsAtAscii e = (e ≡ []) ⊎ ((d : ℕ) × (t : Bytes) × (e ≡ d ∷ t) × (ltb d 128 ≡ true))

Stays-cut :
    (c : ℕ) (rest r e : Bytes)
    → c ∷ rest ≡ r ++ e
    → CutsAtAscii e
    → any (λ d. c == d) (codes " .") ≡ false
    → (rune_width (c ∷ rest) == 0) ≡ false
    → (r ≡ []) ⊎ Stays r
Stays-cut c rest [] e same cut other wide = inl refl
Stays-cut c rest (x ∷ r) e same cut other wide =
    let first : c ≡ x = ground (arith, same) in
    let whole : (rune_width (x ∷ (r ++ e)) == 0) ≡ false =
      subst (λ y. (rune_width y == 0) ≡ false) same wide in
    inr (
      x,
      r,
      refl,
      subst (λ y. any (λ d. y == d) (codes " .") ≡ false) first other,
      elim cut [
        | inl none ↦
            subst (λ y. (rune_width (x ∷ y) == 0) ≡ false) (ap (λ y. r ++ y) none ∙ append-nil r)
              whole
        | inr (d, t, ends, small) ↦
            width-cut x r d t small
              (subst (λ y. (rune_width (x ∷ (r ++ y)) == 0) ≡ false) ends whole)
      ],
    )

trim_left-IsValid : (s : Bytes) → IsValid s → IsValid (trim_left (codes " .") s)
unfolding trim_left
trim_left-IsValid [] h = h
trim_left-IsValid (c ∷ s) h = elim (Bool-cases (any (λ d. c == d) (codes " ."))) [
  | inl cut ↦ rw cut (trim_left-IsValid s (IsValid-tail c s (ground (arith, cut)) h))
  | inr stays ↦ rw stays h
]

abbrev IsAscii : ℕ → Type 0
IsAscii c = ltb c 128 ≡ true

trim_left-split :
    (s : Bytes) → (pre : Bytes) × (s ≡ pre ++ trim_left (codes " .") s) × All IsAscii pre
unfolding trim_left
trim_left-split [] = ([], refl, tt)
trim_left-split (c ∷ s) = elim (Bool-cases (any (λ d. c == d) (codes " ."))) [
  | inl cut ↦
      let h = trim_left-split s in (c ∷ h.0, rw cut (ap (◌∷◌ c) h.1), (ground (arith, cut), h.2))
  | inr stays ↦ ([], rw stays refl, tt)
]

ascii-CutsAtAscii : (e : Bytes) → All IsAscii e → CutsAtAscii e
ascii-CutsAtAscii [] h = inl refl
ascii-CutsAtAscii (d ∷ t) h = inr (d, t, refl, h.0)

trim_dots-Stays : (s : Bytes) → IsValid s → (trim_dots s ≡ []) ⊎ Stays (trim_dots s)
unfolding trim_dots trim_left
trim_dots-Stays s h =
    let t : Bytes = trim_left (codes " .") s in
    let u : Bytes = trim_left (codes " .") (reverse t) in
    let split = trim_left-split (reverse t) in
    let whole : t ≡ reverse u ++ reverse split.0 =
      sym (reverse-reverse t) ∙ ap reverse split.1 ∙ reverse-append split.0 u in
    elim (trim_left-first (codes " .") s) [
      | inl none ↦ inl (rw none refl)
      | inr (c, rest, e, other) ↦
          Stays-cut c rest (reverse u) (reverse split.0) (sym e ∙ whole)
            (ascii-CutsAtAscii _ (All-reverse IsAscii _ split.2)) other
            (IsValid-width c rest (subst IsValid e (trim_left-IsValid s h)))
    ]

replace_byte-tame :
    (c : ℕ)
    → ((ltb c 128 ≡ true) × (ltb (replace_byte c) 128 ≡ true))
      ⊎ ((ltb c 128 ≡ false) × (replace_byte c ≡ c))
replace_byte-tame c = elim (Bool-cases (ltb c 128)) [
  | inl q ↦ inl (q, ground (arith, q))
  | inr q ↦ inr (q, ground (arith, q))
]

named-IsValid : (s : Bytes) → IsValid s → (b : Bool) → IsValid (if b then codes "download" else s)
named-IsValid s h true = ascii-IsValid (codes "download") refl
named-IsValid s h false = h

download-Stays : Stays (codes "download")
download-Stays =
    (b'd', codes "ownload", refl, refl, rw (ascii_width b'd' (codes "ownload") refl) refl)

or_download-Stays :
    (s : Bytes) → (s ≡ []) ⊎ Stays s → Stays (if s == [] then codes "download" else s)
or_download-Stays s h = elim (Bool-cases (s == [])) [
  | inl q ↦ rw q download-Stays
  | inr q ↦ elim h [ inl none ↦ absurd (cc (q, (eqb_iff s []).1 none)) | inr stays ↦ rw q stays ]
]

clean_name-Stays : (filename : Bytes) → Stays (clean_name filename)
unfolding clean_name
clean_name-Stays filename = or_download-Stays _ (
    trim_dots-Stays _ (
      map-IsValid replace_byte replace_byte-tame _
        (named-IsValid _ (to_valid_utf8-IsValid (trim_space filename)) _)))

avoid_reserved-Stays :
    (p : Platform) (filename : Bytes) → Stays filename → Stays (avoid_reserved p filename)
unfolding avoid_reserved
avoid_reserved-Stays p filename h =
    elim (Bool-cases (is_reserved (p.to_upper (trim_suffix filename (ext filename))))) [
      | inl reserved ↦
          rw reserved (b'_', filename, refl, refl, rw (ascii_width b'_' filename refl) refl)
      | inr free ↦ rw free h
    ]

ext_back-dot : (acc s : Bytes) → (ext_back acc s ≡ []) ⊎ ((t : Bytes) × (ext_back acc s ≡ b'.' ∷ t))
unfolding ext_back
ext_back-dot acc [] = inl refl
ext_back-dot acc (c ∷ s) = elim (Bool-cases (c == b'/')) [
  | inl slash ↦ inl (rw slash refl)
  | inr other ↦ elim (Bool-cases (c == b'.')) [
    | inl dot ↦ inr (acc, rw (other, dot) (ap (λ x. x ∷ acc) (ground (arith, dot))))
    | inr on ↦ rw (other, on) (ext_back-dot (c ∷ acc) s)
  ]
]

ext-dot : (s : Bytes) → (ext s ≡ []) ⊎ ((t : Bytes) × (ext s ≡ b'.' ∷ t))
unfolding ext
ext-dot s = ext_back-dot [] (reverse s)

ext-CutsAtAscii : (s : Bytes) → CutsAtAscii (ext s)
ext-CutsAtAscii s = elim (ext-dot s) [ inl none ↦ inl none | inr (t, e) ↦ inr (b'.', t, e, refl) ]

-- A name that begins well is not its own extension.
not_ext :
    (c : ℕ) (rest name : Bytes) → any (λ d. c == d) (codes " .") ≡ false → c ∷ rest ≡ ext name → ⊥
not_ext c rest name other e = elim (ext-dot name) [
  | inl none ↦ absurd (ground (arith, e ∙ none))
  | inr (t, dot) ↦
      let first : c ≡ b'.' = ground (arith, e ∙ dot) in absurd (ground (arith, first, other))
]

base-Stays : (name : Bytes) → Stays name → Stays (trim_suffix name (ext name))
unfolding trim_suffix has_suffix
base-Stays name (c, rest, e, other, wide) = elim (Bool-cases (has_suffix name (ext name))) [
  | inr missing ↦ rw missing (c, rest, e, other, wide)
  | inl found ↦
      let n : ℕ = length name - length (ext name) in
      let same : drop n name ≡ ext name =
        (eqb_iff (drop n name) (ext name)).0 (ground (arith, found)) in
      let whole : c ∷ rest ≡ take n name ++ ext name =
        sym e ∙ sym (take-append-drop n name) ∙ ap (λ x. take n name ++ x) same in
      rw found
        (elim (Stays-cut c rest (take n name) (ext name) whole (ext-CutsAtAscii name) other wide) [
          | inr stays ↦ stays
          | inl none ↦ elim (not_ext c rest name other (whole ∙ ap (λ x. x ++ ext name) none)) [ ]
        ])
]

cut_base :
    (base short : Bytes)
    → Stays base
    → length short ≤ 32
    → StartsWell (
        truncate_utf8_bytes base (if ltb (180 - length short) 1 then 1 else 180 - length short)
        ++ short)
cut_base base short (c, rest, e, other, wide) small =
    let room : ℕ = if ltb (180 - length short) 1 then 1 else 180 - length short in
    let t = truncate-head c rest room wide (ground (arith, small)) in
    (
      c,
      t.0 ++ short,
      ap (λ x. truncate_utf8_bytes x room ++ short) e ∙ ap (λ x. x ++ short) t.1,
      other,
    )

shorten-StartsWell : (name : Bytes) → Stays name → StartsWell (shorten name)
unfolding shorten
shorten-StartsWell name h = elim (Bool-cases (ltb 180 (length name))) [
  | inl long ↦ rw long (
      cut_base (trim_suffix name (ext name)) (truncate_utf8_bytes (ext name) 32) (base-Stays name h)
        (length-truncate (ext name) 32))
  | inr fits ↦ rw fits (h.0, h.1, h.2, h.3)
]

-- The name that comes out begins with neither a dot nor a space.
pub sanitize-StartsWell :
    (p : Platform) (filename : Bytes)
    → StartsWell (shorten (avoid_reserved p (clean_name filename)))
sanitize-StartsWell p filename =
    shorten-StartsWell _ (avoid_reserved-Stays p _ (clean_name-Stays filename))

-- ===== src/Download/Filename/Safe.antt =====
-- Every name that the sanitizer returns is short and harmless, and the chosen path is free.
use mathlib.Core.List.{reverse, reverse-cons}
use womprat.Base.{
  Bytes, codes, ℕ, zero, suc, ◌+◌, ◌-◌, ◌≤◌, ◌<◌, Bool, true, false, none, some, [], ◌∷◌, map, ◌==◌,
  nat_eq, nat_eqb, eqb, bytes_eq, ltb, any, length, if◌then◌else◌, ◌≡◌, ◌≢◌, refl, sym, ap, ◌∙◌,
  ◌++◌, ◌⊎◌, inl, inr, arith, All, All-append, All-reverse, Bool-cases, Option-cases, length-append,
}
use womprat.Platform.{Platform}
use womprat.Text.Search.{trim_suffix, trim_left, All-trim_left, All-trim_suffix}
use womprat.Text.Utf8.{truncate_utf8_bytes, All-truncate, length-truncate}
use womprat.Download.Filename.Trimmed.{trim_left-first}
use womprat.Download.Filename.First.{StartsWell, sanitize-StartsWell}
use womprat.Download.Filename.Defs.{
  is_safe, replace_byte, trim_dots, ext_back, ext, is_reserved, clean_name, shorten, avoid_reserved,
  sanitize_download_filename, free_candidate, numbered_path, unique_download_path,
}

abbrev pub Safe : ℕ → Type 0
Safe c = is_safe c ≡ true

replace_byte-Safe : (c : ℕ) → Safe (replace_byte c)
replace_byte-Safe c = ground arith

map-Safe : (s : Bytes) → All Safe (map replace_byte s)
map-Safe [] = tt
map-Safe (c ∷ s) = (replace_byte-Safe c, map-Safe s)

module _ (P : ℕ → Type 0) where
  All-trim_dots : (s : Bytes) → All P s → All P (trim_dots s)
  unfolding trim_dots
  All-trim_dots s h =
      All-reverse P _ (All-trim_left P _ _ (All-reverse P _ (All-trim_left P (codes " .") s h)))

  All-ext_back : (acc s : Bytes) → All P acc → All P s → All P (ext_back acc s)
  unfolding ext_back
  All-ext_back acc [] k h = tt
  All-ext_back acc (c ∷ s) k h = elim (Bool-cases (c == b'/')) [
    | inl slash ↦ rw slash tt
    | inr other ↦ rw other (elim (Bool-cases (c == b'.')) [
      | inl dot ↦ rw dot (h.0, k)
      | inr on ↦ rw on (All-ext_back (c ∷ acc) s (h.0, k) h.1)
    ])
  ]

  All-ext : (s : Bytes) → All P s → All P (ext s)
  unfolding ext
  All-ext s h = All-ext_back [] (reverse s) tt (All-reverse P s h)

-- The last byte of a text is neither a dot nor a space.
abbrev pub EndsWell : Bytes → Type 0
EndsWell s =
    (front : Bytes) × (c : ℕ) × (s ≡ front ++ (c ∷ [])) × (any (λ d. c == d) (codes " .") ≡ false)

trim_dots-last : (s : Bytes) → (trim_dots s ≡ []) ⊎ EndsWell (trim_dots s)
unfolding trim_dots
trim_dots-last s = elim (trim_left-first (codes " .") (reverse (trim_left (codes " .") s))) [
  | inl q ↦ inl (ap reverse q)
  | inr (c, rest, q, ends) ↦ inr (reverse rest, c, ap reverse q ∙ reverse-cons c rest, ends)
]

clean_name-EndsWell : (filename : Bytes) → EndsWell (clean_name filename)
unfolding clean_name eqb
clean_name-EndsWell filename = named _ (trim_dots-last _)
  where
    named : (s : Bytes) → (s ≡ []) ⊎ EndsWell s → EndsWell (if s == [] then codes "download" else s)
    named s (inl e) = rw e (codes "downloa", b'd', refl, refl)
    named s (inr h) = elim (Bool-cases (s == [])) [
      | inl q ↦ rw q (codes "downloa", b'd', refl, refl)
      | inr q ↦ rw q h
    ]

-- A text that begins well is no name of a directory.
StartsWell-name : (s : Bytes) → StartsWell s → (s ≢ []) × (s ≢ codes ".") × (s ≢ codes "..")
StartsWell-name s (c, rest, e, other) = (
  λ q. absurd (ground (arith, sym e ∙ q)),
  λ q. absurd (ground (arith, sym e ∙ q)),
  λ q. absurd (ground (arith, sym e ∙ q)),
)

or_download : (s : Bytes) → All Safe s → All Safe (if s == [] then codes "download" else s)
or_download s h = elim (Bool-cases (s == [])) [
  | inl empty ↦ rw empty (refl, (refl, (refl, (refl, (refl, (refl, (refl, (refl, tt))))))))
  | inr named ↦ rw named h
]

clean_name-Safe : (filename : Bytes) → All Safe (clean_name filename)
unfolding clean_name
clean_name-Safe filename = or_download _ (All-trim_dots Safe _ (map-Safe _))

shorten-Safe : (filename : Bytes) → All Safe filename → All Safe (shorten filename)
unfolding shorten
shorten-Safe filename h = elim (Bool-cases (ltb 180 (length filename))) [
  | inl long ↦ rw long (
      All-append Safe _ _ (All-truncate Safe _ _ (All-trim_suffix Safe filename (ext filename) h))
        (All-truncate Safe _ 32 (All-ext Safe filename h)))
  | inr fits ↦ rw fits h
]

shorten-le : (filename : Bytes) → length (shorten filename) ≤ 180
unfolding shorten
shorten-le filename = ground (
  arith,
  length-truncate (ext filename) 32,
  length-truncate (trim_suffix filename (ext filename))
      (180 - length (truncate_utf8_bytes (ext filename) 32)),
  length-append
      (truncate_utf8_bytes (trim_suffix filename (ext filename))
        (180 - length (truncate_utf8_bytes (ext filename) 32)))
      (truncate_utf8_bytes (ext filename) 32),
)

shorten-EndsWell : (name : Bytes) → EndsWell name → EndsWell (shorten name) ⊎ (180 < length name)
unfolding shorten
shorten-EndsWell name h = elim (Bool-cases (ltb 180 (length name))) [
  | inl long ↦ inr (ground (arith, long))
  | inr fits ↦ rw fits (inl h)
]

-- The name is that of a file: neither empty nor one of the names of directories, and not hidden.
abbrev pub IsFileName : Bytes → Type 0
IsFileName s = (s ≢ []) × (s ≢ codes ".") × (s ≢ codes "..") × StartsWell s

file_name : (s : Bytes) → StartsWell s → IsFileName s
file_name s h = let k = StartsWell-name s h in (k.0, k.1, k.2, h)

module _ (p : Platform) where
  avoid_reserved-Safe :
      (filename : Bytes) → All Safe filename → All Safe (avoid_reserved p filename)
  unfolding avoid_reserved
  avoid_reserved-Safe filename h =
      elim (Bool-cases (is_reserved (p.to_upper (trim_suffix filename (ext filename))))) [
        | inl reserved ↦ rw reserved (refl, h)
        | inr free ↦ rw free h
      ]

  avoid_reserved-EndsWell :
      (filename : Bytes) → EndsWell filename → EndsWell (avoid_reserved p filename)
  unfolding avoid_reserved
  avoid_reserved-EndsWell filename (front, c, e, ends) =
      elim (Bool-cases (is_reserved (p.to_upper (trim_suffix filename (ext filename))))) [
        | inl reserved ↦ rw reserved (b'_' ∷ front, c, ap (◌∷◌ b'_') e, ends)
        | inr free ↦ rw free (front, c, e, ends)
      ]

  -- Whatever a server or a URL suggests, the file name has at most 180 bytes and no byte of
  -- `<>:"/\|?*`, no control character and no DEL. It is neither empty nor `.` nor `..`, and begins
  -- with neither a dot nor a space. It also ends with neither, unless it had more than 180 bytes before
  -- the last step, which cuts it.
  pub sanitize-Safe :
      (filename : Bytes)
      → All Safe (sanitize_download_filename p filename)
        × (length (sanitize_download_filename p filename) ≤ 180)
        × (IsFileName (sanitize_download_filename p filename))
        × (EndsWell (sanitize_download_filename p filename)
            ⊎ (180 < length (avoid_reserved p (clean_name filename))))
  unfolding sanitize_download_filename
  sanitize-Safe filename = (
    shorten-Safe _ (avoid_reserved-Safe _ (clean_name-Safe filename)),
    shorten-le (avoid_reserved p (clean_name filename)),
    file_name _ (sanitize-StartsWell p filename),
    shorten-EndsWell (avoid_reserved p (clean_name filename))
        (avoid_reserved-EndsWell _ (clean_name-EndsWell filename)),
  )

free_candidate-some :
    (exists_path : Bytes → Bool) (candidate : ℕ → Bytes) (left i : ℕ) (c : Bytes)
    → free_candidate exists_path candidate left i ≡ some c
    → exists_path c ≡ false
unfolding free_candidate
free_candidate-some exists_path candidate zero i c h = cc
free_candidate-some exists_path candidate (suc left) i c h =
    ground (arith, free_candidate-some exists_path candidate left (suc i) c)

free_candidate-none :
    (exists_path : Bytes → Bool) (candidate : ℕ → Bytes) (left i j : ℕ)
    → free_candidate exists_path candidate left i ≡ none
    → i ≤ j
    → j < i + left
    → exists_path (candidate j) ≡ true
unfolding free_candidate
free_candidate-none exists_path candidate zero i j h lo hi = absurd (omega arith)
free_candidate-none exists_path candidate (suc left) i j h lo hi = elim (Bool-cases (nat_eqb i j)) [
  | inl same ↦ ground arith
  | inr later ↦
      free_candidate-none exists_path candidate left (suc i) j (ground arith) (ground arith)
        (omega arith)
]

module _ (p : Platform) (exists_path : Bytes → Bool) (join : Bytes → Bytes → Bytes) (now : ℕ)
    (dir name : Bytes) where
  -- The path of a download names no existing file, unless the plain name and all of the 9999
  -- numbered ones are taken; then the name carries the time.
  pub unique_download_path_free :
      (exists_path (unique_download_path p exists_path join now dir name) ≡ false)
      ⊎ ((exists_path (join dir (sanitize_download_filename p name)) ≡ true)
          × ((i : ℕ) → 1 ≤ i → i < 10000 → exists_path (numbered_path p join dir name i) ≡ true)
          × (unique_download_path p exists_path join now dir name
              ≡ numbered_path p join dir name now))
  unfolding unique_download_path
  unique_download_path_free = elim (Bool-cases (exists_path plain)) [
    | inr free ↦ inl (rw free free)
    | inl taken ↦ elim (Option-cases (free_candidate exists_path numbered 9999 1)) [
      | inr (c, found) ↦
          inl (rw (taken, found) (free_candidate-some exists_path numbered 9999 1 c found))
      | inl full ↦ inr (
        taken,
        λ i lo hi. free_candidate-none exists_path numbered 9999 1 i full lo hi,
        rw (taken, full),
      )
    ]
  ]
    where
      plain : Bytes
      plain = join dir (sanitize_download_filename p name)

      numbered : ℕ → Bytes
      numbered = numbered_path p join dir name

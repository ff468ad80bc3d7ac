-- ===== src/Download/Filename/Defs.antt =====
-- `sanitizeDownloadFilename`, `filenameFromURL` and `uniqueDownloadPath`.
use mathlib.Core.List.{reverse}
use womprat.Base.{
  Bytes, codes, ℕ, zero, suc, ◌-◌, Bool, not, ◌||◌, Option, none, some, List, [], ◌∷◌, ◌++◌, map,
  ◌==◌, nat_eq, bytes_eq, ltb, any, length, if◌then◌else◌,
}
use womprat.Platform.{Platform}
use womprat.Text.Search.{trim_suffix, trim_left}
use womprat.Text.Space.{trim_space}
use womprat.Text.Utf8.{to_valid_utf8, truncate_utf8_bytes}
use womprat.Text.Decimal.{decimal}

-- The mapping of `strings.Map` changes ASCII characters only, so it goes byte by byte.
abbrev pub replace_byte : ℕ → ℕ
replace_byte c = if any (λ d. c == d) (codes "<>:\"/\\|?*") || ltb c 32 || c == 127 then b'_' else c

-- A byte that `replace_byte` keeps.
abbrev pub is_safe : ℕ → Bool
is_safe c = not (any (λ d. c == d) (codes "<>:\"/\\|?*") || ltb c 32 || c == 127)

-- strings.Trim(s, " .")
unfoldable pub trim_dots : Bytes → Bytes
trim_dots s = reverse (trim_left (codes " .") (reverse (trim_left (codes " .") s)))

-- filepath.Ext: from the last dot behind the last separator, on the reversed text
unfoldable pub ext_back : Bytes → Bytes → Bytes
ext_back acc [] = []
ext_back acc (c ∷ s) =
    let rest = ext_back (c ∷ acc) s in if c == b'/' then [] else if c == b'.' then c ∷ acc else rest

unfoldable pub ext : Bytes → Bytes
unfolding ext_back
ext s = ext_back [] (reverse s)

abbrev reserved_names : List Bytes
reserved_names =
    codes "CON"
    ∷ codes "PRN"
    ∷ codes "AUX"
    ∷ codes "NUL"
    ∷ codes "COM1"
    ∷ codes "COM2"
    ∷ codes "COM3"
    ∷ codes "COM4"
    ∷ codes "COM5"
    ∷ codes "COM6"
    ∷ codes "COM7"
    ∷ codes "COM8"
    ∷ codes "COM9"
    ∷ codes "LPT1"
    ∷ codes "LPT2"
    ∷ codes "LPT3"
    ∷ codes "LPT4"
    ∷ codes "LPT5"
    ∷ codes "LPT6"
    ∷ codes "LPT7"
    ∷ codes "LPT8"
    ∷ codes "LPT9"
    ∷ []

pub is_reserved : Bytes → Bool
is_reserved base = any (λ name. base == name) reserved_names

-- The first steps: valid text, a name that is no directory, no forbidden character.
unfoldable pub clean_name : Bytes → Bytes
unfolding trim_dots
clean_name filename =
    let valid = to_valid_utf8 (trim_space filename) in
    let named =
      if valid == [] || valid == codes "/" || valid == codes "." || valid == codes ".."
      then codes "download"
      else valid in
    let trimmed = trim_dots (map replace_byte named) in
    if trimmed == [] then codes "download" else trimmed

-- The last step: at most 180 bytes, with the extension kept.
unfoldable pub shorten : Bytes → Bytes
unfolding ext
shorten filename =
    let short_ext = truncate_utf8_bytes (ext filename) 32 in
    let base = trim_suffix filename (ext filename) in
    let room = if ltb (180 - length short_ext) 1 then 1 else 180 - length short_ext in
    if ltb 180 (length filename) then truncate_utf8_bytes base room ++ short_ext else filename

-- the loop of `uniqueDownloadPath`: `left` candidates remain, the next has number `i`
unfoldable pub free_candidate : (Bytes → Bool) → (ℕ → Bytes) → ℕ → ℕ → Option Bytes
free_candidate exists_path candidate zero i = none
free_candidate exists_path candidate (suc left) i =
    let rest = free_candidate exists_path candidate left (suc i) in
    if not (exists_path (candidate i)) then some (candidate i) else rest

module _ (p : Platform) where
  unfoldable pub avoid_reserved : Bytes → Bytes
  unfolding ext is_reserved
  avoid_reserved filename =
      let base = p.to_upper (trim_suffix filename (ext filename)) in
      if is_reserved base then b'_' ∷ filename else filename

  unfoldable pub sanitize_download_filename : Bytes → Bytes
  unfolding clean_name avoid_reserved shorten
  sanitize_download_filename filename = shorten (avoid_reserved (clean_name filename))

  -- filenameFromURL; `base_of_path` is `filepath.Base` of the escaped path, and `unescaped` what
  -- `url.PathUnescape` makes of it, `none` for an error
  pub filename_from_url : Bytes → Option Bytes → Bytes
  unfolding sanitize_download_filename
  filename_from_url base_of_path unescaped =
      sanitize_download_filename (elim unescaped [ none ↦ base_of_path | some name ↦ name ])

  -- the candidate with number `i`: the name, `_i`, the extension
  pub numbered_path : (Bytes → Bytes → Bytes) → Bytes → Bytes → ℕ → Bytes
  unfolding sanitize_download_filename
  numbered_path join dir name i =
      let filename = sanitize_download_filename name in
      join dir (trim_suffix filename (ext filename) ++ (b'_' ∷ decimal i) ++ ext filename)

  -- `exists_path` is `os.Stat` as long as it does not say that the file is missing, `join` is
  -- `filepath.Join`, and `now` the clock in nanoseconds.
  unfoldable pub unique_download_path :
      (Bytes → Bool) → (Bytes → Bytes → Bytes) → ℕ → Bytes → Bytes → Bytes
  unique_download_path exists_path join now dir name =
      let plain = join dir (sanitize_download_filename name) in
      let found = free_candidate exists_path (numbered_path join dir name) 9999 1 in
      if not (exists_path plain)
      then plain
      else elim found [ some candidate ↦ candidate | none ↦ numbered_path join dir name now ]

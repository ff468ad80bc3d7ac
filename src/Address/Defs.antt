-- ===== src/Address/Defs.antt =====
-- address_search.go: `resolveAddressInput` and `normalizeAddressURL`. The texts of the errors are not
-- modelled.
use womprat.Base.{
  Bytes, codes, ℕ, pos, Bool, true, false, not, ◌&&◌, ◌||◌, Option, none, some, List, [], ◌∷◌, ◌++◌,
  ◌==◌, ◌!=◌, bytes_eq, nat_eq, any, all, ltb, leb, ltb_ℤ, length, if◌then◌else◌, Result, ok, err,
  is_ok,
}
use womprat.Platform.{Platform, Url, Userinfo, Addr}
use womprat.Text.Space.{trim_space}
use womprat.Text.Search.{has_prefix, contains, trim_prefix, trim_suffix, split}
use womprat.Text.Host.{hostname, port}
use womprat.Text.Decimal.{atoi}
use womprat.CustomUrl.{parse_custom_url, normalize_browser_url}
use womprat.Config.{normalize_search_provider}

pub data AddressError : Type 0 where
  empty too_long control bad_target local_path bad_url bad_host bad_port bad_scheme scoped
        credentials :
      AddressError

-- unicode.IsControl and unicode.IsSpace of some character of a text, `idna.Lookup.ToASCII`, and
-- `url.QueryEscape`
pub record Names : Type 0 where
  pub has_control : Bytes → Bool
  pub has_space : Bytes → Bool
  pub to_ascii : Bytes → Option Bytes
  pub query_escape : Bytes → Bytes

abbrev pub is_letter : ℕ → Bool
is_letter c = leb b'a' c && leb c b'z' || leb b'A' c && leb c b'Z'

abbrev pub is_number : ℕ → Bool
is_number c = leb b'0' c && leb c b'9'

abbrev pub is_host_byte : ℕ → Bool
is_host_byte c = c == b'-' || is_letter c || is_number c

abbrev first_is : ℕ → Bytes → Bool
first_is b [] = false
first_is b (c ∷ _) = c == b

abbrev last_is : ℕ → Bytes → Bool
last_is b [] = false
last_is b (c ∷ []) = c == b
last_is b (c ∷ d ∷ cs) = last_is b (d ∷ cs)

unfoldable pub is_address_label : Bytes → Bool
is_address_label label =
    not (label == [] || ltb 63 (length label) || first_is b'-' label || last_is b'-' label)
    && all is_host_byte label

-- net.JoinHostPort
abbrev pub join_host_port : Bytes → Bytes → Bytes
join_host_port host number =
    if contains host (codes ":")
    then codes "[" ++ host ++ codes "]:" ++ number
    else host ++ codes ":" ++ number

module _ (p : Platform) (n : Names) where
  -- the host in ASCII, unless it is a literal address
  unfoldable pub ascii_host : Url → Option Url
  ascii_host u = elim (p.parse_addr (hostname u.host)) [
    | some _ ↦ some u
    | none ↦ elim (n.to_ascii (hostname u.host)) [
      | none ↦ none
      | some raw ↦
          let ascii = trim_suffix raw (codes ".") in
          let joined = if port u.host != [] then join_host_port ascii (port u.host) else ascii in
          if ascii == [] || ltb 253 (length ascii) || not (all is_address_label (split b'.' ascii))
          then none
          else some (record u { host = joined })
    ]
  ]

  abbrev pub is_port : Bytes → Bool
  is_port number = elim (atoi number) [
    | none ↦ false
    | some value ↦ not (ltb_ℤ value (pos 1) || ltb_ℤ (pos 65535) value)
  ]

  -- the part of `normalizeAddressURL` behind the two parsers
  unfoldable pub check_address : Url → Result AddressError Bytes
  check_address u =
      if hostname u.host == [] || contains u.host (codes "%")
      then err bad_host
      else elim (ascii_host u) [
        | none ↦ err bad_host
        | some v ↦
            if port v.host != [] && not (is_port (port v.host))
            then err bad_port
            else ok (p.url_string v)
      ]

  unfoldable pub normalize_address_url : Bytes → Result AddressError Bytes
  normalize_address_url raw = elim (normalize_browser_url p raw) [
    | err _ ↦ err bad_url
    | ok normalized ↦ elim (p.parse_url normalized) [
      | none ↦ err bad_url
      | some u ↦ check_address u
    ]
  ]

  -- what stands in front of the first "://"
  pub before_scheme_end : Bytes → Option Bytes
  before_scheme_end [] = none
  before_scheme_end (c ∷ s) =
      let rest = before_scheme_end s in
      if has_prefix (c ∷ s) (codes "://")
      then some []
      else elim rest [ none ↦ none | some before ↦ some (c ∷ before) ]

  abbrev is_scheme_byte : ℕ → Bool
  is_scheme_byte c = is_letter c || is_number c || c == b'+' || c == b'-' || c == b'.'

  -- a scheme in front of "://"
  pub has_scheme : Bytes → Bool
  has_scheme input = elim (before_scheme_end input) [
    | none ↦ false
    | some [] ↦ false
    | some (c ∷ s) ↦ is_letter c && all is_scheme_byte s
  ]

  abbrev pub blocked_prefixes : List Bytes
  blocked_prefixes =
      codes "javascript:"
      ∷ codes "data:"
      ∷ codes "file:"
      ∷ codes "vbscript:"
      ∷ codes "about:"
      ∷ codes "blob:"
      ∷ codes "mailto:"
      ∷ codes "http:"
      ∷ codes "https:"
      ∷ codes "ssh:"
      ∷ codes "vnc:"
      ∷ codes "rdp:"
      ∷ []

  pub is_blocked : Bytes → Bool
  is_blocked input = any (λ prefix. has_prefix (p.to_lower input) prefix) blocked_prefixes

  abbrev is_drive_path : Bytes → Bool
  is_drive_path [] = false
  is_drive_path (_ ∷ []) = false
  is_drive_path (_ ∷ _ ∷ []) = false
  is_drive_path (_ ∷ c ∷ d ∷ _) = c == b':' && (d == b'\\' || d == b'/')

  pub is_local_path : Bytes → Bool
  is_local_path input =
      has_prefix input (codes "/") && not (has_prefix input (codes "//"))
      || has_prefix input (codes "\\\\")
      || is_drive_path input

  abbrev pub has_password : Option Userinfo → Bool
  has_password none = false
  has_password (some user) = elim user.password [ none ↦ false | some _ ↦ true ]

  abbrev is_none : Option Userinfo → Bool
  is_none none = true
  is_none (some _) = false

  abbrev parses_addr : Bytes → Bool
  parses_addr host = elim (p.parse_addr host) [ none ↦ false | some _ ↦ true ]

  -- the candidate `http://…` reads as an address
  pub looks_like_address : Bytes → Url → Bool
  looks_like_address input u =
      let host = hostname u.host in
      is_none u.user
      && host != []
      && (parses_addr host
          || p.equal_fold host (codes "localhost")
          || contains host (codes ".")
          || port u.host != []
          || contains input (codes "/"))

  pub search_url : Bytes → Bytes → Bytes
  search_url provider input =
      let name = normalize_search_provider provider in
      let endpoint =
        if name == codes "bing"
        then codes "https://www.bing.com/search"
        else if name == codes "google"
        then codes "https://www.google.com/search"
        else codes "https://duckduckgo.com/" in
      endpoint ++ codes "?q=" ++ n.query_escape input

  abbrev pub candidate : Bytes → Bytes
  candidate input = codes "http://" ++ trim_prefix input (codes "//")

  abbrev pub literal : Addr → Result AddressError Bytes
  literal ip =
      if ip.zone != []
      then err scoped
      else ok
          (if ip.is_6 then codes "http://[" ++ ip.text ++ codes "]" else codes "http://" ++ ip.text)

  -- an input without spaces: an address, or else `search`
  unfoldable pub resolve_word : Bytes → Bytes → Result AddressError Bytes
  resolve_word input search = elim (p.parse_addr input) [
    | some ip ↦ literal ip
    | none ↦ elim (p.parse_url (candidate input)) [
      | none ↦ ok search
      | some u ↦
          if has_password u.user
          then err credentials
          else if looks_like_address input u
          then normalize_address_url (candidate input)
          else ok search
    ]
  ]

  abbrev pub is_custom : Bytes → Bool
  is_custom input =
      any (λ scheme. has_prefix (p.to_lower input) scheme)
        (codes "ssh://" ∷ codes "vnc://" ∷ codes "rdp://" ∷ [])

  -- behind the first checks, for a trimmed input
  unfoldable pub resolve_trimmed : Bytes → Bytes → Result AddressError Bytes
  resolve_trimmed input provider =
      if is_custom input
      then (if is_ok (parse_custom_url p input) then ok input else err bad_target)
      else if is_local_path input
      then err local_path
      else if has_scheme input
      then normalize_address_url input
      else if is_blocked input
      then err bad_scheme
      else if n.has_space input
      then ok (search_url provider input)
      else resolve_word input (search_url provider input)

  unfoldable pub resolve_address_input : Bytes → Bytes → Result AddressError Bytes
  resolve_address_input raw provider =
      let input = trim_space raw in
      if input == []
      then err empty
      else if ltb 4096 (length input)
      then err too_long
      else if n.has_control input
      then err control
      else resolve_trimmed input provider

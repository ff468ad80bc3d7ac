-- ===== src/CustomUrl/Defs.antt =====
-- `parseCustomURL`, its validators and `canonicalURL`; `normalizeBrowserURL`.
use womprat.Base.{
  Bytes, codes, ℕ, ℤ, pos, Bool, true, false, not, ◌&&◌, ◌||◌, Option, none, some, [], ◌∷◌, ◌++◌,
  ◌==◌, ◌!=◌, nat_eq, bytes_eq, int_eq, ltb, leb, leb_ℤ, all, length, if◌then◌else◌, Result, ok,
  err, ◌>>=◌,
}
use womprat.Platform.{Platform, Url, Userinfo}
use womprat.Text.Search.{has_prefix, has_suffix, contains, contains_any, split}
use womprat.Text.Space.{trim_space}
use womprat.Text.Host.{hostname, port}
use womprat.Text.Decimal.{decimal, atoi}

-- The errors, named for their messages.
pub data UrlError : Type 0 where
  missing_target missing_scheme invalid_url unsupported_scheme invalid_target has_password :
      UrlError
  invalid_host invalid_port invalid_user empty_url missing_host has_userinfo : UrlError

abbrev pub guard : Bool → UrlError → Result UrlError (Unit {0})
guard false problem = err problem
guard true _ = ok tt

infixl 5 ◌>>◌
abbrev pub ◌>>◌ {ℓ} :
    {A : Type ℓ} → Result UrlError (Unit {0}) → Result UrlError A → Result UrlError A
m >> k = m >>= λ _. k

-- `int`, as `%d` prints it
pub show_int : ℤ → Bytes
show_int (pos n) = decimal n
show_int (ℤ.negsuc n) = b'-' ∷ decimal (ℕ.suc n)

pub record CustomUrlTarget : Type 0 where
  pub scheme : Bytes
  pub host : Bytes
  pub port : ℤ
  pub user : Bytes

abbrev is_letter_or_digit : ℕ → Bool
is_letter_or_digit c =
    leb b'a' c && leb c b'z' || leb b'A' c && leb c b'Z' || leb b'0' c && leb c b'9'

-- A byte of a label. A rune beyond ASCII, or a byte that is no rune, has a byte that fails.
pub is_label_byte : ℕ → Bool
is_label_byte c = is_letter_or_digit c || c == b'-' || c == b'_'

unfoldable pub is_label : Bytes → Bool
unfolding is_label_byte
is_label label =
    not (
      label == []
      || ltb 63 (length label)
      || has_prefix label (codes "-")
      || has_suffix label (codes "-"))
    && all is_label_byte label

abbrev pub is_some {ℓ} : {A : Type ℓ} → Option A → Bool
is_some none = false
is_some (some _) = true

unfoldable pub validate_custom_url_user : Bytes → Result UrlError (Unit {0})
validate_custom_url_user user =
    guard (not (ltb 256 (length user) || contains_any user (codes " /?#\\@"))) invalid_user

-- the port that `Atoi` read
unfoldable pub check_port : Option ℤ → Result UrlError ℤ
check_port none = err invalid_port
check_port (some n) =
    if leb_ℤ n (pos 0) || not (leb_ℤ n (pos 65535)) then err invalid_port else ok n

module _ (p : Platform) where
  pub canonical_url : CustomUrlTarget → Bytes
  canonical_url t =
      let host =
        if contains t.host (codes ":") && is_some (p.parse_ip t.host)
        then b'[' ∷ t.host ++ b']' ∷ []
        else t.host in
      let userinfo = if t.user != [] then p.user_string t.user ++ b'@' ∷ [] else [] in
      t.scheme ++ codes "://" ++ userinfo ++ host ++ b':' ∷ show_int t.port

  unfoldable pub custom_scheme_default_port : Bytes → Option ℤ
  custom_scheme_default_port scheme =
      let lower = p.to_lower scheme in
      if lower == codes "ssh"
      then some (pos 22)
      else if lower == codes "vnc"
      then some (pos 5900)
      else if lower == codes "rdp"
      then some (pos 3389)
      else none

  unfoldable pub validate_custom_url_host : Bytes → Result UrlError (Unit {0})
  validate_custom_url_host host =
      if host == []
      then err invalid_host
      else if is_some (p.parse_ip host)
      then ok tt
      else guard
          (not (ltb 253 (length host) || contains_any host (codes " /?#\\@%"))
            && all is_label (split b'.' host))
          invalid_host

  -- the port that the address gives, or that of its scheme
  unfoldable pub choose_port : Url → Bytes → ℤ → Result UrlError ℤ
  choose_port parsed host default =
      if port parsed.host != []
      then check_port (atoi (port parsed.host))
      else if contains parsed.host (codes ":") && not (is_some (p.parse_ip host))
      then err invalid_target
      else ok default

  abbrev has_password_text : Option Userinfo → Bool
  has_password_text none = false
  has_password_text (some u) = elim u.password [ none ↦ false | some text ↦ text != [] ]

  abbrev username : Option Userinfo → Bytes
  username none = []
  username (some u) = u.username

  -- the part of `parseCustomURL` behind `url.Parse` and the table of schemes
  unfoldable pub check_target : Url → ℤ → Result UrlError CustomUrlTarget
  check_target parsed default = do
    guard
        (parsed.opaque == []
          && parsed.host != []
          && parsed.path == []
          && parsed.raw_query == []
          && parsed.fragment == [])
        invalid_target
    guard (not (has_password_text parsed.user)) has_password
    let host = trim_space (hostname parsed.host)
    validate_custom_url_host host
    n ← choose_port parsed host default
    validate_custom_url_user (username parsed.user)
    ok (record {
      scheme = p.to_lower parsed.scheme;
      host = host;
      port = n;
      user = username parsed.user;
    })

  unfoldable pub parse_custom_url : Bytes → Result UrlError CustomUrlTarget
  unfolding check_target
  parse_custom_url raw =
      let text = trim_space raw in
      if text == []
      then err missing_target
      else if not (contains text (codes "://"))
      then err missing_scheme
      else elim (p.parse_url text) [
        | none ↦ err invalid_url
        | some parsed ↦ elim (custom_scheme_default_port (p.to_lower parsed.scheme)) [
          | none ↦ err unsupported_scheme
          | some default ↦ check_target parsed default
        ]
      ]

  -- the part of `normalizeBrowserURL` behind `url.Parse`
  unfoldable pub check_browser_url : Url → Result UrlError Bytes
  check_browser_url parsed = do
    guard (parsed.scheme == codes "http" || parsed.scheme == codes "https") unsupported_scheme
    guard (parsed.host != []) missing_host
    guard (not (is_some parsed.user)) has_userinfo
    ok (p.url_string parsed)

  unfoldable pub normalize_browser_url : Bytes → Result UrlError Bytes
  unfolding check_browser_url
  normalize_browser_url raw =
      let text = trim_space raw in
      let full = if contains text (codes "://") then text else codes "http://" ++ text in
      if text == [] then err empty_url else elim (p.parse_url full) [
        | none ↦ err invalid_url
        | some parsed ↦ check_browser_url parsed
      ]

  pub is_browser_url : Bytes → Bool
  is_browser_url raw = elim (normalize_browser_url raw) [ ok _ ↦ true | err _ ↦ false ]

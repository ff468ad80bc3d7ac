-- ===== src/Config/Sanitize.antt =====
-- The sanitizers of config.go, and those of browser_meta.go that they call.
use womprat.Base.{
  Bytes, codes, ℕ, zero, suc, ◌-◌, ℤ, pos, Bool, not, ◌&&◌, ◌||◌, Option, none, some, List, [], ◌∷◌,
  ◌==◌, ◌!=◌, nat_eq, bytes_eq, int_eq, ltb, leb, ltb_ℤ, leb_ℤ, all, length, take, if◌then◌else◌,
  ok, err, is_ok, insert,
}
use womprat.Platform.{Platform, Url}
use womprat.Text.Search.{has_prefix, contains, contains_any}
use womprat.Text.Space.{trim_space}
use womprat.Text.Utf8.{rune_width, to_valid_utf8, truncate_utf8_bytes}
use womprat.Text.Path.{clean}
use womprat.CustomUrl.{
  canonical_url, custom_scheme_default_port, parse_custom_url, validate_custom_url_host,
  validate_custom_url_user, normalize_browser_url,
}
use womprat.Config.Defs.{SavedTab, HostConfig, default_terminal_font, default_search_provider}

unfoldable pub normalize_font_size : ℤ → ℤ
normalize_font_size size = if ltb_ℤ size (pos 10) || ltb_ℤ (pos 32) size then pos 0 else size

unfoldable pub normalize_theme : Bytes → Bytes
normalize_theme _ = codes "dark"

-- address_search.go
unfoldable pub valid_search_provider : Bytes → Bool
valid_search_provider provider =
    provider == codes "duckduckgo" || provider == codes "bing" || provider == codes "google"

unfoldable pub normalize_search_provider : Bytes → Bytes
unfolding valid_search_provider
normalize_search_provider provider =
    if valid_search_provider provider then provider else default_search_provider

abbrev is_name_byte : ℕ → Bool
is_name_byte c =
    leb b'a' c && leb c b'z'
    || leb b'A' c && leb c b'Z'
    || leb b'0' c && leb c b'9'
    || c == b'.'
    || c == b'_'
    || c == b'/'
    || c == b'-'

-- the regular expression `^[A-Za-z0-9._/-]+$`
unfoldable pub matches_credential_name : Bytes → Bool
matches_credential_name name = name != [] && all is_name_byte name

unfoldable pub validate_credential_name : Bytes → Bool
unfolding matches_credential_name
validate_credential_name name = not (
    name == []
    || has_prefix name (codes "/")
    || contains name (codes "..")
    || clean name != name
    || not (matches_credential_name name))

-- `safeSSHKeyName`; `none` is its error
unfoldable pub safe_ssh_key_name : Bytes → Option Bytes
unfolding matches_credential_name
safe_ssh_key_name raw =
    let name = trim_space raw in
    if name == []
    then none
    else if contains_any name (codes "/\\")
        || contains name (codes "..")
        || not (matches_credential_name name)
    then none
    else some name

-- string([]rune(s)[:n]): the first `n` runes; a byte that is no rune becomes U+FFFD.
pub take_runes : ℕ → ℕ → Bytes → Bytes
take_runes n skip [] = []
take_runes n (suc skip) (c ∷ s) = c ∷ take_runes n skip s
take_runes zero zero (c ∷ s) = []
take_runes (suc n) zero (c ∷ s) =
    let bad = take_runes n 0 s in
    let good = take_runes n (rune_width (c ∷ s) - 1) s in
    if rune_width (c ∷ s) == 0 then 0xEF ∷ 0xBF ∷ 0xBD ∷ bad else c ∷ good

pub rune_count : ℕ → Bytes → ℕ
rune_count skip [] = 0
rune_count (suc skip) (c ∷ s) = rune_count skip s
rune_count zero (c ∷ s) = suc (rune_count (rune_width (c ∷ s) - 1) s)

pub sanitize_browser_title : Bytes → Bytes
unfolding take_runes rune_count
sanitize_browser_title raw =
    let title = trim_space raw in
    let short = if ltb 200 (rune_count 0 title) then take_runes 200 0 title else title in
    if title == [] then [] else to_valid_utf8 short

-- a tab that passed, in front of those behind it
unfoldable pub append_tab : Option SavedTab → List SavedTab → List SavedTab
append_tab none rest = rest
append_tab (some tab) rest = tab ∷ rest

module _ (p : Platform) where
  unfoldable pub normalize_terminal_font : Bytes → Bytes
  normalize_terminal_font font =
      let name = p.to_lower (trim_space font) in
      if name == codes "fira-code"
      then codes "fira-code"
      else if name == codes "cascadia-mono"
      then codes "cascadia-mono"
      else if name == codes "consolas"
      then codes "consolas"
      else if name == codes "nsimsun"
      then codes "nsimsun"
      else default_terminal_font

  -- the part of `sanitizeFaviconURL` behind `url.Parse`
  favicon_of : Bytes → Url → Bytes
  favicon_of favicon parsed =
      if parsed.scheme == codes "http" || parsed.scheme == codes "https"
      then (if parsed.host == [] then [] else p.url_string parsed)
      else if parsed.scheme == codes "data" && leb (length favicon) 4096
      then favicon
      else []

  pub sanitize_favicon_url : Bytes → Bytes
  unfolding favicon_of
  sanitize_favicon_url raw =
      let favicon = trim_space raw in
      if favicon == [] || ltb 2048 (length favicon) || to_valid_utf8 favicon != favicon
      then []
      else elim (p.parse_url favicon) [ none ↦ [] | some parsed ↦ favicon_of favicon parsed ]

  unfoldable pub sanitize_host_config_url : Bytes → Bytes
  sanitize_host_config_url raw =
      let text = trim_space raw in
      if text == []
      then []
      else elim (normalize_browser_url p text) [ err _ ↦ [] | ok normalized ↦ normalized ]

  unfoldable pub sanitize_host_config : HostConfig → HostConfig
  unfolding sanitize_host_config_url safe_ssh_key_name
  sanitize_host_config conf =
      let user = trim_space conf.user in
      let key = trim_space conf.key_name in
      record conf {
        user = if user != [] && not (is_ok (validate_custom_url_user user)) then [] else user;
        port = if ltb_ℤ conf.port (pos 0) || ltb_ℤ (pos 65535) conf.port then pos 0 else conf.port;
        key_name =
            if key != [] then elim (safe_ssh_key_name key) [ none ↦ [] | some _ ↦ key ] else key;
        nickname = truncate_utf8_bytes (trim_space conf.nickname) 100;
        url = sanitize_host_config_url conf.url;
      }

  -- The entries in the order in which `range` meets them.
  unfoldable pub add_hosts :
      List (Bytes × HostConfig) → List (Bytes × HostConfig) → List (Bytes × HostConfig)
  add_hosts out [] = out
  add_hosts out ((host, conf) ∷ rest) =
      let valid = is_ok (validate_custom_url_host p (trim_space host)) in
      let more = insert (trim_space host) (sanitize_host_config conf) out in
      add_hosts (if valid then more else out) rest

  unfoldable pub sanitize_host_configs : List (Bytes × HostConfig) → List (Bytes × HostConfig)
  unfolding add_hosts sanitize_host_config
  sanitize_host_configs hosts = add_hosts [] hosts

  abbrev or_else : Bytes → Bytes → Bytes
  or_else text default = if text == [] then default else text

  -- The cases of `sanitizeSavedTab`, on a tab whose fields are trimmed; `none` drops the tab.
  unfoldable pub browser_tab : SavedTab → Option SavedTab
  browser_tab tab = elim (normalize_browser_url p tab.url) [
    | err _ ↦ none
    | ok url ↦ some (record tab { url = url; title = or_else tab.title url })
  ]

  unfoldable pub terminal_tab : SavedTab → Option SavedTab
  terminal_tab tab =
      let user = or_else tab.user (codes "root") in
      let port = if tab.port == pos 0 then pos 22 else tab.port in
      if not (is_ok (validate_custom_url_host p tab.host))
      then none
      else if not (is_ok (validate_custom_url_user user))
      then none
      else if leb_ℤ port (pos 0) || ltb_ℤ (pos 65535) port
      then none
      else some (record tab { user = user; port = port; title = or_else tab.title tab.host })

  -- the address of a tab that has only a host
  pub remote_url : SavedTab → Bytes
  remote_url tab =
      let port =
        if tab.port == pos 0
        then elim (custom_scheme_default_port p tab.kind) [ none ↦ tab.port | some n ↦ n ]
        else tab.port in
      if tab.url == [] && tab.host != []
      then canonical_url p
          (record { scheme = tab.kind; host = tab.host; port = port; user = tab.user })
      else tab.url

  unfoldable pub remote_tab : SavedTab → Option SavedTab
  unfolding remote_url
  remote_tab tab = elim (parse_custom_url p (remote_url tab)) [
    | err _ ↦ none
    | ok custom ↦
        let url = canonical_url p custom in
        if custom.scheme != tab.kind
        then none
        else some (record tab {
          host = custom.host;
          port = custom.port;
          user = custom.user;
          url = url;
          title = or_else tab.title url;
        })
  ]

  abbrev pub trimmed_tab : SavedTab → SavedTab
  trimmed_tab tab = record tab {
    kind = p.to_lower (trim_space tab.kind);
    title = sanitize_browser_title tab.title;
    host = trim_space tab.host;
    user = trim_space tab.user;
    url = trim_space tab.url;
    favicon = sanitize_favicon_url tab.favicon;
  }

  unfoldable pub tab_by_kind : SavedTab → Option SavedTab
  tab_by_kind tab =
      if tab.kind == codes "browser"
      then browser_tab tab
      else if tab.kind == codes "terminal"
      then terminal_tab tab
      else if tab.kind == codes "vnc" || tab.kind == codes "rdp"
      then remote_tab tab
      else none

  unfoldable pub sanitize_saved_tab : SavedTab → Option SavedTab
  unfolding tab_by_kind browser_tab terminal_tab remote_tab
  sanitize_saved_tab tab = tab_by_kind (trimmed_tab tab)

  -- the loop of `sanitizeSavedTabs`
  unfoldable pub sanitize_all : List SavedTab → List SavedTab
  unfolding append_tab
  sanitize_all [] = []
  sanitize_all (tab ∷ tabs) = append_tab (sanitize_saved_tab tab) (sanitize_all tabs)

  unfoldable pub sanitize_saved_tabs : List SavedTab → List SavedTab
  unfolding sanitize_all sanitize_saved_tab
  sanitize_saved_tabs tabs =
      let out = sanitize_all tabs in if ltb 100 (length out) then take 100 out else out

-- ===== src/Config/Normal/Fields.antt =====
-- Every saved or loaded configuration is well formed.
use womprat.Base.{
  Bytes, codes, ℕ, ℤ, pos, negsuc, Bool, true, ◌||◌, ◌!=◌, ◌==◌, none, some, ok, Result-cases, List,
  [], ◌∷◌, bytes_eq, int_eq, leb_ℤ, ltb_ℤ, length, if◌then◌else◌, is_ok, ◌≡◌, refl, sym, ◌⊎◌, inl,
  inr, ◌≤◌, arith, All, All-insert, eqb, eqb_iff, Bool-cases, insert, subst,
}
use womprat.Platform.{Platform}
use womprat.Text.Space.{trim_space, trim_space_idem}
use womprat.Text.Utf8.{length-truncate}
use womprat.CustomUrl.{validate_custom_url_host, validate_custom_url_user, normalize_browser_url}
use womprat.Text.Search.{contains_any}
use womprat.Config.Defs.{AppConfig, HostConfig}
use womprat.Config.Sanitize.{
  normalize_font_size, normalize_terminal_font, safe_ssh_key_name, sanitize_host_config_url,
  valid_search_provider, normalize_search_provider, normalize_theme, sanitize_host_config,
  sanitize_host_configs, add_hosts,
}
use womprat.Config.Save.{normalize_config}
use womprat.Config.Normal.Recent.{IsHistory, normalize_address_history-IsHistory}
use womprat.Config.Normal.Tabs.{IsTab, sanitize_saved_tabs-IsTab}

abbrev pub IsFontSize : ℤ → Type 0
IsFontSize n = (n ≡ pos 0) ⊎ ((m : ℕ) × (n ≡ pos m) × (10 ≤ m) × (m ≤ 32))

normalize_font_size-IsFontSize : (n : ℤ) → IsFontSize (normalize_font_size n)
unfolding normalize_font_size
normalize_font_size-IsFontSize (negsuc n) = inl (ground arith)
normalize_font_size-IsFontSize (pos n) =
    elim (Bool-cases (ltb_ℤ (pos n) (pos 10) || ltb_ℤ (pos 32) (pos n))) [
      | inl out ↦ inl (rw out)
      | inr within ↦ inr (n, rw within, ground arith, ground arith)
    ]

abbrev pub IsPositive : ℤ → Type 0
IsPositive n = (m : ℕ) × (n ≡ pos m) × (1 ≤ m)

or_default : (n : ℤ) (d : ℕ) → 1 ≤ d → IsPositive (if leb_ℤ n (pos 0) then pos d else n)
or_default (negsuc n) d h = (d, refl, h)
or_default (pos n) d h = elim (Bool-cases (leb_ℤ (pos n) (pos 0))) [
  | inl low ↦ (d, rw low, h)
  | inr high ↦ (n, rw high, ground arith)
]

-- the fonts that are offered
abbrev pub IsTerminalFont : Bytes → Type 0
IsTerminalFont font =
    (font ≡ codes "fira-code")
    ⊎ (font ≡ codes "cascadia-mono")
    ⊎ (font ≡ codes "consolas")
    ⊎ (font ≡ codes "nsimsun")

module _ (p : Platform) where
  pub normalize_terminal_font-IsTerminalFont :
      (font : Bytes) → IsTerminalFont (normalize_terminal_font p font)
  unfolding normalize_terminal_font
  normalize_terminal_font-IsTerminalFont font = ground arith

  -- A saved host: a valid name, and fields that are empty or valid.
  abbrev pub IsHostEntry : Bytes × HostConfig → Type 0
  IsHostEntry (host, conf) =
      (is_ok (validate_custom_url_host p host) ≡ true)
      × (is_ok (validate_custom_url_user conf.user) ≡ true)
      × ((n : ℕ) × (conf.port ≡ pos n) × (n ≤ 65535))
      × (length conf.nickname ≤ 100)
      × ((conf.key_name ≡ []) ⊎ (safe_ssh_key_name conf.key_name ≡ some conf.key_name))
      × ((conf.url ≡ []) ⊎ ((raw : Bytes) × (normalize_browser_url p raw ≡ ok conf.url)))

  -- The name of a key that passes is its own trimmed form.
  key_name-safe :
      (raw : Bytes)
      → ((if trim_space raw != []
            then elim (safe_ssh_key_name (trim_space raw)) [ none ↦ [] | some _ ↦ trim_space raw ]
            else trim_space raw)
          ≡ [])
        ⊎ (((if trim_space raw != []
                then elim (safe_ssh_key_name (trim_space raw)) [
                  | none ↦ []
                  | some _ ↦ trim_space raw
                ]
                else trim_space raw)
              ≡ trim_space raw)
            × (safe_ssh_key_name (trim_space raw) ≡ some (trim_space raw)))
  unfolding safe_ssh_key_name
  key_name-safe raw = ground (arith, trim_space_idem raw, eqb_iff (trim_space raw) [])

  url-normal :
      (raw : Bytes)
      → (sanitize_host_config_url p raw ≡ [])
        ⊎ ((text : Bytes) × (normalize_browser_url p text ≡ ok (sanitize_host_config_url p raw)))
  unfolding sanitize_host_config_url
  url-normal raw = elim (Bool-cases (trim_space raw == [])) [
    | inl q ↦ inl (rw q refl)
    | inr q ↦ elim (Result-cases (normalize_browser_url p (trim_space raw))) [
      | inl (e, u) ↦ inl (rw (q, u) refl)
      | inr (url, u) ↦ inr (trim_space raw, rw (q, u))
    ]
  ]

  no_user : is_ok (validate_custom_url_user []) ≡ true
  no_user = unfold validate_custom_url_user contains_any in refl

  port_or_zero :
      (n : ℤ)
      → (m : ℕ) × ((if ltb_ℤ n (pos 0) || ltb_ℤ (pos 65535) n then pos 0 else n) ≡ pos m)
        × (m ≤ 65535)
  port_or_zero (negsuc n) = (0, refl, omega arith)
  port_or_zero (pos n) = elim (Bool-cases (ltb_ℤ (pos 65535) (pos n))) [
    | inl high ↦ (0, ground arith, omega arith)
    | inr low ↦ (n, ground arith, ground arith)
  ]

  sanitize_host_config-IsHostEntry :
      (host : Bytes) (conf : HostConfig)
      → is_ok (validate_custom_url_host p host) ≡ true
      → IsHostEntry (host, sanitize_host_config p conf)
  unfolding sanitize_host_config
  sanitize_host_config-IsHostEntry host conf h = (
    h,
    ground (arith, no_user, eqb_iff (trim_space conf.user) []),
    port_or_zero conf.port,
    length-truncate (trim_space conf.nickname) 100,
    elim (key_name-safe conf.key_name) [
      | inl q ↦ inl q
      | inr (q, safe) ↦ inr (subst (λ x. safe_ssh_key_name x ≡ some x) (sym q) safe)
    ],
    url-normal conf.url,
  )

  add_hosts-IsHostEntry :
      (out hosts : List (Bytes × HostConfig))
      → All IsHostEntry out
      → All IsHostEntry (add_hosts p out hosts)
  unfolding add_hosts
  add_hosts-IsHostEntry out [] h = h
  add_hosts-IsHostEntry out ((host, conf) ∷ hosts) h =
      elim (Bool-cases (is_ok (validate_custom_url_host p (trim_space host)))) [
        | inl good ↦
            subst
              (λ b. All IsHostEntry (
                add_hosts p
                  (if b then insert (trim_space host) (sanitize_host_config p conf) out else out)
                  hosts))
              (sym good)
              (add_hosts-IsHostEntry (insert (trim_space host) (sanitize_host_config p conf) out)
                hosts
                (All-insert IsHostEntry (trim_space host) _ out
                  (sanitize_host_config-IsHostEntry (trim_space host) conf good) h))
        | inr bad ↦
            subst
              (λ b. All IsHostEntry (
                add_hosts p
                  (if b then insert (trim_space host) (sanitize_host_config p conf) out else out)
                  hosts))
              (sym bad) (add_hosts-IsHostEntry out hosts h)
      ]

module _ (p : Platform) (resolves : Bytes → Bool) where
  pub record IsNormal (cfg : AppConfig) : Type 0 where
    pub unlock_method : (cfg.unlock_method ≡ codes "master") ⊎ (cfg.unlock_method ≡ codes "dpapi")
    pub window_width : IsPositive cfg.window_width
    pub window_height : IsPositive cfg.window_height
    pub font_size : IsFontSize cfg.font_size
    pub terminal_font : IsTerminalFont cfg.terminal_font
    pub search_provider : valid_search_provider cfg.search_provider ≡ true
    pub address_history : IsHistory resolves cfg.address_history
    pub theme : cfg.theme ≡ codes "dark"
    pub hosts : All (IsHostEntry p) cfg.hosts
    pub open_tabs : All (IsTab p) cfg.open_tabs × (length cfg.open_tabs ≤ 100)

  unlock_method-known :
      (cfg : AppConfig)
      → ((normalize_config p resolves cfg).unlock_method ≡ codes "master")
        ⊎ ((normalize_config p resolves cfg).unlock_method ≡ codes "dpapi")
  unfolding normalize_config
  unlock_method-known cfg =
      ground (
        arith,
        eqb_iff cfg.unlock_method (codes "master"),
        eqb_iff cfg.unlock_method (codes "dpapi"),
      )

  default_provider_valid : valid_search_provider (codes "duckduckgo") ≡ true
  default_provider_valid = unfold valid_search_provider eqb in refl

  search_provider-valid :
      (provider : Bytes) → valid_search_provider (normalize_search_provider provider) ≡ true
  unfolding normalize_search_provider
  search_provider-valid provider = ground (arith, default_provider_valid)

  -- Whatever was decoded from the file or set by a handler, the normalized configuration is well
  -- formed in every field that `normalizeConfig` looks at: of a host, its name, its user, its port, its
  -- nickname, the name of its key and its URL. Lower-casing twice is assumed to be lower-casing once.
  pub normalize_config-IsNormal :
      (lower_idem : (s : Bytes) → p.to_lower (p.to_lower s) ≡ p.to_lower s) (cfg : AppConfig)
      → IsNormal (normalize_config p resolves cfg)
  normalize_config-IsNormal lower_idem cfg = record {
    unlock_method = unlock_method-known cfg;
    window_width = unfold normalize_config in or_default cfg.window_width 1200 (omega arith);
    window_height = unfold normalize_config in or_default cfg.window_height 800 (omega arith);
    font_size = unfold normalize_config in normalize_font_size-IsFontSize cfg.font_size;
    terminal_font =
        unfold normalize_config in normalize_terminal_font-IsTerminalFont p cfg.terminal_font;
    search_provider = unfold normalize_config in search_provider-valid cfg.search_provider;
    address_history =
        unfold normalize_config in normalize_address_history-IsHistory resolves cfg.address_history;
    theme = unfold normalize_config normalize_theme in refl;
    hosts =
        unfold normalize_config sanitize_host_configs in add_hosts-IsHostEntry p [] cfg.hosts tt;
    open_tabs = unfold normalize_config in sanitize_saved_tabs-IsTab p lower_idem cfg.open_tabs;
  }

-- ===== src/Server/Settings.antt =====
-- The handlers of settings_api.go, search_settings.go, address_history.go, logging.go and
-- browser_settings.go that read or change one of the settings.
use womprat.Base.{
  Bytes, codes, ◌-◌, ℤ, Bool, ◌&&◌, ◌||◌, not, none, some, List, [], ◌∷◌, ◌++◌, ◌==◌, nat_eq,
  bytes_eq, any, drop, ltb, length, if◌then◌else◌,
}
use womprat.Platform.{Platform}
use womprat.Text.Search.{contains_any}
use womprat.Text.Space.{trim_space}
use womprat.Config.{
  AppConfig, SavedTab, normalize_font_size, normalize_terminal_font, normalize_theme,
  normalize_search_provider, valid_search_provider, normalize_address_history, sanitize_saved_tabs,
}
use womprat.Server.Defs.{
  Server, Backend, Request, Response, status_ok, failure, success, history_reply, config_reply,
}
use womprat.Server.Http.{is_read, require_get}
use womprat.Server.Commit.{posted, commit, commit_written}
use womprat.Server.Unlock.{yes_no}

pub record Appearance : Type 0 where
  pub font_size : ℤ
  pub terminal_font : Bytes
  pub theme : Bytes
  pub restore_tabs : Bool
  pub auto_connect : Bool

-- The five fields, from the body or from the saved copy.
abbrev pub with_appearance : Appearance → AppConfig → AppConfig
with_appearance body cfg = record cfg {
  font_size = body.font_size;
  terminal_font = body.terminal_font;
  theme = body.theme;
  restore_tabs = body.restore_tabs;
  auto_connect = body.auto_connect;
}

abbrev pub appearance_of : AppConfig → Appearance
appearance_of cfg = record {
  font_size = cfg.font_size;
  terminal_font = cfg.terminal_font;
  theme = cfg.theme;
  restore_tabs = cfg.restore_tabs;
  auto_connect = cfg.auto_connect;
}

module _ (p : Platform) (b : Backend) where
  abbrev pub normal_appearance : Appearance → Appearance
  normal_appearance body = record body {
    font_size = normalize_font_size body.font_size;
    terminal_font = normalize_terminal_font p body.terminal_font;
    theme = normalize_theme body.theme;
  }

  unfoldable pub handle_appearance : Request Appearance → Server → Response × Server
  handle_appearance r = posted r λ body s.
      commit_written p b (with_appearance (normal_appearance body))
        (λ written. with_appearance (appearance_of written)) (λ _. status_ok) s

  unfoldable pub handle_get_config : Bytes → Server → Response × Server
  handle_get_config method s = elim (require_get method) [
    | some refused ↦ (refused, s)
    | none ↦ (record { status = 200; payload = config_reply s.app.config }, s)
  ]

  unfoldable pub handle_save_tabs : Request (List SavedTab) → Server → Response × Server
  handle_save_tabs r = posted r λ tabs s.
      commit p b (λ cfg. record cfg { open_tabs = sanitize_saved_tabs p tabs }) status_ok s

  -- The newest 100 of the hidden items are kept.
  pub hide_recent : Bytes → List Bytes → List Bytes
  hide_recent key hidden =
      let all_hidden = hidden ++ (key ∷ []) in
      if ltb 100 (length all_hidden) then drop (length all_hidden - 100) all_hidden else all_hidden

  unfoldable pub handle_remove_recent : Request Bytes → Server → Response × Server
  handle_remove_recent r = posted r λ key s.
      if key == [] || ltb 4096 (length key) || contains_any key (13 ∷ 10 ∷ 0 ∷ [])
      then (failure 400 (codes "invalid recent item key"), s)
      else if any (λ hidden. hidden == key) s.app.config.hidden_recent
      then (status_ok, s)
      else commit p b (λ cfg. record cfg { hidden_recent = hide_recent key cfg.hidden_recent })
          status_ok s

  unfoldable pub handle_search_provider : Request Bytes → Server → Response × Server
  handle_search_provider r s =
      if is_read r.method
      then (
        success
            ((codes "searchProvider", normalize_search_provider s.app.config.search_provider) ∷ []),
        s,
      )
      else posted r
          (λ provider s'.
            if not (valid_search_provider provider)
            then (failure 400 (codes "searchProvider must be duckduckgo, bing or google"), s')
            else commit p b (λ cfg. record cfg { search_provider = provider })
                (success ((codes "status", codes "ok") ∷ (codes "searchProvider", provider) ∷ []))
                s')
          s

  abbrev next_history : Bytes → AppConfig → List Bytes
  next_history input cfg = normalize_address_history b.env.resolves (input ∷ cfg.address_history)

  unfoldable pub handle_address_history : Request Bytes → Server → Response × Server
  handle_address_history r s =
      if is_read r.method
      then (record { status = 200; payload = history_reply s.app.config.address_history }, s)
      else posted r
          (λ raw s'.
            let input = trim_space raw in
            if not (b.env.resolves input)
            then (failure 400 (codes "invalid address"), s')
            else commit_written p b (λ cfg. record cfg { address_history = next_history input cfg })
                (λ written cfg. record cfg { address_history = written.address_history })
                (λ written. record {
                  status = 200;
                  payload = history_reply written.address_history;
                })
                s')
          s

  -- Of `handleDebugLog` the setting is modelled, not the log file that is opened or closed.
  unfoldable pub handle_debug_log : Request Bool → Server → Response × Server
  handle_debug_log r s =
      if is_read r.method
      then (success ((codes "enabled", yes_no s.app.config.debug_log) ∷ []), s)
      else posted r
          (λ enabled.
            commit p b (λ cfg. record cfg { debug_log = enabled })
              (success ((codes "status", codes "ok") ∷ (codes "enabled", yes_no enabled) ∷ [])))
          s

  -- `handleSavePasswordsToggle`; the native WebKit of Linux keeps no passwords.
  unfoldable pub handle_save_passwords_toggle : Bool → Request Bool → Server → Response × Server
  handle_save_passwords_toggle is_linux r = posted r λ enabled s.
      if is_linux && enabled
      then (failure 501 (codes "Native WebKit browser password saving is not implemented"), s)
      else commit p b (λ cfg. record cfg { save_passwords = enabled }) status_ok s

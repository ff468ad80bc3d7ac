-- ===== src/Config/Save.antt =====
-- `normalizeConfig`, and `SaveConfig` over a file that may refuse the write.
use womprat.Base.{
  Bytes, codes, pos, Bool, ◌&&◌, ◌||◌, Option, none, some, ◌==◌, ◌!=◌, bytes_eq, leb_ℤ,
  if◌then◌else◌,
}
use womprat.Platform.{Platform}
use womprat.Config.Defs.{AppConfig}
use womprat.Config.Sanitize.{
  normalize_font_size, normalize_terminal_font, normalize_search_provider, normalize_theme,
  sanitize_host_configs, sanitize_saved_tabs,
}
use womprat.Config.History.{normalize_address_history}

module _ (p : Platform) (resolves : Bytes → Bool) where
  unfoldable pub normalize_config : AppConfig → AppConfig
  normalize_config cfg = record cfg {
    unlock_method =
        if cfg.unlock_method == codes "hello"
          || cfg.unlock_method == codes ""
          || cfg.unlock_method != codes "master" && cfg.unlock_method != codes "dpapi"
        then codes "dpapi"
        else cfg.unlock_method;
    window_width = if leb_ℤ cfg.window_width (pos 0) then pos 1200 else cfg.window_width;
    window_height = if leb_ℤ cfg.window_height (pos 0) then pos 800 else cfg.window_height;
    font_size = normalize_font_size cfg.font_size;
    terminal_font = normalize_terminal_font p cfg.terminal_font;
    search_provider = normalize_search_provider cfg.search_provider;
    address_history = normalize_address_history resolves cfg.address_history;
    theme = normalize_theme cfg.theme;
    hosts = sanitize_host_configs p cfg.hosts;
    open_tabs = sanitize_saved_tabs p cfg.open_tabs;
  }

  -- `writes` says whether marshalling, encryption and the replacement of the file succeed for this
  -- configuration; the result is what the file then holds.
  unfoldable pub save_config : (AppConfig → Bool) → AppConfig → Option AppConfig
  save_config writes cfg =
      if writes (normalize_config cfg) then some (normalize_config cfg) else none

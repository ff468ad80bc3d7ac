-- ===== src/Config/Defs.antt =====
-- The records of config.go.
use womprat.Base.{Bytes, codes, ℤ, pos, Bool, false, List, []}

pub record SavedTab : Type 0 where
  pub kind : Bytes
  pub title : Bytes
  pub host : Bytes
  pub user : Bytes
  pub port : ℤ
  pub url : Bytes
  pub favicon : Bytes

pub record HostConfig : Type 0 where
  pub user : Bytes
  pub port : ℤ
  pub key_name : Bytes
  pub nickname : Bytes
  pub url : Bytes
  pub host_key : Bytes
  pub host_key_fingerprint : Bytes

-- A nil map of hosts reads as the empty one.
pub record AppConfig : Type 0 where
  pub unlock_method : Bytes
  pub window_width : ℤ
  pub window_height : ℤ
  pub window_x : ℤ
  pub window_y : ℤ
  pub maximized : Bool
  pub open_tabs : List SavedTab
  pub hidden_recent : List Bytes
  pub address_history : List Bytes
  pub hosts : List (Bytes × HostConfig)
  pub save_passwords : Bool
  pub search_provider : Bytes
  pub exit_node : Bytes
  pub font_size : ℤ
  pub terminal_font : Bytes
  pub theme : Bytes
  pub restore_tabs : Bool
  pub auto_connect : Bool
  pub debug_log : Bool

abbrev pub default_terminal_font : Bytes
default_terminal_font = codes "fira-code"

abbrev pub default_search_provider : Bytes
default_search_provider = codes "duckduckgo"

pub default_config : AppConfig
default_config = record {
  unlock_method = codes "dpapi";
  window_width = pos 1200;
  window_height = pos 800;
  window_x = pos 0;
  window_y = pos 0;
  maximized = false;
  open_tabs = [];
  hidden_recent = [];
  address_history = [];
  hosts = [];
  save_passwords = false;
  search_provider = default_search_provider;
  exit_node = [];
  font_size = pos 0;
  terminal_font = default_terminal_font;
  theme = [];
  restore_tabs = false;
  auto_connect = false;
  debug_log = false;
}

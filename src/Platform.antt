-- ===== src/Platform.antt =====
-- What the program takes from elsewhere: Go's Unicode tables, its URL and IP parsers, and the
-- packages that no file of the repository holds. Each is a field, so that every theorem holds for
-- any behaviour of these functions, except where a named hypothesis says otherwise.
use womprat.Base.{Bytes, Bool, Option}

-- url.Userinfo
pub record Userinfo : Type 0 where
  pub username : Bytes
  pub password : Option Bytes

-- url.URL
pub record Url : Type 0 where
  pub scheme : Bytes
  pub opaque : Bytes
  pub user : Option Userinfo
  pub host : Bytes
  pub path : Bytes
  pub raw_path : Bytes
  pub omit_host : Bool
  pub force_query : Bool
  pub raw_query : Bytes
  pub fragment : Bytes
  pub raw_fragment : Bytes

-- netip.Addr: its text, its family, and whether it has a zone
pub record Addr : Type 0 where
  pub text : Bytes
  pub is_6 : Bool
  pub zone : Bytes

pub record Platform : Type 0 where
  -- strings.ToLower, strings.ToUpper, strings.EqualFold
  pub to_lower : Bytes → Bytes
  pub to_upper : Bytes → Bytes
  pub equal_fold : Bytes → Bytes → Bool
  -- url.Parse, (*url.URL).String, url.User(name).String()
  pub parse_url : Bytes → Option Url
  pub url_string : Url → Bytes
  pub user_string : Bytes → Bytes
  -- net.ParseIP with (net.IP).String, and netip.ParseAddr with its zone and its family
  pub parse_ip : Bytes → Option Bytes
  pub parse_addr : Bytes → Option Addr

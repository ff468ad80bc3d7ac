-- ===== src/Server/Hosts.antt =====
-- `handleHosts`, and the SSH keys of settings_api.go.
use womprat.Base.{
  Bytes, codes, ℤ, pos, Bool, true, false, not, ◌&&◌, ◌||◌, Option, none, some, [], ◌==◌, ◌!=◌,
  bytes_eq, leb_ℤ, ltb_ℤ, if◌then◌else◌, Result, ok, err, is_ok, lookup, insert, delete,
}
use womprat.Platform.{Platform}
use womprat.Text.Space.{trim_space}
use womprat.CustomUrl.{validate_custom_url_host, validate_custom_url_user}
use womprat.Config.{AppConfig, HostConfig, sanitize_host_config_url, safe_ssh_key_name}
use womprat.Server.Defs.{Server, Backend, Request, Response, status_ok, failure, hosts_reply}
use womprat.Server.Http.{is_read, decode_settings_json, resource_name_from_path}
use womprat.Server.Commit.{commit}

-- the body of a PATCH: the fields that it names
pub record HostPatch : Type 0 where
  pub user : Option Bytes
  pub port : Option ℤ
  pub key_name : Option Bytes
  pub nickname : Option Bytes
  pub url : Option Bytes

abbrev pub no_host : HostConfig
no_host = record {
  user = [];
  port = pos 0;
  key_name = [];
  nickname = [];
  url = [];
  host_key = [];
  host_key_fingerprint = [];
}

-- a missing host reads as the zero value
abbrev pub or_no_host : Option HostConfig → HostConfig
or_no_host none = no_host
or_no_host (some conf) = conf

abbrev pub host_of : Bytes → AppConfig → HostConfig
host_of host cfg = or_no_host (lookup host cfg.hosts)

abbrev bad_request : Bytes → Result Response HostConfig
bad_request message = err (failure 400 message)

abbrev patch_user : Option Bytes → HostConfig → Result Response HostConfig
patch_user none conf = ok conf
patch_user (some raw) conf =
    let user = trim_space raw in
    if user != [] && not (is_ok (validate_custom_url_user user))
    then bad_request (codes "invalid user")
    else ok (record conf { user = user })

abbrev patch_port : Option ℤ → HostConfig → Result Response HostConfig
patch_port none conf = ok conf
patch_port (some port) conf =
    if leb_ℤ port (pos 0) || ltb_ℤ (pos 65535) port
    then bad_request (codes "invalid port")
    else ok (record conf { port = port })

abbrev has_key_name : Bytes → Bool
has_key_name name = elim (safe_ssh_key_name name) [ none ↦ false | some _ ↦ true ]

abbrev patch_key : Option Bytes → HostConfig → Result Response HostConfig
patch_key none conf = ok conf
patch_key (some raw) conf =
    let name = trim_space raw in
    if name != [] && not (has_key_name name)
    then bad_request (codes "invalid SSH key name")
    else ok (record conf { key_name = name })

abbrev and_then :
    Result Response HostConfig
    → (HostConfig → Result Response HostConfig)
    → Result Response HostConfig
and_then (err e) f = err e
and_then (ok conf) f = f conf

module _ (p : Platform) (b : Backend) where
  pub patch_host : HostPatch → HostConfig → Result Response HostConfig
  patch_host patch conf =
      and_then (and_then (patch_user patch.user conf) (patch_port patch.port)) λ c.
        and_then (patch_key patch.key_name c) λ d. ok (record d {
          nickname = elim patch.nickname [ none ↦ d.nickname | some raw ↦ trim_space raw ];
          url = elim patch.url [ none ↦ d.url | some raw ↦ sanitize_host_config_url p raw ];
        })

  -- the host that a path names, if it is one
  pub host_from_path : Bytes → Option Bytes
  host_from_path path = elim (resource_name_from_path path (codes "/api/settings/hosts/")) [
    | none ↦ none
    | some host ↦ if is_ok (validate_custom_url_host p host) then some host else none
  ]

  abbrev set_host : Bytes → HostConfig → AppConfig → AppConfig
  set_host host conf cfg = record cfg { hosts = insert host conf cfg.hosts }

  abbrev drop_host : Bytes → AppConfig → AppConfig
  drop_host host cfg = record cfg { hosts = delete host cfg.hosts }

  unfoldable pub patch_hosts : Request HostPatch → Bytes → Server → Response × Server
  patch_hosts r host s = elim (decode_settings_json r) [
    | err refused ↦ (refused, s)
    | ok patch ↦ elim (patch_host patch (host_of host s.app.config)) [
      | err refused ↦ (refused, s)
      | ok conf ↦ commit p b (set_host host conf) status_ok s
    ]
  ]

  unfoldable pub handle_hosts : Request HostPatch → Server → Response × Server
  handle_hosts r s =
      if is_read r.method
      then (record { status = 200; payload = hosts_reply s.app.config.hosts }, s)
      else if r.method == codes "PATCH"
      then elim (host_from_path r.path) [
        | none ↦ (failure 400 (codes "invalid host"), s)
        | some host ↦ patch_hosts r host s
      ]
      else if r.method == codes "DELETE"
      then elim (host_from_path r.path) [
        | none ↦ (failure 400 (codes "invalid host"), s)
        | some host ↦ commit p b (drop_host host) status_ok s
      ]
      else (failure 405 (codes "method not allowed"), s)

-- ===== src/Api/Routes.antt =====
-- The routes of `registerSettingsRoutes`, `registerBrowserRoutes` and `registerRoutes` to the modelled
-- handlers that act on the settings, the lock, the node or a shell, and to the one that resolves an
-- address, behind `localHostGuard` and `authMiddleware`. The other routes are those that only report,
-- those of the web views, of the downloads, which keep a state of their own, and the web sockets.
use womprat.Base.{Bytes, codes, Bool, none, some, List, [], if◌then◌else◌, not}
use womprat.Platform.{Platform}
use womprat.Config.{SavedTab}
use womprat.Address.{Names}
use womprat.Handlers.{handle_resolve_address, handle_ssh_resize}
use womprat.Server.{
  Server, Backend, Request, Response, failure, text_reply, local_host_guard, auth_middleware,
  handle_auth_status, handle_unlock, handle_save_key, handle_set_unlock_method,
  handle_set_master_password, handle_set_tailscale_key, handle_tailscale_disconnect, Appearance,
  handle_debug_log, handle_appearance, handle_save_tabs, handle_remove_recent, handle_get_config,
  handle_save_passwords_toggle, handle_search_provider, handle_address_history, handle_exit_node,
  HostPatch, handle_hosts, handle_ssh_keys, handle_generate_ssh_key,
}
use womprat.Ssh.{Remote, SshRequest, connect_request, password_request, serve_ssh}

-- A request to one of the routes: what its handler reads of it, which may be the method only.
pub data Route : Type 0 where
  to_auth_status : Bytes → Route
  to_unlock : Request Bytes → Route
  to_save_key : Request Bytes → Route
  to_debug_log : Request Bool → Route
  to_unlock_method : Request Bytes → Route
  to_master_password : Request Bytes → Route
  to_tailscale_key : Request Bytes → Route
  to_tailscale_disconnect : Bytes → Route
  to_ssh_keys : Request (Bytes × Bytes) → Route
  to_generate_key : Request Bytes → Route
  to_hosts : Request HostPatch → Route
  to_appearance : Request Appearance → Route
  to_exit_node : Request Bytes → Route
  to_save_tabs : Request (List SavedTab) → Route
  to_remove_recent : Request Bytes → Route
  to_config : Bytes → Route
  to_save_passwords : Request Bool → Route
  to_search : Request Bytes → Route
  to_history : Request Bytes → Route
  to_resolve : Request Bytes → Route
  to_ssh_resize : Bytes → Route
  to_ssh : SshRequest → Route

unfoldable pub route_path : Route → Bytes
route_path (to_auth_status _) = codes "/api/auth/status"
route_path (to_unlock _) = codes "/api/auth/unlock"
route_path (to_save_key _) = codes "/api/auth/save-key"
route_path (to_debug_log _) = codes "/api/settings/debug-log"
route_path (to_unlock_method _) = codes "/api/settings/unlock-method"
route_path (to_master_password _) = codes "/api/settings/master-password"
route_path (to_tailscale_key _) = codes "/api/settings/tailscale-key"
route_path (to_tailscale_disconnect _) = codes "/api/settings/tailscale-disconnect"
route_path (to_ssh_keys _) = codes "/api/settings/ssh-keys"
route_path (to_generate_key _) = codes "/api/settings/ssh-keys/generate"
route_path (to_hosts _) = codes "/api/settings/hosts"
route_path (to_appearance _) = codes "/api/settings/appearance"
route_path (to_exit_node _) = codes "/api/settings/exit-node"
route_path (to_save_tabs _) = codes "/api/settings/save-tabs"
route_path (to_remove_recent _) = codes "/api/settings/recent/remove"
route_path (to_config _) = codes "/api/settings/config"
route_path (to_save_passwords _) = codes "/api/settings/browser/save-passwords"
route_path (to_search _) = codes "/api/settings/browser/search"
route_path (to_history _) = codes "/api/settings/browser/history"
route_path (to_resolve _) = codes "/api/settings/browser/resolve-address"
route_path (to_ssh_resize _) = codes "/api/ssh/resize"
route_path (to_ssh (connect_request _)) = codes "/api/ssh/connect"
route_path (to_ssh (password_request _)) = codes "/api/ssh/auth-password"

-- The headers of a request that the guards read.
pub record Access : Type 0 where
  pub host : Bytes
  pub header_token : Bytes
  pub query_token : Bytes

module _ (p : Platform) (b : Backend) (n : Names) (remote : Remote) (is_linux : Bool) where
  unfoldable pub serve : Route → Server → Response × Server
  serve (to_auth_status method) = handle_auth_status p b method
  serve (to_unlock r) = handle_unlock p b r
  serve (to_save_key r) = handle_save_key p b r
  serve (to_debug_log r) = handle_debug_log p b r
  serve (to_unlock_method r) = handle_set_unlock_method p b r
  serve (to_master_password r) = handle_set_master_password p b r
  serve (to_tailscale_key r) = handle_set_tailscale_key p b r
  serve (to_tailscale_disconnect method) = handle_tailscale_disconnect p b method
  serve (to_ssh_keys r) = handle_ssh_keys b r
  serve (to_generate_key r) = handle_generate_ssh_key b r
  serve (to_hosts r) = handle_hosts p b r
  serve (to_appearance r) = handle_appearance p b r
  serve (to_exit_node r) = handle_exit_node p b r
  serve (to_save_tabs r) = handle_save_tabs p b r
  serve (to_remove_recent r) = handle_remove_recent p b r
  serve (to_config method) = handle_get_config p b method
  serve (to_save_passwords r) = handle_save_passwords_toggle p b is_linux r
  serve (to_search r) = handle_search_provider p b r
  serve (to_history r) = handle_address_history p b r
  serve (to_resolve r) = handle_resolve_address p n r
  serve (to_ssh_resize method) = λ s. elim (handle_ssh_resize method) [
    | some refused ↦ (refused, s)
    | none ↦ (record { status = 204; payload = text_reply [] }, s)
  ]
  serve (to_ssh q) = serve_ssh p b remote q

  -- a request from the outside: the guard of the host, the session token, and the route
  unfoldable pub handle : Bytes → Bytes → Access → Route → Server → Response × Server
  handle address session_token access route s =
      if not (local_host_guard address access.host)
      then (failure 403 (codes "Invalid local host"), s)
      else elim (auth_middleware session_token s.app.locked (route_path route) access.header_token
          access.query_token) [ some refused ↦ (refused, s) | none ↦ serve route s ]

-- ===== src/Ssh/Connect.antt =====
-- `handleSSHConnect` and `handleSSHAuthPassword` of main.go, and what `handleSSHWebSocketFull` takes
-- and leaves behind. The connection and the handshake are parameters.
use womprat.Base.{
  Bytes, codes, ℕ, ℤ, pos, Bool, false, not, ◌&&◌, ◌||◌, none, some, List, [], ◌∷◌, ◌==◌, ◌!=◌,
  bytes_eq, int_eq, nat_eq, any, keep, ltb, leb_ℤ, ltb_ℤ, length, if◌then◌else◌, Result, ok, err,
  is_ok, lookup, insert, delete, suc,
}
use womprat.Platform.{Platform}
use womprat.Text.Space.{trim_space}
use womprat.CustomUrl.{validate_custom_url_host, validate_custom_url_user}
use womprat.Tabs.{valid_tab_id, new_tab_id}
use womprat.Server.{
  Server, Backend, Request, Response, PendingSsh, failure, success, posted, require_get,
}
use womprat.Ssh.Size.{
  clamp_terminal_dimension, min_terminal_cols, max_terminal_cols, min_terminal_rows,
  max_terminal_rows,
}
use womprat.Ssh.Keys.{KeyFormat, get_ssh_auth_methods, host_key_callback}

-- the body of a request to connect
pub record Target : Type 0 where
  pub host : Bytes
  pub user : Bytes
  pub port : ℤ
  pub cols : ℤ
  pub rows : ℤ

pub data Auth : Type 0 where
  public_keys : List Bytes → Auth
  password : Bytes → Auth

-- What a handshake comes to: it breaks before there is a host key, or the host presents a key, and
-- accepts the user or not. Which it is may depend on all that happened before.
pub data Handshake : Type 0 where
  broken : Handshake
  presented : Bytes → Bool → Handshake

pub record Remote : Type 0 where
  pub format : KeyFormat
  pub allow_direct_dial : Bool
  pub now : ℕ
  -- `dialTSNetPreferIPv4` with a time limit, and `ssh.NewClientConn` up to its questions
  pub dials : Server → Bytes → ℤ → Bool
  pub handshake : Server → Bytes → ℤ → Bytes → Auth → Handshake

abbrev pub or_default : ℤ → ℤ → ℤ
or_default value d = if value == pos 0 then d else value

-- the checks of `handleSSHConnect`, with the defaults
pub check_request : Platform → Target → Result Response Target
check_request p body =
    let host = trim_space body.host in
    let raw_user = trim_space body.user in
    let user = if raw_user == [] then codes "root" else raw_user in
    let port = or_default body.port (pos 22) in
    if host == []
    then err (failure 400 (codes "Missing host"))
    else if not (is_ok (validate_custom_url_host p host))
    then err (failure 400 (codes "Invalid host"))
    else if not (is_ok (validate_custom_url_user user))
    then err (failure 400 (codes "Invalid user"))
    else if leb_ℤ port (pos 0) || ltb_ℤ (pos 65535) port
    then err (failure 400 (codes "Invalid port"))
    else ok (record {
      host = host;
      user = user;
      port = port;
      cols =
          or_default (clamp_terminal_dimension body.cols min_terminal_cols max_terminal_cols)
            (pos 80);
      rows =
          or_default (clamp_terminal_dimension body.rows min_terminal_rows max_terminal_rows)
            (pos 24);
    })

module _ (p : Platform) (b : Backend) (r : Remote) where
  -- `ssh.NewClientConn`: the key of the host is shown to the callback before the user is let in.
  unfoldable pub new_client_conn : Bytes → ℤ → Bytes → Auth → Server → Bool × Server
  new_client_conn host port user auth s = elim (r.handshake s host port user auth) [
    | broken ↦ (false, s)
    | presented key accepted ↦
        let (checked, s') = host_key_callback p b r.format host key s in
        (is_ok checked && accepted, s')
  ]

  abbrev connected : Bytes → Response
  connected id = success ((codes "tabId", id) ∷ (codes "status", codes "connected") ∷ [])

  abbrev needs_password : Bytes → Response
  needs_password id = success ((codes "tabId", id) ∷ (codes "needsPassword", codes "true") ∷ [])

  -- Behind the checks: a connection under a new id, or a question for the password.
  unfoldable pub open_shell : Target → Server → Response × Server
  open_shell t s =
      let id = new_tab_id (codes "term") r.now s.app.sequence in
      let (good, s') =
        new_client_conn t.host t.port t.user
          (public_keys (get_ssh_auth_methods p b r.format t.host s)) s in
      let noted = record s' { app = record s'.app { sequence = suc s'.app.sequence } } in
      if good then (connected id, record noted { ssh_conns = id ∷ noted.ssh_conns }) else (
        needs_password id,
        record noted {
          pending_auth =
              insert id
                (record {
                  host = t.host;
                  user = t.user;
                  port = t.port;
                  cols = t.cols;
                  rows = t.rows;
                })
                noted.pending_auth;
        },
      )

  unfoldable pub handle_ssh_connect : Request Target → Server → Response × Server
  handle_ssh_connect request = posted request λ body s. elim (check_request p body) [
    | err refused ↦ (refused, s)
    | ok t ↦
        if not s.has_node && not r.allow_direct_dial
        then (failure 503 (codes "Tailscale not connected"), s)
        else if not (r.dials s t.host t.port)
        then (failure 500 (codes "Connection failed"), s)
        else open_shell t s
  ]

  -- the answer to a password for a pending connection
  unfoldable pub log_in : Bytes → Bytes → PendingSsh → Server → Response × Server
  log_in id secret pending s =
      let (good, s') = new_client_conn pending.host pending.port pending.user (password secret) s in
      if good
      then (
        success ((codes "status", codes "connected") ∷ (codes "tabId", id) ∷ []),
        record s' { pending_auth = delete id s'.pending_auth; ssh_conns = id ∷ s'.ssh_conns },
      )
      else (failure 401 (codes "Authentication failed"), s')

  unfoldable pub handle_ssh_auth_password : Request (Bytes × Bytes) → Server → Response × Server
  handle_ssh_auth_password request = posted request λ body s.
      let id = trim_space body.0 in
      if not (valid_tab_id id)
      then (failure 400 (codes "Invalid tabId"), s)
      else if body.1 == [] || ltb 4096 (length body.1)
      then (failure 400 (codes "Invalid password"), s)
      else elim (lookup id s.pending_auth) [
        | none ↦ (failure 404 (codes "No pending auth"), s)
        | some pending ↦
            if not s.has_node && not r.allow_direct_dial
            then (failure 503 (codes "Tailscale not connected"), s)
            else if not (r.dials s pending.host pending.port)
            then (failure 500 (codes "Connection failed"), s)
            else log_in id body.1 pending s
      ]

-- The start of `handleSSHWebSocketFull`: a refusal, or the tab whose shell is opened.
pub web_socket_tab : Bytes → Bytes → Server → Result Response Bytes
web_socket_tab method tab s = elim (require_get method) [
  | some refused ↦ err refused
  | none ↦
      if not (valid_tab_id tab)
      then err (failure 400 (codes "invalid tab param"))
      else if not (any (λ id. id == tab) s.ssh_conns)
      then err (failure 404 (codes "no SSH connection for tab"))
      else ok tab
]

-- and its end, which forgets the connection
pub web_socket_closed : Bytes → Server → Server
web_socket_closed tab s = record s { ssh_conns = keep (λ id. id != tab) s.ssh_conns }

-- the requests of the handlers that open a secure shell
pub data SshRequest : Type 0 where
  connect_request : Request Target → SshRequest
  password_request : Request (Bytes × Bytes) → SshRequest

unfoldable pub serve_ssh : Platform → Backend → Remote → SshRequest → Server → Response × Server
serve_ssh p b r (connect_request request) = handle_ssh_connect p b r request
serve_ssh p b r (password_request request) = handle_ssh_auth_password p b r request

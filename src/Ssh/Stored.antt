-- ===== src/Ssh/Stored.antt =====
-- About the handlers of main.go that open secure shells: the settings and their file.
use womprat.Base.{
  Bytes, ℕ, ℤ, Bool, not, ◌&&◌, ◌||◌, some, [], ◌==◌, bytes_eq, eqb_iff, Bool-cases, Option-cases,
  Result-cases, ◌≡◌, refl, ap, ◌⊎◌, inl, inr, insert, lookup, ltb, length, suc,
}
use womprat.Platform.{Platform}
use womprat.Text.Space.{trim_space}
use womprat.Config.{AppConfig, save_config, normalize_config}
use womprat.Tabs.{Session, valid_tab_id}
use womprat.Server.{Server, Backend, Request, Response, PendingSsh, posted-both, host_of}
use womprat.Ssh.Keys.{trust_key, host_key_callback, get_ssh_auth_methods}
use womprat.Ssh.Connect.{
  Target, Auth, presented, Remote, check_request, new_client_conn, open_shell, handle_ssh_connect,
  log_in, handle_ssh_auth_password, SshRequest, connect_request, password_request, serve_ssh,
  public_keys, password,
}
use womprat.Ssh.Pinned.{pinned}
use womprat.Ssh.Trusted.{Handshake-cases}

module _ (p : Platform) (b : Backend) (r : Remote) where
  -- the settings with the key of a host
  abbrev pub with_key : Bytes → Bytes → AppConfig → AppConfig
  with_key host key cfg = record cfg {
    hosts =
        insert host
          (record (host_of host cfg) {
            host_key = r.format.authorized key;
            host_key_fingerprint = r.format.fingerprint key;
          })
          cfg.hosts;
  }

  -- The key that a host presented, and for which none was stored, is in the settings and the file.
  abbrev pub FirstKey : ℕ → Server → Session → Type 0
  FirstKey count s a =
      (host : Bytes) × (key : Bytes) × (port : ℤ) × (user : Bytes) × (auth : Auth)
      × (accepted : Bool) × (r.handshake s host port user auth ≡ presented key accepted)
      × (pinned host s ≡ [])
      × (a ≡ record s.app {
        config = with_key host key s.app.config;
        file = some (normalize_config p b.env.resolves (with_key host key s.app.config));
        sequence = count;
      })

  -- A connection was made, or a password is asked for: a number is used, and a first key may be saved.
  abbrev pub Counted : Server → Response × Server → Type 0
  Counted s o =
      (o.0.status ≡ 200)
      × ((o.1.app ≡ record s.app { sequence = suc s.app.sequence })
          ⊎ (FirstKey (suc s.app.sequence) s o.1.app))

  -- What a request for a secure shell leaves: the old settings; or a number used; or, behind a
  -- password, which may be refused, a first key.
  abbrev pub Shelled : SshRequest → Server → Response × Server → Type 0
  Shelled q s o =
      (o.1.app ≡ s.app)
      ⊎ (Counted s o)
      ⊎ ((request : Request (Bytes × Bytes)) × (q ≡ password_request request)
          × (FirstKey s.app.sequence s o.1.app))

  trust_key-FirstKey :
      (host key : Bytes) (port : ℤ) (user : Bytes) (auth : Auth) (accepted : Bool) (s : Server)
      → r.handshake s host port user auth ≡ presented key accepted
      → pinned host s ≡ []
      → ((trust_key p b r.format host key s).1.app ≡ s.app)
        ⊎ (FirstKey s.app.sequence s (trust_key p b r.format host key s).1.app)
  unfolding trust_key save_config
  trust_key-FirstKey host key port user auth accepted s shown first =
      elim (Bool-cases
        (b.env.writes (normalize_config p b.env.resolves (with_key host key s.app.config)))) [
          | inr w ↦ rw (trust_key, w) (inl refl)
          | inl w ↦
              rw (trust_key, w) (inr (host, key, port, user, auth, accepted, shown, first, refl))
        ]

  callback-FirstKey :
      (host key : Bytes) (port : ℤ) (user : Bytes) (auth : Auth) (accepted : Bool) (s : Server)
      → r.handshake s host port user auth ≡ presented key accepted
      → ((host_key_callback p b r.format host key s).1.app ≡ s.app)
        ⊎ (FirstKey s.app.sequence s (host_key_callback p b r.format host key s).1.app)
  unfolding host_key_callback
  callback-FirstKey host key port user auth accepted s shown =
      elim (Bool-cases ((host_of host s.app.config).host_key == [])) [
        | inr q ↦ rw (host_key_callback, q) (inl refl)
        | inl q ↦
            rw (host_key_callback, q)
              (trust_key-FirstKey host key port user auth accepted s shown
                ((eqb_iff (pinned host s) []).0 q))
      ]

  conn-FirstKey :
      (host : Bytes) (port : ℤ) (user : Bytes) (auth : Auth) (s : Server)
      → ((new_client_conn p b r host port user auth s).1.app ≡ s.app)
        ⊎ (FirstKey s.app.sequence s (new_client_conn p b r host port user auth s).1.app)
  unfolding new_client_conn
  conn-FirstKey host port user auth s = elim (Handshake-cases (r.handshake s host port user auth)) [
    | inl q ↦ rw (new_client_conn, q) (inl refl)
    | inr (key, accepted, q) ↦
        rw (new_client_conn, q) (callback-FirstKey host key port user auth accepted s q)
  ]

  counted :
      (s : Server) (a : Session)
      → (a ≡ s.app) ⊎ (FirstKey s.app.sequence s a)
      → ((record a { sequence = suc a.sequence }) ≡ record s.app { sequence = suc s.app.sequence })
        ⊎ (FirstKey (suc s.app.sequence) s (record a { sequence = suc a.sequence }))
  counted s a (inl e) = inl (ap (λ (x : Session). record x { sequence = suc x.sequence }) e)
  counted s a (inr (host, key, port, user, auth, accepted, shown, first, e)) = inr (
    host,
    key,
    port,
    user,
    auth,
    accepted,
    shown,
    first,
    ap (λ (x : Session). record x { sequence = suc x.sequence }) e,
  )

  open_shell-Counted : (t : Target) (s : Server) → Counted s (open_shell p b r t s)
  unfolding open_shell
  open_shell-Counted t s =
      let auth = public_keys (get_ssh_auth_methods p b r.format t.host s) in
      let conn = new_client_conn p b r t.host t.port t.user auth s in
      let h = counted s conn.1.app (conn-FirstKey t.host t.port t.user auth s) in
      elim (Bool-cases conn.0) [
        | inl q ↦ rw (open_shell, q) (refl, h)
        | inr q ↦ rw (open_shell, q) (refl, h)
      ]

  log_in-FirstKey :
      (id secret : Bytes) (pending : PendingSsh) (s : Server)
      → ((log_in p b r id secret pending s).1.app ≡ s.app)
        ⊎ (FirstKey s.app.sequence s (log_in p b r id secret pending s).1.app)
  unfolding log_in
  log_in-FirstKey id secret pending s =
      let h = conn-FirstKey pending.host pending.port pending.user (password secret) s in
      elim (Bool-cases
        (new_client_conn p b r pending.host pending.port pending.user (password secret) s).0) [
          | inl q ↦ rw (log_in, q) h
          | inr q ↦ rw (log_in, q) h
        ]

  pub serve_ssh-Shelled : (q : SshRequest) (s : Server) → Shelled q s (serve_ssh p b r q s)
  unfolding serve_ssh handle_ssh_connect handle_ssh_auth_password
  serve_ssh-Shelled (connect_request request) s =
      posted-both (λ o. Shelled (connect_request request) s o) request _ s (λ _. inl refl)
        λ body. elim (Result-cases (check_request p body)) [
          | inl (refused, q) ↦ rw q (inl refl)
          | inr (t, q) ↦ elim (Bool-cases (not s.has_node && not r.allow_direct_dial)) [
            | inl u ↦ rw (q, u) (inl refl)
            | inr u ↦ elim (Bool-cases (not (r.dials s t.host t.port))) [
              | inl w ↦ rw (q, u, w) (inl refl)
              | inr w ↦ rw (q, u, w) (inr (inl (open_shell-Counted t s)))
            ]
          ]
        ]
  serve_ssh-Shelled (password_request request) s =
      posted-both (λ o. Shelled (password_request request) s o) request _ s (λ _. inl refl)
        λ body.
          let id : Bytes = trim_space body.0 in
          elim (Bool-cases (not (valid_tab_id id))) [
            | inl q ↦ rw q (inl refl)
            | inr q ↦ elim (Bool-cases (body.1 == [] || ltb 4096 (length body.1))) [
              | inl u ↦ rw (q, u) (inl refl)
              | inr u ↦ elim (Option-cases (lookup id s.pending_auth)) [
                | inl w ↦ rw (q, u, w) (inl refl)
                | inr (pending, w) ↦ elim (Bool-cases (not s.has_node && not r.allow_direct_dial)) [
                  | inl v ↦ rw (q, u, w, v) (inl refl)
                  | inr v ↦ elim (Bool-cases (not (r.dials s pending.host pending.port))) [
                    | inl d ↦ rw (q, u, w, v, d) (inl refl)
                    | inr d ↦
                        rw (q, u, w, v, d)
                          (elim (log_in-FirstKey id body.1 pending s) [
                            | inl same ↦ inl same
                            | inr kept ↦ inr (inr (request, refl, kept))
                          ])
                  ]
                ]
              ]
            ]
          ]

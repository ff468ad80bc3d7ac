-- ===== src/Ssh/Trusted.antt =====
-- About the handlers of main.go that open secure shells.
use womprat.Base.{
  Bytes, codes, ℤ, Bool, true, false, not, ◌&&◌, ◌||◌, some, [], ◌∷◌, ◌==◌, bytes_eq, Bool-cases,
  Option-cases, Result-cases, ◌≡◌, refl, ap, ◌∙◌, ◌⊎◌, inl, inr, arith, lookup, ltb, length,
}
use womprat.Platform.{Platform}
use womprat.Text.Space.{trim_space}
use womprat.Tabs.{valid_tab_id, new_tab_id}
use womprat.Server.{Server, Backend, PendingSsh, posted-both}
use womprat.Ssh.Keys.{trust_key, host_key_callback, get_ssh_auth_methods}
use womprat.Ssh.Connect.{
  Target, Auth, Handshake, broken, presented, Remote, check_request, new_client_conn, open_shell,
  handle_ssh_connect, log_in, handle_ssh_auth_password, SshRequest, connect_request,
  password_request, serve_ssh, public_keys, password,
}
use womprat.Ssh.Pinned.{pinned, host_key_callback-pinned, host_key_callback-accepts}

pub Handshake-cases :
    (h : Handshake)
    → (h ≡ broken) ⊎ ((key : Bytes) × (accepted : Bool) × (h ≡ presented key accepted))
Handshake-cases broken = inl refl
Handshake-cases (presented key accepted) = inr (key, accepted, refl)

module _ (p : Platform) (b : Backend) (r : Remote)
    (reads : (key : Bytes) → r.format.parse_authorized (r.format.authorized key) ≡ some key) where
  -- What was stored for a host stays.
  abbrev Keeps : Server → Server → Type 0
  Keeps s t = (h : Bytes) → (pinned h s ≡ []) ⊎ (pinned h t ≡ pinned h s)

  -- A host that presented the key that is stored for it let the user in.
  abbrev LetIn : Server → Server → Type 0
  LetIn s t =
      (host : Bytes) × (key : Bytes) × (port : ℤ) × (user : Bytes) × (auth : Auth) × (r.handshake s
          host port user auth
        ≡ presented key true)
      × (r.format.parse_authorized (pinned host t) ≡ some key)

  -- No connection is new, or one is, with such a host.
  abbrev pub Trusted : Server → Server → Type 0
  Trusted s t =
      (Keeps s t)
      × ((t.ssh_conns ≡ s.ssh_conns)
          ⊎ ((id : Bytes) × (t.ssh_conns ≡ id ∷ s.ssh_conns) × (LetIn s t)))

  callback-conns :
      (host key : Bytes) (s : Server)
      → (host_key_callback p b r.format host key s).1.ssh_conns ≡ s.ssh_conns
  unfolding host_key_callback trust_key
  callback-conns host key s = ground arith

  conn-cases :
      (host : Bytes) (port : ℤ) (user : Bytes) (auth : Auth) (s : Server)
      → (Keeps s (new_client_conn p b r host port user auth s).1)
        × ((new_client_conn p b r host port user auth s).1.ssh_conns ≡ s.ssh_conns)
        × (((new_client_conn p b r host port user auth s).0 ≡ false)
            ⊎ (((new_client_conn p b r host port user auth s).0 ≡ true)
                × (LetIn s (new_client_conn p b r host port user auth s).1)))
  unfolding new_client_conn
  conn-cases host port user auth s = elim (Handshake-cases (r.handshake s host port user auth)) [
    | inl q ↦ rw (new_client_conn, q) ((λ h. inr refl), refl, inl refl)
    | inr (key, accepted, q) ↦
        let kept : Keeps s (host_key_callback p b r.format host key s).1 =
          λ h. host_key_callback-pinned p b r.format host key h s in
        let conns = callback-conns host key s in
        elim (Result-cases (host_key_callback p b r.format host key s).0) [
          | inl (e, u) ↦ rw (new_client_conn, q, u) (kept, conns, inl refl)
          | inr (ok_value, u) ↦ elim (Bool-cases accepted) [
            | inr w ↦ rw (new_client_conn, q, u, w) (kept, conns, inl refl)
            | inl w ↦
                rw (new_client_conn, q, u, w)
                  (
                    kept,
                    conns,
                    inr (
                      refl,
                      (
                        host,
                        key,
                        port,
                        user,
                        auth,
                        q ∙ ap (presented key) w,
                        host_key_callback-accepts p b r.format host key s (reads key) u,
                      ),
                    ),
                  )
          ]
        ]
  ]

  open_shell-Trusted : (t : Target) (s : Server) → Trusted s (open_shell p b r t s).1
  unfolding open_shell
  open_shell-Trusted t s =
      let id : Bytes = new_tab_id (codes "term") r.now s.app.sequence in
      let h =
        conn-cases t.host t.port t.user (public_keys (get_ssh_auth_methods p b r.format t.host s))
          s in
      elim h.2 [
        | inl q ↦ rw (open_shell, q) (h.0, inl h.1)
        | inr (q, allowed) ↦ rw (open_shell, q) (h.0, inr (id, ap (◌∷◌ id) h.1, allowed))
      ]

  log_in-Trusted :
      (id secret : Bytes) (pending : PendingSsh) (s : Server)
      → Trusted s (log_in p b r id secret pending s).1
  unfolding log_in
  log_in-Trusted id secret pending s =
      let h = conn-cases pending.host pending.port pending.user (password secret) s in
      elim h.2 [
        | inl q ↦ rw (log_in, q) (h.0, inl h.1)
        | inr (q, allowed) ↦ rw (log_in, q) (h.0, inr (id, ap (◌∷◌ id) h.1, allowed))
      ]

  same-Trusted : (s : Server) → Trusted s s
  same-Trusted s = ((λ h. inr refl), inl refl)

  -- A secure shell is opened only with a host that presented the very key that is stored for it, the
  -- first time the key that is stored then; and a key that is stored is never replaced, whatever the
  -- request, the host and the answers, provided that a printed key is read back.
  pub serve_ssh-Trusted : (q : SshRequest) (s : Server) → Trusted s (serve_ssh p b r q s).1
  unfolding serve_ssh handle_ssh_connect handle_ssh_auth_password
  serve_ssh-Trusted (connect_request request) s =
      posted-both (λ o. Trusted s o.1) request _ s (λ _. same-Trusted s)
        λ body. elim (Result-cases (check_request p body)) [
          | inl (refused, q) ↦ rw q (same-Trusted s)
          | inr (t, q) ↦ elim (Bool-cases (not s.has_node && not r.allow_direct_dial)) [
            | inl u ↦ rw (q, u) (same-Trusted s)
            | inr u ↦ elim (Bool-cases (not (r.dials s t.host t.port))) [
              | inl w ↦ rw (q, u, w) (same-Trusted s)
              | inr w ↦ rw (q, u, w) (open_shell-Trusted t s)
            ]
          ]
        ]
  serve_ssh-Trusted (password_request request) s =
      posted-both (λ o. Trusted s o.1) request _ s (λ _. same-Trusted s)
        λ body.
          let id : Bytes = trim_space body.0 in
          elim (Bool-cases (not (valid_tab_id id))) [
            | inl q ↦ rw q (same-Trusted s)
            | inr q ↦ elim (Bool-cases (body.1 == [] || ltb 4096 (length body.1))) [
              | inl u ↦ rw (q, u) (same-Trusted s)
              | inr u ↦ elim (Option-cases (lookup id s.pending_auth)) [
                | inl w ↦ rw (q, u, w) (same-Trusted s)
                | inr (pending, w) ↦ elim (Bool-cases (not s.has_node && not r.allow_direct_dial)) [
                  | inl v ↦ rw (q, u, w, v) (same-Trusted s)
                  | inr v ↦ elim (Bool-cases (not (r.dials s pending.host pending.port))) [
                    | inl d ↦ rw (q, u, w, v, d) (same-Trusted s)
                    | inr d ↦ rw (q, u, w, v, d) (log_in-Trusted id body.1 pending s)
                  ]
                ]
              ]
            ]
          ]

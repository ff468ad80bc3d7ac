-- ===== src/Api/Admitted.antt =====
-- About the guards in front of the routes: who may change anything.
use womprat.Base.{
  Bytes, codes, Bool, true, false, ◌&&◌, none, some, ◌==◌, ◌!=◌, bytes_eq, eqb, eqb_iff,
  if◌then◌else◌, Bool-cases, Option-cases, ◌≡◌, refl, sym, subst, ap, ◌∙◌, ◌⊎◌, inl, inr,
}
use womprat.Platform.{Platform}
use womprat.Address.{Names}
use womprat.Server.{
  Server, Backend, Request, failure, local_host_guard, auth_middleware, presented, require_get,
  verify_master_password, handle_auth_status, handle_unlock,
}
use womprat.Server.Outcome.{Submits, posted-value}
use womprat.Ssh.{Remote, connect_request, password_request}
use womprat.Api.Routes.{
  Route, Access, route_path, serve, handle, to_auth_status, to_unlock, to_save_key, to_debug_log,
  to_unlock_method, to_master_password, to_tailscale_key, to_tailscale_disconnect, to_ssh_keys,
  to_generate_key, to_hosts, to_appearance, to_exit_node, to_save_tabs, to_remove_recent, to_config,
  to_save_passwords, to_search, to_history, to_resolve, to_ssh_resize, to_ssh,
}

-- Of all routes, two may be asked while the program is locked.
route-Kind :
    (route : Route)
    → ((route_path route != codes "/api/auth/status"
          && route_path route != codes "/api/auth/unlock")
        ≡ true)
      ⊎ ((r : Request Bytes) × (route ≡ to_unlock r))
      ⊎ ((method : Bytes) × (route ≡ to_auth_status method))
unfolding route_path eqb
route-Kind (to_auth_status m) = inr (inr (m, refl))
route-Kind (to_unlock r) = inr (inl (r, refl))
route-Kind (to_save_key _) = inl refl
route-Kind (to_debug_log _) = inl refl
route-Kind (to_unlock_method _) = inl refl
route-Kind (to_master_password _) = inl refl
route-Kind (to_tailscale_key _) = inl refl
route-Kind (to_tailscale_disconnect _) = inl refl
route-Kind (to_ssh_keys _) = inl refl
route-Kind (to_generate_key _) = inl refl
route-Kind (to_hosts _) = inl refl
route-Kind (to_appearance _) = inl refl
route-Kind (to_exit_node _) = inl refl
route-Kind (to_save_tabs _) = inl refl
route-Kind (to_remove_recent _) = inl refl
route-Kind (to_config _) = inl refl
route-Kind (to_save_passwords _) = inl refl
route-Kind (to_search _) = inl refl
route-Kind (to_history _) = inl refl
route-Kind (to_resolve _) = inl refl
route-Kind (to_ssh_resize _) = inl refl
route-Kind (to_ssh (connect_request _)) = inl refl
route-Kind (to_ssh (password_request _)) = inl refl

module _ (p : Platform) (b : Backend) (n : Names) (remote : Remote) (is_linux : Bool)
    (address session_token : Bytes) (access : Access) where
  -- What a locked program may come to.
  abbrev Locked : Route → Server → Type 0
  Locked route s =
      ((handle p b n remote is_linux address session_token access route s).1 ≡ s)
      ⊎ ((r : Request Bytes) × (route ≡ to_unlock r) × (Submits b r s))

  auth_status-same : (s : Server) (method : Bytes) → (handle_auth_status p b method s).1 ≡ s
  unfolding handle_auth_status
  auth_status-same s method = elim (Option-cases (require_get method)) [
    | inr (refused, q) ↦ rw (handle_auth_status, q) refl
    | inl q ↦ rw (handle_auth_status, q) refl
  ]

  unlock-same : (s : Server) (r : Request Bytes) → ((handle_unlock p b r s).1 ≡ s) ⊎ (Submits b r s)
  unfolding handle_unlock
  unlock-same s r =
      posted-value (λ o. (o.1 ≡ s) ⊎ (Submits b r s)) r _ s (λ _. inl refl)
        λ password carried. elim (Bool-cases (verify_master_password b password s)) [
          | inr q ↦ rw q (inl refl)
          | inl q ↦ inr (password, carried, q)
        ]

  unlock_route :
      (s : Server) (r : Request Bytes)
      → (handle p b n remote is_linux address session_token access (to_unlock r) s
          ≡ handle_unlock p b r s)
      → Locked (to_unlock r) s
  unlock_route s r e = elim (unlock-same s r) [
    | inl same ↦ inl (ap (λ x. x.1) e ∙ same)
    | inr submits ↦ inr (r, refl, submits)
  ]

  foreign_host :
      (route : Route) (s : Server)
      → (access.host == address) ≡ false
      → (handle p b n remote is_linux address session_token access route s).1 ≡ s
  unfolding handle local_host_guard
  foreign_host route s q = rw (handle, q) refl

  foreign_token :
      (route : Route) (s : Server)
      → (access.host == address) ≡ true
      → (presented access.header_token access.query_token == session_token) ≡ false
      → (handle p b n remote is_linux address session_token access route s).1 ≡ s
  unfolding handle local_host_guard auth_middleware
  foreign_token route s q u = rw (handle, q, u) refl

  stays_locked :
      (path : Bytes) (locked : Bool)
      → (presented access.header_token access.query_token == session_token) ≡ true
      → locked ≡ true
      → auth_middleware session_token locked path access.header_token access.query_token ≡ (
          if path != codes "/api/auth/status" && path != codes "/api/auth/unlock"
          then some (
              failure 423
                (codes "Unlock womprat before accessing protected settings or credentials"))
          else none)
  unfolding auth_middleware
  stays_locked path locked u w = rw (u, w) refl

  passes :
      (route : Route) (s : Server)
      → (access.host == address) ≡ true
      → (presented access.header_token access.query_token == session_token) ≡ true
      → s.app.locked ≡ true
      → (handle p b n remote is_linux address session_token access route s) ≡ (
          if route_path route != codes "/api/auth/status"
            && route_path route != codes "/api/auth/unlock"
          then (
            failure 423 (codes "Unlock womprat before accessing protected settings or credentials"),
            s,
          )
          else serve p b n remote is_linux route s)
  unfolding handle local_host_guard
  passes route s q u w =
      elim (Bool-cases (
        route_path route != codes "/api/auth/status"
        && route_path route != codes "/api/auth/unlock")) [
          | inl v ↦ rw (handle, q, stays_locked (route_path route) s.app.locked u w, v) refl
          | inr v ↦ rw (handle, q, stays_locked (route_path route) s.app.locked u w, v) refl
        ]

  through_unlock :
      (s : Server) (r : Request Bytes)
      → (if route_path (to_unlock r) != codes "/api/auth/status"
            && route_path (to_unlock r) != codes "/api/auth/unlock"
          then (
            failure 423 (codes "Unlock womprat before accessing protected settings or credentials"),
            s,
          )
          else serve p b n remote is_linux (to_unlock r) s)
        ≡ handle_unlock p b r s
  unfolding route_path eqb serve
  through_unlock s r = refl

  through_status :
      (s : Server) (method : Bytes)
      → (if route_path (to_auth_status method) != codes "/api/auth/status"
            && route_path (to_auth_status method) != codes "/api/auth/unlock"
          then (
            failure 423 (codes "Unlock womprat before accessing protected settings or credentials"),
            s,
          )
          else serve p b n remote is_linux (to_auth_status method) s)
        ≡ handle_auth_status p b method s
  unfolding route_path eqb serve
  through_status s method = refl

  locked_route :
      (route : Route) (s : Server)
      → (access.host == address) ≡ true
      → (presented access.header_token access.query_token == session_token) ≡ true
      → s.app.locked ≡ true
      → Locked route s
  locked_route route s q u w = elim (route-Kind route) [
    | inl other ↦ inl (rw (passes route s q u w, other) refl)
    | inr (inl (r, e)) ↦
        subst (λ x. Locked x s) (sym e)
          (unlock_route s r (passes (to_unlock r) s q u w ∙ through_unlock s r))
    | inr (inr (m, e)) ↦
        subst (λ x. Locked x s) (sym e)
          (rw (passes (to_auth_status m) s q u w ∙ through_status s m) (inl (auth_status-same s m)))
  ]

-- The token of the session came with the request, in the header or else in the query.
abbrev pub Presents : Bytes → Access → Type 0
Presents session_token access = presented access.header_token access.query_token ≡ session_token

-- A request to a route changes nothing at all unless it names the server as its host and presents the token of
-- the session; and while the program is locked, unless it goes to the route that unlocks, with the
-- right password in its body.
pub handle-Guarded :
    (p : Platform) (b : Backend) (n : Names) (remote : Remote) (is_linux : Bool)
    (address session_token : Bytes) (access : Access) (route : Route) (s : Server)
    → ((handle p b n remote is_linux address session_token access route s).1 ≡ s)
      ⊎ ((access.host ≡ address)
          × (Presents session_token access)
          × ((s.app.locked ≡ false)
              ⊎ ((r : Request Bytes) × (route ≡ to_unlock r) × (Submits b r s))))
handle-Guarded p b n remote is_linux address session_token access route s =
    elim (Bool-cases (access.host == address)) [
      | inr q ↦ inl (foreign_host p b n remote is_linux address session_token access route s q)
      | inl q ↦
          elim (Bool-cases (presented access.header_token access.query_token == session_token)) [
            | inr u ↦
                inl (foreign_token p b n remote is_linux address session_token access route s q u)
            | inl u ↦ elim (Bool-cases s.app.locked) [
              | inr unlocked ↦ inr (
                (eqb_iff access.host address).0 q,
                (eqb_iff (presented access.header_token access.query_token) session_token).0 u,
                inl unlocked,
              )
              | inl locked ↦
                  elim (locked_route p b n remote is_linux address session_token access route s q u
                    locked) [
                      | inl kept ↦ inl kept
                      | inr unlocks ↦ inr (
                        (eqb_iff access.host address).0 q,
                        (eqb_iff (presented access.header_token access.query_token) session_token).0
                            u,
                        inr unlocks,
                      )
                    ]
            ]
          ]
    ]

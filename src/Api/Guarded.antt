-- ===== src/Api/Guarded.antt =====
-- About the routes behind the guards: the settings and their file.
use womprat.Base.{
  Bytes, Bool, true, not, all, some, List, [], ◌∷◌, bytes_eq, Bool-cases, Option-cases,
  Result-cases, ℕ, suc, ap, ◌∙◌, ◌≡◌, ◌≢◌, refl, sym, subst, ◌⊎◌, inl, inr,
}
use womprat.Platform.{Platform}
use womprat.Config.{normalize_config, normalize_search_provider}
use womprat.Config.Normal.Stable.{keeps_case}
use womprat.Tabs.{Session}
use womprat.Address.{Names, resolve_address_input}
use womprat.Handlers.{handle_resolve_address, handle_ssh_resize}
use womprat.Server.{Server, Backend, Request, Response, local_host_guard, auth_middleware}
use womprat.Server.Outcome.{Settled, Unlocked, posted-Settled}
use womprat.Ssh.{Remote, SshRequest, password_request}
use womprat.Ssh.Stored.{FirstKey, Shelled, serve_ssh-Shelled}
use womprat.Api.Routes.{
  Route, Access, route_path, serve, handle, to_auth_status, to_unlock, to_save_key, to_debug_log,
  to_unlock_method, to_master_password, to_tailscale_key, to_tailscale_disconnect, to_ssh_keys,
  to_generate_key, to_hosts, to_appearance, to_exit_node, to_save_tabs, to_remove_recent, to_config,
  to_save_passwords, to_search, to_history, to_resolve, to_ssh_resize, to_ssh,
}
use womprat.Server.Settled.{
  debug_log-Settled, appearance-Settled, save_tabs-Settled, remove_recent-Settled,
  save_passwords-Settled, search_provider-Settled, address_history-Settled,
}
use womprat.Server.Granted.{
  unlock-Outcome, auth_status-Settled, save_key-Settled, unlock_method-Settled,
  master_password-Settled, tailscale_key-Settled, tailscale_disconnect-Settled, exit_node-Settled,
}
use womprat.Server.Stored.{ssh_keys-app, generate_key-Settled, hosts-Settled, get_config-Settled}

-- The file of the settings holds what is in memory, as it is normalized for the file.
abbrev pub Saved : Platform → Backend → Session → Type 0
Saved p b a = a.file ≡ some (normalize_config p b.env.resolves a.config)

module _ (p : Platform) (b : Backend) (n : Names) (remote : Remote) (is_linux : Bool)
    (lowers : (t : Bytes) → all keeps_case t ≡ true → p.to_lower t ≡ t) where
  -- What a request to a route may do to the tabs and the settings.
  abbrev pub Effect : Route → Server → Response × Server → Type 0
  Effect route s o =
      (Settled p b s.app o)
      ⊎ ((r : Request Bytes) × (route ≡ to_unlock r) × (Unlocked p b r s o))
      ⊎ ((q : SshRequest) × (route ≡ to_ssh q) × (Shelled p b remote q s o))

  resolve-Settled :
      (s : Server) (r : Request Bytes) → Settled p b s.app (handle_resolve_address p n r s)
  unfolding handle_resolve_address
  resolve-Settled s r = posted-Settled p b r _ s λ input.
      elim (Result-cases (
        resolve_address_input p n input (normalize_search_provider s.app.config.search_provider))) [
          | inl (e, q) ↦ rw q (inl refl)
          | inr (target, q) ↦ rw q (inl refl)
        ]

  serve-Effect : (s : Server) (route : Route) → Effect route s (serve p b n remote is_linux route s)
  unfolding serve
  serve-Effect s (to_auth_status method) = inl (auth_status-Settled p b s method)
  serve-Effect s (to_unlock r) = elim (unlock-Outcome p b s r) [
    | inl settled ↦ inl settled
    | inr unlocked ↦ inr (inl (r, refl, unlocked))
  ]
  serve-Effect s (to_save_key r) = inl (save_key-Settled p b s r)
  serve-Effect s (to_debug_log r) = inl (debug_log-Settled p b s r)
  serve-Effect s (to_unlock_method r) = inl (unlock_method-Settled p b s r)
  serve-Effect s (to_master_password r) = inl (master_password-Settled p b s r)
  serve-Effect s (to_tailscale_key r) = inl (tailscale_key-Settled p b s r)
  serve-Effect s (to_tailscale_disconnect method) = inl (tailscale_disconnect-Settled p b s method)
  serve-Effect s (to_ssh_keys r) = inl (inl (ssh_keys-app p b s r))
  serve-Effect s (to_generate_key r) = inl (generate_key-Settled p b s r)
  serve-Effect s (to_hosts r) = inl (hosts-Settled p b s r)
  serve-Effect s (to_appearance r) = inl (appearance-Settled p b s lowers r)
  serve-Effect s (to_exit_node r) = inl (exit_node-Settled p b s r)
  serve-Effect s (to_save_tabs r) = inl (save_tabs-Settled p b s r)
  serve-Effect s (to_remove_recent r) = inl (remove_recent-Settled p b s r)
  serve-Effect s (to_config method) = inl (get_config-Settled p b s method)
  serve-Effect s (to_save_passwords r) = inl (save_passwords-Settled p b s is_linux r)
  serve-Effect s (to_search r) = inl (search_provider-Settled p b s r)
  serve-Effect s (to_history r) = inl (address_history-Settled p b s r)
  serve-Effect s (to_resolve r) = inl (resolve-Settled s r)
  serve-Effect s (to_ssh_resize method) = elim (Option-cases (handle_ssh_resize method)) [
    | inl q ↦ rw (serve, q) (inl (inl refl))
    | inr (refused, q) ↦ rw (serve, q) (inl (inl refl))
  ]
  serve-Effect s (to_ssh q) = inr (inr (q, refl, serve_ssh-Shelled p b remote q s))

  -- A request to a route does one of these things to the tabs and the settings, as far as
  -- lower-casing leaves ASCII without capitals alone: nothing; with an answer of success, new
  -- settings, of which the file holds the normal form; to the route that unlocks, with the right
  -- password in the body, the end of the lock; or to a route that opens a secure shell, what
  -- `Shelled` lists: with an answer of success, a number is used, and the key is saved that a host
  -- without one presented or not; or, for a password, this key is saved and no number is used.
  pub handle-Settled :
      (address session_token : Bytes) (access : Access) (route : Route) (s : Server)
      → Effect route s (handle p b n remote is_linux address session_token access route s)
  unfolding handle
  handle-Settled address session_token access route s =
      elim (Bool-cases (not (local_host_guard address access.host))) [
        | inl q ↦ rw (handle, q) (inl (inl refl))
        | inr q ↦
            elim (Option-cases (
              auth_middleware session_token s.app.locked (route_path route) access.header_token
                access.query_token)) [
                  | inr (refused, u) ↦ rw (handle, q, u) (inl (inl refl))
                  | inl u ↦ rw (handle, q, u) (serve-Effect s route)
                ]
      ]

  -- Where a request to a route is answered with any status but 200, the tabs, the settings and their
  -- file stay as they were, provided that lower-casing leaves ASCII without capitals alone. The one
  -- exception is a password for a secure shell: the key that a host presented, when none was stored
  -- for it, is then in the settings, of which the file holds the normal form, and nothing else changed.
  pub handle-Atomic :
      (address session_token : Bytes) (access : Access) (route : Route) (s : Server)
      → (handle p b n remote is_linux address session_token access route s).0.status ≢ 200
      → ((handle p b n remote is_linux address session_token access route s).1.app ≡ s.app)
        ⊎ ((request : Request (Bytes × Bytes)) × (route ≡ to_ssh (password_request request))
            × (FirstKey p b remote s.app.sequence s
                (handle p b n remote is_linux address session_token access route s).1.app))
  handle-Atomic address session_token access route s bad =
      elim (handle-Settled address session_token access route s) [
        | inl (inl same) ↦ inl same
        | inl (inr (good, _, _)) ↦ elim (bad good) [ ]
        | inr (inl (_, _, (_, good, _))) ↦ elim (bad good) [ ]
        | inr (inr (q, e, inl same)) ↦ inl same
        | inr (inr (q, e, inr (inl (good, _)))) ↦ elim (bad good) [ ]
        | inr (inr (q, e, inr (inr (request, is_password, kept)))) ↦
            inr (request, e ∙ ap to_ssh is_password, kept)
      ]

  FirstKey-Saved :
      (count : ℕ) (s : Server) (a : Session) → FirstKey p b remote count s a → Saved p b a
  FirstKey-Saved count s a (_, _, _, _, _, _, _, _, e) = subst (Saved p b) (sym e) refl

  Shelled-Saved :
      (q : SshRequest) (s : Server) (o : Response × Server)
      → Shelled p b remote q s o
      → Saved p b s.app
      → Saved p b o.1.app
  Shelled-Saved q s o (inl same) h = subst (Saved p b) (sym same) h
  Shelled-Saved q s o (inr (inl (good, inl counted))) h = subst (Saved p b) (sym counted) h
  Shelled-Saved q s o (inr (inl (good, inr kept))) h =
      FirstKey-Saved (suc s.app.sequence) s o.1.app kept
  Shelled-Saved q s o (inr (inr (_, _, kept))) h = FirstKey-Saved s.app.sequence s o.1.app kept

  handle-Saved :
      (address session_token : Bytes) (access : Access) (route : Route) (s : Server)
      → Saved p b s.app
      → Saved p b (handle p b n remote is_linux address session_token access route s).1.app
  handle-Saved address session_token access route s h =
      elim (handle-Settled address session_token access route s) [
        | inl (inl same) ↦ subst (Saved p b) (sym same) h
        | inl (inr (good, cfg, saves)) ↦ subst (Saved p b) (sym saves) refl
        | inr (inl (_, _, (_, good, unlocked))) ↦ subst (Saved p b) (sym unlocked) h
        | inr (inr (q, _, shelled)) ↦
            Shelled-Saved q s (handle p b n remote is_linux address session_token access route s)
              shelled h
      ]

  -- the state behind a sequence of requests, the oldest first
  abbrev pub serve_all : Bytes → Bytes → List (Access × Route) → Server → Server
  serve_all address session_token [] s = s
  serve_all address session_token ((access, route) ∷ requests) s =
      serve_all address session_token requests
        (handle p b n remote is_linux address session_token access route s).1

  -- Whatever requests to the routes come, granted or refused, failed or not, the file of the settings
  -- holds what is in memory as `normalizeConfig` leaves it, if it does so at first and if lower-casing
  -- leaves ASCII without capitals alone.
  pub serve_all-Saved :
      (address session_token : Bytes) (requests : List (Access × Route)) (s : Server)
      → Saved p b s.app
      → Saved p b (serve_all address session_token requests s).app
  serve_all-Saved address session_token [] s h = h
  serve_all-Saved address session_token ((access, route) ∷ requests) s h =
      serve_all-Saved address session_token requests
        (handle p b n remote is_linux address session_token access route s).1
        (handle-Saved address session_token access route s h)

-- ===== src/Server/Granted.antt =====
-- What the handlers of the lock, the keys, the hosts and the exit node may do to the tabs and the
-- settings.
use womprat.Base.{
  Bytes, codes, false, not, ◌&&◌, Option, none, some, [], ◌++◌, ◌!=◌, bytes_eq, Bool-cases,
  Option-cases, Result-cases, ◌≡◌, refl, subst, ◌∙◌, ◌⊎◌, inl, inr,
}
use womprat.Platform.{Platform}
use womprat.Text.Space.{trim_space}
use womprat.Config.{AppConfig, save_config, normalize_config}
use womprat.Server.Defs.{Server, Backend, Request, Response}
use womprat.Server.Http.{is_read, require_get, require_post}
use womprat.Server.Credential.{
  save_credential, verify_master_password, validate_master_password_input,
  validate_tailscale_auth_key_input,
}
use womprat.Server.Node.{start_tailscale, stop_tailscale_retry, exit_node_error}
use womprat.Server.Commit.{commit}
use womprat.Server.Unlock.{
  master_record, handle_auth_status, handle_unlock, handle_save_key, handle_set_unlock_method,
  handle_set_master_password, handle_set_tailscale_key, handle_tailscale_disconnect, connect_saved,
  store_master, set_master,
}
use womprat.Server.Exit.{handle_exit_node, keep_exit_node, restore_exit_node, exit_node_failed}
use womprat.Server.Frame.{
  start_tailscale-app, stop_tailscale_retry-app, schedule_tailscale_retry-app, disconnect-app,
  schedule_exit_node_recovery-app, save_credential-app,
}
use womprat.Server.Outcome.{Settled, Unlocked, posted-value, posted-Settled, commit-Settled}

module _ (p : Platform) (b : Backend) where
  connect_saved-app : (s : Server) → (connect_saved p b s).1.app ≡ s.app
  unfolding connect_saved
  connect_saved-app s = elim (Result-cases (start_tailscale b s).0) [
    | inr (u, q) ↦ rw (connect_saved, q) (start_tailscale-app b s)
    | inl (e, q) ↦
        rw (connect_saved, q)
          (schedule_tailscale_retry-app (start_tailscale b s).1 ∙ start_tailscale-app b s)
  ]

  pub unlock_method-Settled :
      (s : Server) (r : Request Bytes) → Settled p b s.app (handle_set_unlock_method p b r s)
  unfolding handle_set_unlock_method
  unlock_method-Settled s r = posted-Settled p b r _ s λ method.
      elim (Bool-cases (method != codes "master" && method != codes "dpapi")) [
        | inl q ↦ rw q (inl refl)
        | inr q ↦ rw q (commit-Settled p b _ _ s refl)
      ]

  -- A change in a state with the same tabs and settings.
  commit_after :
      (change : AppConfig → AppConfig) (response : Response) (s t : Server)
      → t.app ≡ s.app
      → response.status ≡ 200
      → Settled p b s.app (commit p b change response t)
  commit_after change response s t e good =
      subst (λ a. Settled p b a (commit p b change response t)) e
        (commit-Settled p b change response t good)

  store : (content : Option Bytes) (s : Server) → Settled p b s.app (store_master p b content s)
  unfolding store_master
  store none s = inl refl
  store (some content) s = elim (Option-cases (save_credential b (codes "master-hash") content s)) [
    | inl q ↦ rw (store_master, q) (inl refl)
    | inr (stored, q) ↦
        rw (store_master, q)
          (commit_after _ _ s stored
            (save_credential-app b (codes "master-hash") content s stored q) refl)
  ]

  pub master_password-Settled :
      (s : Server) (r : Request Bytes) → Settled p b s.app (handle_set_master_password p b r s)
  unfolding handle_set_master_password set_master
  master_password-Settled s r = posted-Settled p b r _ s λ password.
      elim (Bool-cases (not (validate_master_password_input password))) [
        | inl q ↦ rw q (inl refl)
        | inr q ↦ rw q (elim (Option-cases (b.random_salt s)) [
          | inl u ↦ rw u (inl refl)
          | inr (salt, u) ↦ rw u (store (b.encode_record (master_record p b password salt)) s)
        ])
      ]

  pub tailscale_key-Settled :
      (s : Server) (r : Request Bytes) → Settled p b s.app (handle_set_tailscale_key p b r s)
  unfolding handle_set_tailscale_key
  tailscale_key-Settled s r = posted-Settled p b r _ s λ raw.
      elim (Bool-cases (not (validate_tailscale_auth_key_input (trim_space raw)))) [
        | inl q ↦ rw q (inl refl)
        | inr q ↦
            rw q
              (elim (Option-cases (save_credential b (codes "tailscale-key") (trim_space raw) s)) [
                | inl u ↦ rw u (inl refl)
                | inr (saved, u) ↦ rw u (
                    inl (
                      connect_saved-app (stop_tailscale_retry saved)
                      ∙ stop_tailscale_retry-app saved
                      ∙ save_credential-app b (codes "tailscale-key") (trim_space raw) s saved u))
              ])
      ]

  pub save_key-Settled :
      (s : Server) (r : Request Bytes) → Settled p b s.app (handle_save_key p b r s)
  unfolding handle_save_key
  save_key-Settled s r = posted-Settled p b r _ s λ raw.
      let stopped : Server = stop_tailscale_retry s in
      elim (Bool-cases (not (validate_tailscale_auth_key_input (trim_space raw)))) [
        | inl q ↦ rw q (inl refl)
        | inr q ↦
            rw q
              (elim (Option-cases
                (save_credential b (codes "tailscale-key") (trim_space raw) stopped)) [
                  | inl u ↦ rw u (inl (stop_tailscale_retry-app s))
                  | inr (saved, u) ↦ rw u (
                      inl (
                        connect_saved-app saved
                        ∙ save_credential-app b (codes "tailscale-key") (trim_space raw) stopped
                            saved u
                        ∙ stop_tailscale_retry-app s))
                ])
      ]

  pub tailscale_disconnect-Settled :
      (s : Server) (method : Bytes) → Settled p b s.app (handle_tailscale_disconnect p b method s)
  unfolding handle_tailscale_disconnect
  tailscale_disconnect-Settled s method = elim (Option-cases (require_post method)) [
    | inr (refused, q) ↦ rw (handle_tailscale_disconnect, q) (inl refl)
    | inl q ↦ rw (handle_tailscale_disconnect, q) (inl (disconnect-app s))
  ]

  pub auth_status-Settled :
      (s : Server) (method : Bytes) → Settled p b s.app (handle_auth_status p b method s)
  unfolding handle_auth_status
  auth_status-Settled s method = elim (Option-cases (require_get method)) [
    | inr (refused, q) ↦ rw (handle_auth_status, q) (inl refl)
    | inl q ↦ rw (handle_auth_status, q) (inl refl)
  ]

  pub unlock-Outcome :
      (s : Server) (r : Request Bytes)
      → (Settled p b s.app (handle_unlock p b r s)) ⊎ (Unlocked p b r s (handle_unlock p b r s))
  unfolding handle_unlock
  unlock-Outcome s r =
      let opened : Server = record s { app = record s.app { locked = false } } in
      posted-value (λ o. Settled p b s.app o ⊎ Unlocked p b r s o) r _ s (λ _. inl (inl refl))
        λ password carried. elim (Bool-cases (verify_master_password b password s)) [
          | inr q ↦ rw q (inl (inl refl))
          | inl q ↦ rw q (elim (Result-cases (start_tailscale b opened).0) [
            | inr (u, w) ↦ rw w (inr ((password, carried, q), refl, start_tailscale-app b opened))
            | inl (e, w) ↦ rw w (
                inr (
                  (password, carried, q),
                  refl,
                  schedule_tailscale_retry-app (start_tailscale b opened).1
                      ∙ start_tailscale-app b opened,
                ))
          ])
        ]

  exit_node_failed-app :
      (message old : Bytes) (s : Server) → (exit_node_failed p b message old s).app ≡ s.app
  unfolding exit_node_failed
  exit_node_failed-app message old s =
      let failed : Server = record s { exit_node_active = false; ts_last_error = message } in
      elim (Bool-cases (old != [])) [
        | inl q ↦ rw q (schedule_exit_node_recovery-app failed)
        | inr q ↦ rw q refl
      ]

  restore_exit_node-app : (old : Bytes) (s : Server) → (restore_exit_node p b old s).1.app ≡ s.app
  unfolding restore_exit_node
  restore_exit_node-app old s = elim (Option-cases (b.apply_exit_node s old)) [
    | inl q ↦ rw (restore_exit_node, q) refl
    | inr (e, q) ↦
        rw (restore_exit_node, q)
          (exit_node_failed-app (codes "route rollback failed: " ++ e) old s)
  ]

  keep : (name : Bytes) (s : Server) → Settled p b s.app (keep_exit_node p b name s)
  unfolding keep_exit_node save_config
  keep name s =
      let next : AppConfig = record s.app.config { exit_node = name } in
      elim (Bool-cases (b.env.writes (normalize_config p b.env.resolves next))) [
        | inl q ↦ rw (keep_exit_node, q) (inr (refl, next, refl))
        | inr q ↦ rw (keep_exit_node, q) (inl (restore_exit_node-app s.app.config.exit_node s))
      ]

  pub exit_node-Settled :
      (s : Server) (r : Request Bytes) → Settled p b s.app (handle_exit_node p b r s)
  unfolding handle_exit_node
  exit_node-Settled s r = elim (Bool-cases (is_read r.method)) [
    | inl q ↦ rw q (inl refl)
    | inr q ↦ rw q (
        posted-Settled p b r _ s λ name. elim (Option-cases (b.apply_exit_node s name)) [
          | inr (e, u) ↦
              rw u (inl (exit_node_failed-app (exit_node_error b name e) s.app.config.exit_node s))
          | inl u ↦ rw u (keep name s)
        ])
  ]

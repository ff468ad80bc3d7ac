-- ===== src/Server/Frame.antt =====
-- About the operations of Server/Node and Server/Credential: the tabs and the settings.
use womprat.Base.{
  Bytes, codes, true, false, some, [], bytes_eq, Option-cases, ◌≡◌, refl, inl, inr, arith,
}
use womprat.Server.Defs.{Server, Backend}
use womprat.Server.Credential.{save_credential, delete_credential, get_credential}
use womprat.Server.Node.{
  set_tailscale_error, stop_exit_node_recovery, schedule_exit_node_recovery,
  schedule_tailscale_retry, stop_tailscale_retry, disconnect, refresh_exit_node_active,
  apply_configured_exit_node, restore_route, bring_up, start_tailscale, usable_key,
}

pub stop_tailscale_retry-app : (s : Server) → (stop_tailscale_retry s).app ≡ s.app
unfolding stop_tailscale_retry stop_exit_node_recovery
stop_tailscale_retry-app s = refl

pub disconnect-app : (s : Server) → (disconnect s).app ≡ s.app
unfolding disconnect stop_tailscale_retry stop_exit_node_recovery
disconnect-app s = refl

pub schedule_tailscale_retry-app : (s : Server) → (schedule_tailscale_retry s).app ≡ s.app
unfolding schedule_tailscale_retry
schedule_tailscale_retry-app s = refl

pub schedule_exit_node_recovery-app : (s : Server) → (schedule_exit_node_recovery s).app ≡ s.app
unfolding schedule_exit_node_recovery
schedule_exit_node_recovery-app s = refl

module _ (b : Backend) where
  refresh-app : (s : Server) → (refresh_exit_node_active b s).1.app ≡ s.app
  unfolding refresh_exit_node_active
  refresh-app s = ground arith

  pub apply_configured-app :
      (x : Bytes) (s : Server) → (apply_configured_exit_node b x s).1.app ≡ s.app
  unfolding apply_configured_exit_node
  apply_configured-app x s = ground arith

  restore_route-app : (s : Server) → (restore_route b s).app ≡ s.app
  unfolding restore_route schedule_exit_node_recovery
  restore_route-app s = ground (arith, refresh-app s, apply_configured-app s.app.config.exit_node s)

  bring_up-app : (key : Bytes) (s : Server) → (bring_up b key s).1.app ≡ s.app
  unfolding bring_up set_tailscale_error
  bring_up-app key s =
      let detached : Server = record s { has_node = false; exit_node_active = false } in
      ground (arith, restore_route-app (record detached { has_node = true; ts_last_error = [] }))

  pub start_tailscale-app : (s : Server) → (start_tailscale b s).1.app ≡ s.app
  unfolding start_tailscale set_tailscale_error stop_exit_node_recovery
  start_tailscale-app s =
      elim (Option-cases
        (usable_key b (get_credential b (codes "tailscale-key") (stop_exit_node_recovery s)))) [
          | inl q ↦ rw (start_tailscale, q) refl
          | inr (key, q) ↦ rw (start_tailscale, q) (bring_up-app key (stop_exit_node_recovery s))
        ]

  pub save_credential-app :
      (name content : Bytes) (s s' : Server)
      → save_credential b name content s ≡ some s'
      → s'.app ≡ s.app
  unfolding save_credential
  save_credential-app name content s s' e = ground arith

  pub delete_credential-app :
      (name : Bytes) (s s' : Server) → delete_credential b name s ≡ some s' → s'.app ≡ s.app
  unfolding delete_credential
  delete_credential-app name s s' e = ground arith

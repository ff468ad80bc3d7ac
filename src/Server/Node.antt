-- ===== src/Server/Node.antt =====
-- The embedded node in main.go and exit_node_recovery.go: started, stopped and retried.
use womprat.Base.{
  Bytes, codes, Bool, true, false, not, ◌||◌, Option, none, some, List, [], ◌∷◌, ◌++◌, ◌==◌, ◌!=◌,
  bytes_eq, if◌then◌else◌, Result, ok, err,
}
use womprat.Server.Defs.{Server, Backend}
use womprat.Server.Credential.{get_credential}

-- errNoTailscaleAuthKey, and an error of the node with its text
pub data NodeError : Type 0 where
  no_auth_key : NodeError
  node_failed : Bytes → NodeError

abbrev pub error_text : NodeError → Bytes
error_text no_auth_key = codes "no tailscale auth key"
error_text (node_failed message) = message

unfoldable pub set_tailscale_error : NodeError → Server → Server
set_tailscale_error e s = record s { ts_last_error = error_text e }

-- `stopExitNodeRecovery` and `scheduleExitNodeRecovery`: whether the goroutine runs
unfoldable pub stop_exit_node_recovery : Server → Server
stop_exit_node_recovery s = record s { recovering = false }

unfoldable pub schedule_exit_node_recovery : Server → Server
schedule_exit_node_recovery s = record s { recovering = true }

unfoldable pub schedule_tailscale_retry : Server → Server
schedule_tailscale_retry s = record s { retrying = true }

unfoldable pub stop_tailscale_retry : Server → Server
unfolding stop_exit_node_recovery
stop_tailscale_retry s = record (stop_exit_node_recovery s) { retrying = false }

-- `shutdown`, and what `handleTailscaleDisconnect` does
unfoldable pub disconnect : Server → Server
disconnect s = record (stop_tailscale_retry s) { has_node = false; exit_node_active = false }

abbrev pub exit_node_error : Backend → Bytes → Bytes → Bytes
exit_node_error b exit_node e = codes "exit node " ++ b.quote exit_node ++ codes ": " ++ e

module _ (b : Backend) where
  unfoldable pub refresh_exit_node_active : Server → Result Bytes (Unit {0}) × Server
  refresh_exit_node_active s = elim (b.exit_node_state s) [
    | err e ↦ (
      err e,
      record s { exit_node_active = false; ts_last_error = codes "routing preferences: " ++ e },
    )
    | ok active ↦ (ok tt, record s { exit_node_active = active; ts_last_error = [] })
  ]

  unfoldable pub apply_configured_exit_node : Bytes → Server → Result Bytes (Unit {0}) × Server
  apply_configured_exit_node exit_node s = elim (b.apply_exit_node s exit_node) [
    | some e ↦ (
      err e,
      record s { exit_node_active = false; ts_last_error = exit_node_error b exit_node e },
    )
    | none ↦ (ok tt, record s { exit_node_active = exit_node != []; ts_last_error = [] })
  ]

  -- the route of a node that is up: the configured one, or the one that it restored itself
  unfoldable pub restore_route : Server → Server
  restore_route s =
      if s.app.config.exit_node == []
      then (refresh_exit_node_active s).1
      else let (r, s') = apply_configured_exit_node s.app.config.exit_node s in
        elim r [ ok _ ↦ s' | err e ↦ schedule_exit_node_recovery s' ]

  -- the replacement of the node, once its key is known
  unfoldable pub bring_up : Bytes → Server → Result NodeError (Unit {0}) × Server
  bring_up key s =
      let detached = record s { has_node = false; exit_node_active = false } in
      elim (b.node_up detached key) [
        | some e ↦ (err (node_failed e), set_tailscale_error (node_failed e) detached)
        | none ↦ (ok tt, restore_route (record detached { has_node = true; ts_last_error = [] }))
      ]

  abbrev pub usable_key : Option Bytes → Option Bytes
  usable_key none = none
  usable_key (some key) = if key == [] then none else some key

  -- `startTailscaleContext`
  unfoldable pub start_tailscale : Server → Result NodeError (Unit {0}) × Server
  start_tailscale before =
      let s = stop_exit_node_recovery before in
      elim (usable_key (get_credential b (codes "tailscale-key") s)) [
        | none ↦ (err no_auth_key, set_tailscale_error no_auth_key s)
        | some key ↦ bring_up key s
      ]

  -- One round of the goroutine of `scheduleTailscaleRetry`.
  pub retry_round : Server → Server
  retry_round s =
      let (r, s') = start_tailscale s in
      elim r [
        | ok _ ↦ record s' { retrying = false }
        | err e ↦ elim e [ no_auth_key ↦ record s' { retrying = false } | node_failed _ ↦ s' ]
      ]

  -- One round of the goroutine of `scheduleExitNodeRecovery`: `free` says that no settings handler
  -- holds the mutex, `cancelled` that the recovery was stopped.
  unfoldable pub recovery_round : Bool → Bool → Server → Server
  recovery_round free cancelled s =
      if not free
      then s
      else if cancelled || s.app.config.exit_node == [] || not s.has_node || s.app.locked
      then record s { recovering = false }
      else let (r, s') = apply_configured_exit_node s.app.config.exit_node s in
        elim r [ ok _ ↦ record s' { recovering = false } | err e ↦ s' ]

-- What a round of the recovery meets.
pub record Round : Type 0 where
  pub backend : Backend
  pub free : Bool
  pub cancelled : Bool

-- the rounds of the goroutine, until one ends it
unfoldable pub recover : List Round → Server → Server
recover [] s = s
recover (r ∷ rounds) s =
    let s' = recovery_round r.backend r.free r.cancelled s in
    let rest = recover rounds s' in if s'.recovering then rest else s'

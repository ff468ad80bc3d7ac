-- ===== src/Server/Exit.antt =====
-- `handleExitNode` of settings_api.go: a route is applied, and then it is kept in the settings.
use womprat.Base.{Bytes, codes, none, some, [], ◌∷◌, ◌++◌, ◌!=◌, bytes_eq, if◌then◌else◌, false}
use womprat.Platform.{Platform}
use womprat.Config.{save_config}
use womprat.Server.Defs.{Server, Backend, Request, Response, failure, success}
use womprat.Server.Http.{is_read}
use womprat.Server.Node.{exit_node_error, schedule_exit_node_recovery}
use womprat.Server.Commit.{internal_error, posted}

module _ (p : Platform) (b : Backend) where
  -- the failure of an application: the old route, if there was one, is retried
  unfoldable pub exit_node_failed : Bytes → Bytes → Server → Server
  exit_node_failed message old s =
      let failed = record s { exit_node_active = false; ts_last_error = message } in
      if old != [] then schedule_exit_node_recovery failed else failed

  -- the settings could not be saved: the old route is applied again
  unfoldable pub restore_exit_node : Bytes → Server → Response × Server
  restore_exit_node old s = elim (b.apply_exit_node s old) [
    | none ↦ (internal_error, s)
    | some e ↦ (
      failure 500 (codes "save failed; route rollback failed"),
      exit_node_failed (codes "route rollback failed: " ++ e) old s,
    )
  ]

  -- the settings behind a route that was applied
  unfoldable pub keep_exit_node : Bytes → Server → Response × Server
  keep_exit_node name s =
      elim (save_config p b.env.resolves b.env.writes (record s.app.config { exit_node = name })) [
        | none ↦ restore_exit_node s.app.config.exit_node s
        | some written ↦ (
          success ((codes "status", codes "ok") ∷ (codes "exitNode", name) ∷ []),
          record s {
            app = record s.app {
              config = record s.app.config { exit_node = name };
              file = some written;
            };
            exit_node_active = name != [];
            ts_last_error = [];
          },
        )
      ]

  unfoldable pub handle_exit_node : Request Bytes → Server → Response × Server
  handle_exit_node r s =
      if is_read r.method
      then (success ((codes "exitNode", s.app.config.exit_node) ∷ []), s)
      else posted r
          (λ name s'. elim (b.apply_exit_node s' name) [
            | some e ↦ (
              internal_error,
              exit_node_failed (exit_node_error b name e) s'.app.config.exit_node s',
            )
            | none ↦ keep_exit_node name s'
          ])
          s

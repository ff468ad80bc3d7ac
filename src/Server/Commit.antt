-- ===== src/Server/Commit.antt =====
-- How the handlers of settings_api.go end: a POST with a body that decodes, and a change of the
-- settings that is saved first. The texts of errors of other packages are not modelled.
use womprat.Base.{codes, none, some, ok, err}
use womprat.Platform.{Platform}
use womprat.Config.{AppConfig, save_config}
use womprat.Server.Defs.{Server, Backend, Request, Response, failure}
use womprat.Server.Http.{require_post, decode_settings_json}

abbrev pub internal_error : Response
internal_error = failure 500 (codes "internal error")

-- a POST request with a body that decodes
unfoldable pub posted :
    {B : Type 0} → Request B → (B → Server → Response × Server) → Server → Response × Server
posted r handle s = elim (require_post r.method) [
  | some refused ↦ (refused, s)
  | none ↦ elim (decode_settings_json r) [ err refused ↦ (refused, s) | ok body ↦ handle body s ]
]

module _ (p : Platform) (b : Backend) where
  -- The end of the handlers that change the settings: a changed copy is saved, and only then the
  -- settings in memory change. `SaveConfig` normalizes the copy, from which some handlers take the
  -- new fields and the response.
  unfoldable pub commit_written :
      (AppConfig → AppConfig)
      → (AppConfig → AppConfig → AppConfig)
      → (AppConfig → Response)
      → Server
      → Response × Server
  commit_written change keep respond s =
      elim (save_config p b.env.resolves b.env.writes (change s.app.config)) [
        | none ↦ (internal_error, s)
        | some written ↦ (
          respond written,
          record s {
            app = record s.app { config = keep written s.app.config; file = some written };
          },
        )
      ]

  unfoldable pub commit : (AppConfig → AppConfig) → Response → Server → Response × Server
  unfolding commit_written
  commit change response s = commit_written change (λ _. change) (λ _. response) s

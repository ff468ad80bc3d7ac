-- ===== src/Server/Unlock.antt =====
-- The handlers of settings_api.go, auth.go and main.go for the master password, the lock and the key
-- of the embedded node.
use womprat.Base.{
  Bytes, codes, ℤ, Bool, true, false, not, ◌&&◌, Option, none, some, [], ◌∷◌, ◌!=◌, bytes_eq,
  if◌then◌else◌, ok, err,
}
use womprat.Platform.{Platform}
use womprat.Text.Space.{trim_space}
use womprat.Server.Defs.{
  Server, Backend, Request, Response, MasterHashRecord, status_ok, failure, success,
}
use womprat.Server.Http.{require_get, require_post}
use womprat.Server.Credential.{
  save_credential, verify_master_password, validate_master_password_input,
  validate_tailscale_auth_key_input, get_credential,
}
use womprat.Server.Node.{
  start_tailscale, schedule_tailscale_retry, stop_tailscale_retry, disconnect, error_text,
}
use womprat.Server.Commit.{internal_error, posted, commit}

abbrev pub yes_no : Bool → Bytes
yes_no true = codes "true"
yes_no false = codes "false"

abbrev has_value : Option Bytes → Bool
has_value none = false
has_value (some _) = true

module _ (p : Platform) (b : Backend) where
  unfoldable pub handle_set_unlock_method : Request Bytes → Server → Response × Server
  handle_set_unlock_method r = posted r λ method s.
      if method != codes "master" && method != codes "dpapi"
      then (failure 400 (codes "unsupported unlock method"), s)
      else commit p b (λ cfg. record cfg { unlock_method = method }) status_ok s

  abbrev pub master_record : Bytes → Bytes → MasterHashRecord
  master_record password salt = record {
    kdf = codes "pbkdf2-sha256";
    iterations = ℤ.pos 310000;
    salt = b.encode_base64 salt;
    hash = b.encode_base64 (b.derive password salt (ℤ.pos 310000) 32);
  }

  -- the credential is stored, and then the settings ask for it
  unfoldable pub store_master : Option Bytes → Server → Response × Server
  store_master none s = (internal_error, s)
  store_master (some content) s = elim (save_credential b (codes "master-hash") content s) [
    | none ↦ (internal_error, s)
    | some stored ↦
        commit p b (λ cfg. record cfg { unlock_method = codes "master" })
          (success ((codes "status", codes "ok") ∷ (codes "kdf", codes "pbkdf2-sha256") ∷ []))
          stored
  ]

  unfoldable pub set_master : Bytes → Server → Response × Server
  set_master password s =
      if not (validate_master_password_input password)
      then (failure 400 (codes "invalid password"), s)
      else elim (b.random_salt s) [
        | none ↦ (internal_error, s)
        | some salt ↦ store_master (b.encode_record (master_record password salt)) s
      ]

  unfoldable pub handle_set_master_password : Request Bytes → Server → Response × Server
  handle_set_master_password r = posted r set_master

  -- the answer of the handlers that start the node with a new key
  unfoldable pub connect_saved : Server → Response × Server
  connect_saved s =
      let (r, s') = start_tailscale b s in
      elim r [
        | ok _ ↦ (success ((codes "status", codes "connected") ∷ []), s')
        | err e ↦ (
          success ((codes "status", codes "saved") ∷ (codes "error", error_text e) ∷ []),
          schedule_tailscale_retry s',
        )
      ]

  unfoldable pub handle_set_tailscale_key : Request Bytes → Server → Response × Server
  handle_set_tailscale_key r = posted r λ raw s.
      let key = trim_space raw in
      if not (validate_tailscale_auth_key_input key)
      then (failure 400 (codes "invalid tailscale key"), s)
      else elim (save_credential b (codes "tailscale-key") key s) [
        | none ↦ (internal_error, s)
        | some saved ↦ connect_saved (stop_tailscale_retry saved)
      ]

  -- `handleSaveKey` of main.go stops the retry before it saves.
  unfoldable pub handle_save_key : Request Bytes → Server → Response × Server
  handle_save_key r = posted r λ raw s.
      let key = trim_space raw in
      if not (validate_tailscale_auth_key_input key)
      then (failure 400 (codes "invalid tailscale key"), s)
      else let stopped = stop_tailscale_retry s in
        elim (save_credential b (codes "tailscale-key") key stopped) [
          | none ↦ (internal_error, stopped)
          | some saved ↦ connect_saved saved
        ]

  unfoldable pub handle_tailscale_disconnect : Bytes → Server → Response × Server
  handle_tailscale_disconnect method s = elim (require_post method) [
    | some refused ↦ (refused, s)
    | none ↦ (success ((codes "status", codes "disconnected") ∷ []), disconnect s)
  ]

  unfoldable pub handle_unlock : Request Bytes → Server → Response × Server
  handle_unlock r = posted r λ password s.
      if not (verify_master_password b password s)
      then (failure 401 (codes "Unlock failed"), s)
      else let (result, s') =
          start_tailscale b (record s { app = record s.app { locked = false } }) in
        elim result [
          | ok _ ↦ (success ((codes "status", codes "unlocked") ∷ []), s')
          | err e ↦ (
            success ((codes "status", codes "unlocked") ∷ (codes "tailscale", error_text e) ∷ []),
            schedule_tailscale_retry s',
          )
        ]

  unfoldable pub handle_auth_status : Bytes → Server → Response × Server
  handle_auth_status method s = elim (require_get method) [
    | some refused ↦ (refused, s)
    | none ↦ (
      success (
          (codes "hasKey", yes_no (has_value (get_credential b (codes "tailscale-key") s)))
          ∷ (codes "connected", yes_no s.has_node)
          ∷ (codes "locked", yes_no s.app.locked)
          ∷ (codes "unlockMethod", s.app.config.unlock_method)
          ∷ []),
      s,
    )
  ]

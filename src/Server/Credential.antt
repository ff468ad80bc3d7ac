-- ===== src/Server/Credential.antt =====
-- The credentials of config.go, and auth.go: the master password and the Tailscale key.
use womprat.Base.{
  Bytes, codes, pos, Bool, true, false, not, ◌&&◌, ◌||◌, Option, none, some, [], ◌∷◌, ◌==◌, ◌!=◌,
  nat_eq, bytes_eq, ltb, ltb_ℤ, length, if◌then◌else◌, lookup, insert, delete,
}
use womprat.Text.Search.{contains_any}
use womprat.Config.{AppConfig, validate_credential_name}
use womprat.Server.Defs.{Server, Backend, MasterHashRecord}

module _ (b : Backend) where
  -- `SaveCredential`: the next state, unless it fails
  unfoldable pub save_credential : Bytes → Bytes → Server → Option Server
  save_credential name content s =
      if not (validate_credential_name name)
      then none
      else if b.writes_credential s name content
      then some (record s { credentials = insert name content s.credentials })
      else none

  unfoldable pub get_credential : Bytes → Server → Option Bytes
  get_credential name s =
      if not (validate_credential_name name)
      then none
      else if b.reads_credential s name
      then lookup name s.credentials
      else none

  -- `DeleteCredential`: a credential that is not there is no error.
  unfoldable pub delete_credential : Bytes → Server → Option Server
  delete_credential name s =
      if not (validate_credential_name name)
      then none
      else if b.removes_credential s name
      then some (record s { credentials = delete name s.credentials })
      else none

  pub should_start_locked : AppConfig → Server → Bool
  should_start_locked cfg s =
      if cfg.unlock_method != codes "master"
      then false
      else elim (get_credential (codes "master-hash") s) [ none ↦ false | some _ ↦ true ]

  -- the comparison with the derived hash, where the stored salt and hash have their sizes
  unfoldable pub compare_hash : Bytes → MasterHashRecord → Bytes → Bytes → Bool
  compare_hash password rec salt expected =
      length salt == 16
      && length expected == 32
      && b.derive password salt rec.iterations (length expected) == expected

  unfoldable pub verify_record : Bytes → MasterHashRecord → Bool
  verify_record password rec =
      if rec.kdf != codes "pbkdf2-sha256"
        || ltb_ℤ rec.iterations (pos 100000)
        || ltb_ℤ (pos 1000000) rec.iterations
      then false
      else elim (b.decode_base64 rec.salt) [
        | none ↦ false
        | some salt ↦ elim (b.decode_base64 rec.hash) [
          | none ↦ false
          | some expected ↦ compare_hash password rec salt expected
        ]
      ]

  -- `verifyMasterPassword`, as its caller reads it: an error and a wrong password are `false`
  unfoldable pub verify_master_password : Bytes → Server → Bool
  verify_master_password password s =
      if password == [] then false else elim (get_credential (codes "master-hash") s) [
        | none ↦ false
        | some stored ↦ elim (b.decode_record stored) [
          | none ↦ false
          | some rec ↦ verify_record password rec
        ]
      ]

unfoldable pub validate_master_password_input : Bytes → Bool
validate_master_password_input password = not (password == [] || ltb 4096 (length password))

pub validate_tailscale_auth_key_input : Bytes → Bool
validate_tailscale_auth_key_input key =
    not (key == [] || ltb 4096 (length key) || contains_any key (13 ∷ 10 ∷ 0 ∷ []))

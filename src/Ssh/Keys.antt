-- ===== src/Ssh/Keys.antt =====
-- `getSSHAuthMethods` of ws_terminal.go and `hostKeyCallback` of main.go. A public key is its wire
-- format; of a private key the fingerprint of its public part is read.
use womprat.Base.{
  Bytes, codes, Bool, ◌&&◌, ◌||◌, Option, none, some, List, [], ◌∷◌, ◌++◌, ◌==◌, ◌!=◌, bytes_eq,
  any, if◌then◌else◌, Result, ok, err, insert,
}
use womprat.Platform.{Platform}
use womprat.Config.{save_config, safe_ssh_key_name}
use womprat.Server.{Server, Backend, get_credential, host_of}

-- golang.org/x/crypto/ssh: MarshalAuthorizedKey, FingerprintSHA256, ParseAuthorizedKey, and
-- ParsePrivateKey with the fingerprint of the key.
pub record KeyFormat : Type 0 where
  pub authorized : Bytes → Bytes
  pub fingerprint : Bytes → Bytes
  pub parse_authorized : Bytes → Option Bytes
  pub signer : Bytes → Option Bytes

pub data HostKeyError : Type 0 where
  not_saved invalid_stored mismatch : HostKeyError

module _ (p : Platform) (b : Backend) (f : KeyFormat) where
  -- the key is remembered, and then it is good
  unfoldable pub trust_key : Bytes → Bytes → Server → Result HostKeyError (Unit {0}) × Server
  trust_key host key s =
      let conf = record (host_of host s.app.config) {
        host_key = f.authorized key;
        host_key_fingerprint = f.fingerprint key;
      } in
      let cfg = record s.app.config { hosts = insert host conf s.app.config.hosts } in
      elim (save_config p b.env.resolves b.env.writes cfg) [
        | none ↦ (err not_saved, s)
        | some written ↦
            (ok tt, record s { app = record s.app { config = cfg; file = some written } })
      ]

  unfoldable pub compare_key : Bytes → Bytes → Result HostKeyError (Unit {0})
  compare_key stored key = elim (f.parse_authorized stored) [
    | none ↦ err invalid_stored
    | some stored_key ↦ if stored_key != key then err mismatch else ok tt
  ]

  -- `hostKeyCallback`
  unfoldable pub host_key_callback :
      Bytes → Bytes → Server → Result HostKeyError (Unit {0}) × Server
  host_key_callback host key s =
      let stored = (host_of host s.app.config).host_key in
      if stored == [] then trust_key host key s else (compare_key stored key, s)

  -- `addSigner`: the fingerprints of the signers, in the order in which they are tried
  pub add_signer : Server → Bytes → List Bytes → List Bytes
  add_signer s raw signers = elim (safe_ssh_key_name raw) [
    | none ↦ signers
    | some name ↦ elim (get_credential b (codes "ssh-key/" ++ name) s) [
      | none ↦ signers
      | some key_data ↦ elim (f.signer key_data) [
        | none ↦ signers
        | some fingerprint ↦
            if any (λ seen. seen == fingerprint) signers
            then signers
            else signers ++ (fingerprint ∷ [])
      ]
    ]
  ]

  pub add_stored : Server → Bytes → List (Bytes × Bool) → List Bytes → List Bytes
  add_stored s key_name [] signers = signers
  add_stored s key_name ((name, is_dir) ∷ entries) signers =
      if is_dir || key_name != [] && name == key_name
      then add_stored s key_name entries signers
      else add_stored s key_name entries (add_signer s name signers)

  abbrev files_or_none : Option (List (Bytes × Bool)) → List (Bytes × Bool)
  files_or_none none = []
  files_or_none (some entries) = entries

  -- `getSSHAuthMethods`
  pub get_ssh_auth_methods : Bytes → Server → List Bytes
  get_ssh_auth_methods host s =
      let key_name = (host_of host s.app.config).key_name in
      let first = if key_name != [] then add_signer s key_name [] else [] in
      add_stored s key_name (files_or_none (b.key_files s)) first

-- ===== src/Server/Keys.antt =====
-- The SSH keys of settings_api.go: listed, imported, generated and deleted.
use womprat.Base.{
  Bytes, codes, Bool, Option, not, ◌&&◌, ◌||◌, none, some, List, [], ◌∷◌, ◌++◌, ◌==◌, bytes_eq, ltb,
  length, if◌then◌else◌, ok, err, nat_eqb, true, false,
}
use womprat.Text.Space.{trim_space}
use womprat.Config.{HostConfig, safe_ssh_key_name}
use womprat.Server.Defs.{
  Server, Backend, Request, Response, SshKeyEntry, status_ok, failure, success, keys_reply,
}
use womprat.Server.Http.{is_read, decode_settings_json, resource_name_from_path}
use womprat.Server.Credential.{save_credential, get_credential, delete_credential}
use womprat.Server.Commit.{posted, internal_error}

abbrev lt_bytes : Bytes → Bytes → Bool
lt_bytes _ [] = false
lt_bytes [] (_ ∷ _) = true
lt_bytes (x ∷ xs) (y ∷ ys) = ltb x y || nat_eqb x y && lt_bytes xs ys

-- sort.Strings, and sort.Slice by name
pub insert_sorted {ℓ} : {A : Type ℓ} → (A → Bytes) → A → List A → List A
insert_sorted name a [] = a ∷ []
insert_sorted name a (x ∷ xs) =
    let rest = insert_sorted name a xs in
    if lt_bytes (name x) (name a) then x ∷ rest else a ∷ x ∷ xs

pub sort_by {ℓ} : {A : Type ℓ} → (A → Bytes) → List A → List A
sort_by name [] = []
sort_by name (x ∷ xs) = insert_sorted name x (sort_by name xs)

pub hosts_with_key : Bytes → List (Bytes × HostConfig) → List Bytes
hosts_with_key name [] = []
hosts_with_key name ((host, conf) ∷ hosts) =
    let rest = hosts_with_key name hosts in if conf.key_name == name then host ∷ rest else rest

module _ (b : Backend) where
  abbrev pub key_credential : Bytes → Bytes
  key_credential name = codes "ssh-key/" ++ name

  -- `fingerprintFromPEM`: a dash where the key does not parse
  pub fingerprint_from_pem : Bytes → Bytes
  fingerprint_from_pem data_pem = elim (b.key_fingerprint data_pem) [
    | none ↦ 0xe2 ∷ 0x80 ∷ 0x94 ∷ []
    | some fingerprint ↦ fingerprint
  ]

  -- the loop of `listSSHKeys` over the directory
  pub key_entries : Server → List (Bytes × Bool) → List SshKeyEntry
  key_entries s [] = []
  key_entries s ((name, is_dir) ∷ files) =
      let rest = key_entries s files in
      if is_dir then rest else elim (get_credential b (key_credential name) s) [
        | none ↦ rest
        | some data_pem ↦
            record {
              name = name;
              fingerprint = fingerprint_from_pem data_pem;
              hosts = sort_by (λ host. host) (hosts_with_key name s.app.config.hosts);
            }
            ∷ rest
      ]

  pub list_ssh_keys : Server → List SshKeyEntry
  list_ssh_keys s = elim (b.key_files s) [
    | none ↦ []
    | some files ↦ sort_by (λ entry. entry.name) (key_entries s files)
  ]

  -- `importSSHKey`: the next state, unless it fails
  unfoldable pub import_ssh_key : Bytes → Bytes → Server → Option Server
  import_ssh_key raw_name raw_content s =
      let content = trim_space raw_content in
      elim (safe_ssh_key_name raw_name) [
        | none ↦ none
        | some name ↦
            if content == [] || ltb 65536 (length content) || not (b.parses_key content)
            then none
            else save_credential b (key_credential name) content s
      ]

  unfoldable pub delete_ssh_key : Bytes → Server → Response × Server
  delete_ssh_key path s = elim (resource_name_from_path path (codes "/api/settings/ssh-keys/")) [
    | none ↦ (failure 400 (codes "missing resource name"), s)
    | some part ↦ elim (safe_ssh_key_name part) [
      | none ↦ (failure 400 (codes "invalid SSH key name"), s)
      | some name ↦ elim (delete_credential b (key_credential name) s) [
        | none ↦ (internal_error, s)
        | some s' ↦ (success ((codes "status", codes "deleted") ∷ []), s')
      ]
    ]
  ]

  unfoldable pub handle_ssh_keys : Request (Bytes × Bytes) → Server → Response × Server
  handle_ssh_keys r s =
      if is_read r.method
      then (record { status = 200; payload = keys_reply (list_ssh_keys s) }, s)
      else if r.method == codes "POST"
      then elim (decode_settings_json r) [
        | err refused ↦ (refused, s)
        | ok body ↦ elim (import_ssh_key body.0 body.1 s) [
          | none ↦ (failure 400 (codes "invalid SSH key"), s)
          | some s' ↦ (status_ok, s')
        ]
      ]
      else if r.method == codes "DELETE"
      then delete_ssh_key r.path s
      else (failure 405 (codes "method not allowed"), s)

  -- the private key is stored, its fingerprint and the public key are told
  unfoldable pub store_key : Bytes → Bytes × (Bytes × Bytes) → Server → Response × Server
  store_key name (private_pem, (fingerprint, public_key)) s =
      elim (save_credential b (key_credential name) private_pem s) [
        | none ↦ (internal_error, s)
        | some s' ↦ (
          success (
              (codes "status", codes "ok")
              ∷ (codes "name", name)
              ∷ (codes "fingerprint", fingerprint)
              ∷ (codes "publicKey", public_key)
              ∷ []),
          s',
        )
      ]

  unfoldable pub handle_generate_ssh_key : Request Bytes → Server → Response × Server
  handle_generate_ssh_key r = posted r λ raw s. elim (safe_ssh_key_name raw) [
    | none ↦ (failure 400 (codes "invalid SSH key name"), s)
    | some name ↦ elim (b.generate_key s name) [
      | none ↦ (internal_error, s)
      | some key ↦ store_key name key s
    ]
  ]

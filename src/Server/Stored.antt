-- ===== src/Server/Stored.antt =====
-- What the handlers of the hosts and of the SSH keys may do to the tabs and the settings.
use womprat.Base.{
  Bytes, codes, some, ◌==◌, bytes_eq, Bool-cases, Option-cases, Result-cases, ◌≡◌, refl, inl, inr,
  arith,
}
use womprat.Platform.{Platform}
use womprat.Config.{safe_ssh_key_name}
use womprat.Server.Defs.{Server, Backend, Request}
use womprat.Server.Http.{is_read, require_get, decode_settings_json}
use womprat.Server.Credential.{save_credential, delete_credential}
use womprat.Server.Settings.{handle_get_config}
use womprat.Server.Hosts.{HostPatch, handle_hosts, patch_hosts, patch_host, host_of, host_from_path}
use womprat.Server.Keys.{
  handle_ssh_keys, handle_generate_ssh_key, import_ssh_key, delete_ssh_key, store_key,
  key_credential,
}
use womprat.Server.Frame.{save_credential-app}
use womprat.Server.Outcome.{Settled, posted-Settled, commit-Settled}

module _ (p : Platform) (b : Backend) (s : Server) where
  pub get_config-Settled : (method : Bytes) → Settled p b s.app (handle_get_config p b method s)
  unfolding handle_get_config
  get_config-Settled method = elim (Option-cases (require_get method)) [
    | inr (refused, q) ↦ rw (handle_get_config, q) (inl refl)
    | inl q ↦ rw (handle_get_config, q) (inl refl)
  ]

  patched : (r : Request HostPatch) (host : Bytes) → Settled p b s.app (patch_hosts p b r host s)
  unfolding patch_hosts
  patched r host = elim (Result-cases (decode_settings_json r)) [
    | inl (refused, q) ↦ rw (patch_hosts, q) (inl refl)
    | inr (patch, q) ↦
        rw (patch_hosts, q)
          (elim (Result-cases (patch_host p b patch (host_of host s.app.config))) [
            | inl (refused, u) ↦ rw u (inl refl)
            | inr (conf, u) ↦ rw u (commit-Settled p b _ _ s refl)
          ])
  ]

  pub hosts-Settled : (r : Request HostPatch) → Settled p b s.app (handle_hosts p b r s)
  unfolding handle_hosts
  hosts-Settled r = elim (Bool-cases (is_read r.method)) [
    | inl q ↦ rw q (inl refl)
    | inr q ↦ elim (Bool-cases (r.method == codes "PATCH")) [
      | inl u ↦ elim (Option-cases (host_from_path p b r.path)) [
        | inl w ↦ rw (q, u, w) (inl refl)
        | inr (host, w) ↦ rw (q, u, w) (patched r host)
      ]
      | inr u ↦ elim (Bool-cases (r.method == codes "DELETE")) [
        | inr v ↦ rw (q, u, v) (inl refl)
        | inl v ↦ elim (Option-cases (host_from_path p b r.path)) [
          | inl w ↦ rw (q, u, v, w) (inl refl)
          | inr (host, w) ↦ rw (q, u, v, w) (commit-Settled p b _ _ s refl)
        ]
      ]
    ]
  ]

  import-app :
      (name content : Bytes) (s' : Server)
      → import_ssh_key b name content s ≡ some s'
      → s'.app ≡ s.app
  unfolding import_ssh_key save_credential
  import-app name content s' e = ground arith

  delete_ssh_key-app : (path : Bytes) → (delete_ssh_key b path s).1.app ≡ s.app
  unfolding delete_ssh_key delete_credential
  delete_ssh_key-app path = ground arith

  pub ssh_keys-app : (r : Request (Bytes × Bytes)) → (handle_ssh_keys b r s).1.app ≡ s.app
  unfolding handle_ssh_keys
  ssh_keys-app r = elim (Result-cases (decode_settings_json r)) [
    | inl (refused, q) ↦ ground (arith, q, delete_ssh_key-app r.path)
    | inr (body, q) ↦ elim (Option-cases (import_ssh_key b body.0 body.1 s)) [
      | inl u ↦ ground (arith, q, u, delete_ssh_key-app r.path)
      | inr (s', u) ↦ ground (arith, q, u, import-app body.0 body.1 s' u, delete_ssh_key-app r.path)
    ]
  ]

  store_key-app :
      (name : Bytes) (key : Bytes × (Bytes × Bytes)) → (store_key b name key s).1.app ≡ s.app
  unfolding store_key
  store_key-app name (pem, (fingerprint, public_key)) =
      elim (Option-cases (save_credential b (key_credential b name) pem s)) [
        | inl q ↦ rw (store_key, q) refl
        | inr (s', q) ↦ rw (store_key, q) (save_credential-app b (key_credential b name) pem s s' q)
      ]

  pub generate_key-Settled : (r : Request Bytes) → Settled p b s.app (handle_generate_ssh_key b r s)
  unfolding handle_generate_ssh_key
  generate_key-Settled r = posted-Settled p b r _ s λ raw.
      inl (elim (Option-cases (safe_ssh_key_name raw)) [
        | inl q ↦ rw q refl
        | inr (name, q) ↦ rw q (elim (Option-cases (b.generate_key s name)) [
          | inl u ↦ rw u refl
          | inr (key, u) ↦ rw u (store_key-app name key)
        ])
      ])

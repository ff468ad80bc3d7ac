-- ===== src/Server/Password.antt =====
-- About `handleSetMasterPassword` of settings_api.go and `verifyMasterPassword` of auth.go.
use womprat.Base.{
  Bytes, codes, pos, true, not, ◌&&◌, Option, none, some, [], ◌==◌, ◌!=◌, bytes_eq, nat_eq, eqb,
  eqb_refl, Bool-cases, Option-cases, ◌≡◌, refl, sym, ap, subst, ◌∙◌, inl, inr, arith, length,
  lookup, insert, lookup-insert,
}
use womprat.Platform.{Platform}
use womprat.Config.{AppConfig, validate_credential_name}
use womprat.Server.Defs.{Server, Backend, Request, json_value, Response, MasterHashRecord}
use womprat.Server.Http.{require_post, decode_settings_json, decode_settings_json_internal}
use womprat.Server.Credential.{
  save_credential, get_credential, compare_hash, verify_record, verify_master_password,
  validate_master_password_input,
}
use womprat.Server.Commit.{posted, commit, commit_written}
use womprat.Server.Unlock.{handle_set_master_password, set_master, store_master, master_record}

-- What the libraries do: base64 and JSON are read back, a key has the length that is asked for.
pub record ReadsBack (b : Backend) : Type 0 where
  pub base64 : (x : Bytes) → b.decode_base64 (b.encode_base64 x) ≡ some x
  pub json :
      (m : MasterHashRecord) (x : Bytes) → b.encode_record m ≡ some x → b.decode_record x ≡ some m
  pub derived : (password salt : Bytes) → length (b.derive password salt (pos 310000) 32) ≡ 32

module _ (p : Platform) (b : Backend) (reads : ReadsBack b) where
  verify_record-master_record :
      (password other salt : Bytes)
      → length salt ≡ 16
      → verify_record b other (master_record p b password salt)
        ≡ (b.derive other salt (pos 310000) 32 == b.derive password salt (pos 310000) 32)
  unfolding verify_record compare_hash eqb
  verify_record-master_record password other salt sized =
      rw
        (
          reads.base64 salt,
          reads.base64 (b.derive password salt (pos 310000) 32),
          sized,
          reads.derived password salt,
        )
        refl

  credentials-save :
      (name content : Bytes) (s s' : Server)
      → save_credential b name content s ≡ some s'
      → (validate_credential_name name ≡ true)
        × (s'.credentials ≡ insert name content s.credentials)
  unfolding save_credential
  credentials-save name content s s' e = ground arith

  get-save :
      (name content : Bytes) (s s' t : Server)
      → save_credential b name content s ≡ some s'
      → t.credentials ≡ s'.credentials
      → b.reads_credential t name ≡ true
      → get_credential b name t ≡ some content
  unfolding get_credential
  get-save name content s s' t e same readable =
      let h = credentials-save name content s s' e in
      rw (get_credential, h.0, readable)
        (ap (lookup name) (same ∙ h.1)
          ∙ lookup-insert name name content s.credentials
          ∙ rw (eqb_refl name) refl)

  credentials-commit :
      (change : AppConfig → AppConfig) (response : Response) (s : Server)
      → (commit p b change response s).1.credentials ≡ s.credentials
  unfolding commit commit_written
  credentials-commit change response s = ground arith

  verify-stored :
      (s : Server) (password other salt stored : Bytes)
      → length salt ≡ 16
      → b.encode_record (master_record p b password salt) ≡ some stored
      → get_credential b (codes "master-hash") s ≡ some stored
      → verify_master_password b other s ≡ (
          other != []
          && (b.derive other salt (pos 310000) 32 == b.derive password salt (pos 310000) 32))
  unfolding verify_master_password
  verify-stored s password other salt stored sized encoded got = elim (Bool-cases (other == [])) [
    | inl q ↦ rw (verify_master_password, q) refl
    | inr q ↦
        rw
          (
            verify_master_password,
            q,
            got,
            reads.json (master_record p b password salt) stored encoded,
          )
          (verify_record-master_record password other salt sized)
  ]

  -- What a stored password leaves: a stored record behind an answer of success.
  store-success :
      (content : Option Bytes) (s : Server)
      → (store_master p b content s).0.status ≡ 200
      → b.reads_credential (store_master p b content s).1 (codes "master-hash") ≡ true
      → (x : Bytes) × (content ≡ some x)
        × (get_credential b (codes "master-hash") (store_master p b content s).1 ≡ some x)
  unfolding store_master
  store-success none s good readable = ground (arith, good)
  store-success (some x) s good readable =
      elim (Option-cases (save_credential b (codes "master-hash") x s)) [
        | inl q ↦ ground (arith, good, q)
        | inr (stored, q) ↦ (
          x,
          refl,
          get-save (codes "master-hash") x s stored (store_master p b (some x) s).1 q
              (rw (store_master, q) (credentials-commit _ _ stored)) readable,
        )
      ]

  posted-success :
      {B : Type 0} (r : Request B) (body : B) (h : B → Server → Response × Server) (s : Server)
      → r.body ≡ json_value body
      → (posted r h s).0.status ≡ 200
      → posted r h s ≡ h body s
  unfolding posted decode_settings_json decode_settings_json_internal require_post
  posted-success r body h s e good = elim (Bool-cases (r.method == codes "POST")) [
    | inr q ↦ ground (arith, good, q)
    | inl q ↦ elim (Bool-cases r.ends) [
      | inl u ↦ rw (posted, q, e, u) refl
      | inr u ↦ ground (arith, rw (posted, q, e, u) at good)
    ]
  ]

  -- The salt of the stored record, with which the state accepts passwords.
  abbrev pub Accepts : Bytes → Server → Response × Server → Type 0
  Accepts password s o =
      (salt : Bytes) × (b.random_salt s ≡ some salt)
      × ((other : Bytes)
          → verify_master_password b other o.1 ≡ (
              other != []
              && (b.derive other salt (pos 310000) 32 == b.derive password salt (pos 310000) 32)))

  set_master-Accepts :
      (password : Bytes) (s : Server)
      → (set_master p b password s).0.status ≡ 200
      → b.reads_credential (set_master p b password s).1 (codes "master-hash") ≡ true
      → ((salt : Bytes) → b.random_salt s ≡ some salt → length salt ≡ 16)
      → Accepts password s (set_master p b password s)
  unfolding set_master
  set_master-Accepts password s good readable sized =
      elim (Bool-cases (not (validate_master_password_input password))) [
        | inl q ↦ ground (arith, rw (set_master, q) at good)
        | inr q ↦ elim (Option-cases (b.random_salt s)) [
          | inl u ↦ ground (arith, rw (set_master, q, u) at good)
          | inr (salt, u) ↦
              let content : Option Bytes = b.encode_record (master_record p b password salt) in
              let h =
                store-success content s (rw (set_master, q, u) at good)
                  (rw (set_master, q, u) at readable) in
              rw (set_master, q, u)
                (
                  salt,
                  refl,
                  λ other.
                      verify-stored (store_master p b content s).1 password other salt h.0
                        (sized salt u) h.1 h.2,
                )
        ]
      ]

  -- A master password that was set is the one that unlocks: behind an answer of success, a password
  -- is accepted where it is not empty and derives the same key from the stored salt. The credential
  -- can be read again, salts have 16 bytes, and base64, JSON and keys are read back as written.
  pub handle_set_master_password-Accepts :
      (r : Request Bytes) (password : Bytes) (s : Server)
      → r.body ≡ json_value password
      → (handle_set_master_password p b r s).0.status ≡ 200
      → b.reads_credential (handle_set_master_password p b r s).1 (codes "master-hash") ≡ true
      → ((salt : Bytes) → b.random_salt s ≡ some salt → length salt ≡ 16)
      → Accepts password s (handle_set_master_password p b r s)
  unfolding handle_set_master_password
  handle_set_master_password-Accepts r password s e good readable sized =
      let opened : handle_set_master_password p b r s ≡ set_master p b password s =
        posted-success r password (set_master p b) s e good in
      subst (Accepts password s) (sym opened) (
        set_master-Accepts password s (subst (λ o. o.0.status ≡ 200) opened good)
          (subst (λ o. b.reads_credential o.1 (codes "master-hash") ≡ true) opened readable) sized)

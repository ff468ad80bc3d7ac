-- ===== src/Server/Outcome.antt =====
-- What a handler may do to the tabs and the settings, and how a change of the settings is saved.
use womprat.Base.{
  Bytes, true, false, some, Bool-cases, Option-cases, Result-cases, Result, ◌≡◌, refl, ok, arith,
  ◌∙◌, sym, ap, ◌⊎◌, inl, inr,
}
use womprat.Platform.{Platform}
use womprat.Config.{AppConfig, save_config, normalize_config}
use womprat.Tabs.{Session}
use womprat.Server.Defs.{
  Server, Backend, Request, Response, Decoded, json_value, json_empty, json_invalid,
}
use womprat.Server.Http.{require_post, decode_settings_json, decode_settings_json_internal}
use womprat.Server.Credential.{verify_master_password}
use womprat.Server.Commit.{posted, commit, commit_written}

Body-cases :
    {B : Type 0} (d : Decoded B)
    → (d ≡ json_empty) ⊎ (d ≡ json_invalid) ⊎ ((b : B) × (d ≡ json_value b))
Body-cases json_empty = inl refl
Body-cases json_invalid = inr (inl refl)
Body-cases (json_value b) = inr (inr (b, refl))

-- What is decoded is what the body holds.
decoded-value :
    {B : Type 0} (r : Request B) (body : B)
    → decode_settings_json r ≡ ok body
    → r.body ≡ json_value body
unfolding decode_settings_json decode_settings_json_internal
decoded-value {B} r body e = elim (Body-cases r.body) [
  | inl q ↦ absurd (ground (arith, q, e))
  | inr (inl q) ↦ absurd (ground (arith, q, e))
  | inr (inr (value, q)) ↦ elim (Bool-cases r.ends) [
    | inr t ↦ absurd (ground (arith, q, t, e))
    | inl t ↦
        let same : ◌≡◌ {A = Result Response B} (ok value) (ok body) =
          rw (decode_settings_json, q, t) at e in
        q ∙ ap json_value (ground (arith, same))
  ]
]

-- A handler behind a POST: what holds of every refusal and of the handler holds of both.
pub posted-both :
    {B : Type 0} (P : Response × Server → Type 0) (r : Request B)
    (h : B → Server → Response × Server) (s : Server)
    → ((refused : Response) → P (refused, s))
    → ((body : B) → P (h body s))
    → P (posted r h s)
unfolding posted
posted-both {B} P r h s refuses k = elim (Option-cases (require_post r.method)) [
  | inr (refused, q) ↦ rw (posted, q) (refuses refused)
  | inl q ↦
      rw (posted, q)
        (elim (Result-cases (decode_settings_json r)) [
          | inl (refused, w) ↦ rw w (refuses refused)
          | inr (body, w) ↦ rw w (k body)
        ])
]

-- The same, where what is asked for is what the body of the request holds.
pub posted-value :
    {B : Type 0} (P : Response × Server → Type 0) (r : Request B)
    (h : B → Server → Response × Server) (s : Server)
    → ((refused : Response) → P (refused, s))
    → ((body : B) → r.body ≡ json_value body → P (h body s))
    → P (posted r h s)
unfolding posted
posted-value {B} P r h s refuses k = elim (Option-cases (require_post r.method)) [
  | inr (refused, q) ↦ rw (posted, q) (refuses refused)
  | inl q ↦
      rw (posted, q)
        (elim (Result-cases (decode_settings_json r)) [
          | inl (refused, w) ↦ rw w (refuses refused)
          | inr (body, w) ↦ rw w (k body (decoded-value r body w))
        ])
]

-- The request carries the right password.
abbrev pub Submits : Backend → Request Bytes → Server → Type 0
Submits b r s =
    (password : Bytes) × (r.body ≡ json_value password)
    × (verify_master_password b password s ≡ true)

module _ (p : Platform) (b : Backend) where
  -- The settings became `cfg`, and the file holds them as `SaveConfig` writes them.
  abbrev pub SavesAs : AppConfig → Session → Session → Type 0
  SavesAs cfg s s' =
      s' ≡ record s { config = cfg; file = some (normalize_config p b.env.resolves cfg) }

  -- Nothing changed, or an answer of success tells of new settings that are saved.
  abbrev pub Settled : Session → Response × Server → Type 0
  Settled a r = (r.1.app ≡ a) ⊎ ((r.0.status ≡ 200) × (cfg : AppConfig) × SavesAs cfg a r.1.app)

  -- The right password in the request took the lock away.
  abbrev pub Unlocked : Request Bytes → Server → Response × Server → Type 0
  Unlocked request s r =
      (Submits b request s) × (r.0.status ≡ 200) × (r.1.app ≡ record s.app { locked = false })

  -- A change of which the saved copy keeps its fields, saved.
  pub commit_written-Settled :
      (change : AppConfig → AppConfig) (pick : AppConfig → AppConfig → AppConfig)
      (respond : AppConfig → Response) (s : Server)
      → ((written : AppConfig) → (respond written).status ≡ 200)
      → (normalize_config p b.env.resolves
            (pick (normalize_config p b.env.resolves (change s.app.config)) s.app.config)
          ≡ normalize_config p b.env.resolves (change s.app.config))
      → Settled s.app (commit_written p b change pick respond s)
  unfolding commit_written save_config
  commit_written-Settled change pick respond s good stable =
      let n : AppConfig = normalize_config p b.env.resolves (change s.app.config) in
      elim (Bool-cases (b.env.writes n)) [
        | inl q ↦
            rw (commit_written, q)
              (inr (
                good n,
                pick n s.app.config,
                ap (λ (f : AppConfig). record s.app { config = pick n s.app.config; file = some f })
                    (sym stable),
              ))
        | inr q ↦ rw (commit_written, q) (inl refl)
      ]

  pub commit-Settled :
      (change : AppConfig → AppConfig) (response : Response) (s : Server)
      → response.status ≡ 200
      → Settled s.app (commit p b change response s)
  unfolding commit
  commit-Settled change response s good =
      commit_written-Settled change (λ _. change) (λ _. response) s (λ _. good) refl

  pub posted-Settled :
      {B : Type 0} (r : Request B) (h : B → Server → Response × Server) (s : Server)
      → ((body : B) → Settled s.app (h body s))
      → Settled s.app (posted r h s)
  posted-Settled r h s k = posted-both (Settled s.app) r h s (λ _. inl refl) k

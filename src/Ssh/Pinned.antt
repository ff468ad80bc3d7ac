-- ===== src/Ssh/Pinned.antt =====
-- About `hostKeyCallback` of main.go: the stored keys.
use womprat.Base.{
  Bytes, Bool, true, false, Option, some, [], ◌==◌, bytes_eq, eqb, eqb_iff, eqb_refl, if◌then◌else◌,
  ok, err, Bool-cases, Option-cases, ◌≡◌, refl, ap, subst, ◌∙◌, ◌⊎◌, inl, inr, arith, lookup,
  insert, lookup-insert,
}
use womprat.Platform.{Platform}
use womprat.Config.{AppConfig, HostConfig, save_config, normalize_config}
use womprat.Server.{Server, Backend, host_of, or_no_host}
use womprat.Ssh.Keys.{KeyFormat, not_saved, trust_key, compare_key, host_key_callback}

-- the key that is stored for a host; empty if there is none
abbrev pub pinned : Bytes → Server → Bytes
pinned host s = (host_of host s.app.config).host_key

either_host :
    (c : Bool) (conf : HostConfig) (o : Option HostConfig)
    → or_no_host (if c then some conf else o) ≡ (if c then conf else or_no_host o)
either_host true conf o = refl
either_host false conf o = refl

either_key :
    (c : Bool) (conf old : HostConfig)
    → (if c then conf else old).host_key ≡ (if c then conf.host_key else old.host_key)
either_key true conf old = refl
either_key false conf old = refl

module _ (p : Platform) (b : Backend) (f : KeyFormat) where
  pinned-insert :
      (host h : Bytes) (conf : HostConfig) (cfg : AppConfig)
      → (host_of h (record cfg { hosts = insert host conf cfg.hosts }))
        ≡ (if eqb host h then conf else host_of h cfg)
  pinned-insert host h conf cfg =
      ap or_no_host (lookup-insert host h conf cfg.hosts)
      ∙ either_host (eqb host h) conf (lookup h cfg.hosts)

  -- What trust in a new key leaves: the old state behind an error, or the key of this host.
  trust_key-cases :
      (host key : Bytes) (s : Server)
      → (((trust_key p b f host key s).1 ≡ s) × ((trust_key p b f host key s).0 ≡ err not_saved))
        ⊎ ((h : Bytes)
            → pinned h (trust_key p b f host key s).1
              ≡ (if eqb host h then f.authorized key else pinned h s))
  unfolding trust_key save_config
  trust_key-cases host key s =
      let conf : HostConfig = record (host_of host s.app.config) {
        host_key = f.authorized key;
        host_key_fingerprint = f.fingerprint key;
      } in
      let cfg : AppConfig = record s.app.config { hosts = insert host conf s.app.config.hosts } in
      elim (Bool-cases (b.env.writes (normalize_config p b.env.resolves cfg))) [
        | inr q ↦ inl (rw (trust_key, q) (refl, refl))
        | inl q ↦ inr λ h.
            rw (trust_key, q)
              (ap (λ (c : HostConfig). c.host_key) (pinned-insert host h conf s.app.config)
                ∙ either_key (eqb host h) conf (host_of h s.app.config))
      ]

  -- A key that is stored stays, whatever host presents whatever key.
  pub host_key_callback-pinned :
      (host key h : Bytes) (s : Server)
      → (pinned h s ≡ []) ⊎ (pinned h (host_key_callback p b f host key s).1 ≡ pinned h s)
  unfolding host_key_callback
  host_key_callback-pinned host key h s =
      elim (Bool-cases ((host_of host s.app.config).host_key == [])) [
        | inr q ↦ rw (host_key_callback, q) (inr refl)
        | inl q ↦
            rw (host_key_callback, q)
              (elim (trust_key-cases host key s) [
                | inl (same, _) ↦ inr (ap (pinned h) same)
                | inr keeps ↦ elim (Bool-cases (eqb host h)) [
                  | inr other ↦ inr (keeps h ∙ rw other refl)
                  | inl this ↦
                      let here : pinned host s ≡ [] = (eqb_iff (pinned host s) []).0 q in
                      inl (subst (λ x. pinned x s ≡ []) ((eqb_iff host h).0 this) here)
                ]
              ])
      ]

  compare_key-ok :
      (stored key : Bytes)
      → compare_key p b f stored key ≡ ok tt
      → f.parse_authorized stored ≡ some key
  unfolding compare_key
  compare_key-ok stored key e = elim (Option-cases (f.parse_authorized stored)) [
    | inl q ↦ ground (arith, e, q)
    | inr (k, q) ↦ ground (arith, e, q, eqb_iff k key)
  ]

  -- An accepted key is the one that is stored then.
  pub host_key_callback-accepts :
      (host key : Bytes) (s : Server)
      → f.parse_authorized (f.authorized key) ≡ some key
      → (host_key_callback p b f host key s).0 ≡ ok tt
      → f.parse_authorized (pinned host (host_key_callback p b f host key s).1) ≡ some key
  unfolding host_key_callback
  host_key_callback-accepts host key s reads good =
      elim (Bool-cases ((host_of host s.app.config).host_key == [])) [
        | inl q ↦
            rw (host_key_callback, q)
              (elim (trust_key-cases host key s) [
                | inl (_, fails) ↦ let bad = rw (host_key_callback, q) at good in cc
                | inr keeps ↦ ap f.parse_authorized (keeps host ∙ rw (eqb_refl host) refl) ∙ reads
              ])
        | inr q ↦
            rw (host_key_callback, q)
              (compare_key-ok (pinned host s) key (rw (host_key_callback, q) at good))
      ]

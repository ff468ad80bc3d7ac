-- ===== src/Desktop/Accepted.antt =====
-- About `handleRDPWebSocket` of rdp.go: the options that it accepts.
use womprat.Base.{
  Bytes, codes, ℕ, ℤ, pos, negsuc, Bool, true, false, not, ◌||◌, Option, none, some, [], ◌==◌, ◌!=◌,
  bytes_eq, int_eq, eqb_iff, any, ltb, leb_ℤ, ltb_ℤ, length, if◌then◌else◌, Result, ok, err,
  Bool-cases, Option-cases, ◌≡◌, ◌≢◌, refl, subst, inl, inr, arith, ◌≤◌,
}
use womprat.Platform.{Platform}
use womprat.Text.Space.{trim_space}
use womprat.Text.Decimal.{atoi}
use womprat.CustomUrl.{CustomUrlTarget}
use womprat.Desktop.Defs.{
  RdpCredentials, RdpQuery, RdpOptions, RdpRefusal, parse_rdp_url, clamp_rdp_dim,
  parse_rdp_color_depth, color_depths, rdp_credential_host_matches, desktop_target, rdp_options,
  rdp_credentials, handle_rdp_web_socket, invalid_target, not_connected, too_large,
  expected_credentials, foreign_host, invalid_credentials,
}

-- From 1 to 8192.
abbrev pub IsDim : ℤ → Type 0
IsDim n = (m : ℕ) × (n ≡ pos m) × (1 ≤ m) × (m ≤ 8192)

clamp_rdp_dim-IsDim :
    (raw : Bytes) (fallback : ℕ)
    → 1 ≤ fallback
    → fallback ≤ 8192
    → IsDim (clamp_rdp_dim raw (pos fallback))
unfolding clamp_rdp_dim
clamp_rdp_dim-IsDim raw fallback low high = elim (Option-cases (atoi raw)) [
  | inl q ↦ rw (clamp_rdp_dim, q) (fallback, refl, low, high)
  | inr (negsuc v, q) ↦ rw (clamp_rdp_dim, q) (fallback, refl, low, high)
  | inr (pos v, q) ↦ elim (Bool-cases (leb_ℤ (pos v) (pos 0) || ltb_ℤ (pos 8192) (pos v))) [
    | inl u ↦ rw (clamp_rdp_dim, q, u) (fallback, refl, low, high)
    | inr u ↦ rw (clamp_rdp_dim, q, u) (v, refl, ground (arith, u), ground (arith, u))
  ]
]

color_depth-any :
    (raw : Bytes) → any (λ d. parse_rdp_color_depth raw (pos 16) == d) color_depths ≡ true
unfolding parse_rdp_color_depth
color_depth-any raw = elim (Option-cases (atoi raw)) [
  | inl q ↦ rw (parse_rdp_color_depth, q) refl
  | inr (depth, q) ↦ elim (Bool-cases (any (λ d. depth == d) color_depths)) [
    | inl u ↦ rw (parse_rdp_color_depth, q, u) u
    | inr u ↦ rw (parse_rdp_color_depth, q, u) refl
  ]
]

-- The options that a message with credentials may lead to, for a target.
pub record IsAccepted (p : Platform) (target : CustomUrlTarget) (c : RdpCredentials)
    (o : RdpOptions) : Type 0 where
  pub to_target : (o.host ≡ target.host) × (o.port ≡ target.port)
  pub password : o.password ≡ c.password
  pub matches : rdp_credential_host_matches p c.host target ≡ true
  pub named : (o.user ≢ []) × (length o.user ≤ 256) × (length o.password ≤ 1024)
  pub sized : (IsDim o.width) × (IsDim o.height)
  pub depth : any (λ d. o.color_depth == d) color_depths ≡ true

options-inj : (x y : RdpOptions) → ◌≡◌ {A = Result RdpRefusal RdpOptions} (ok x) (ok y) → x ≡ y
options-inj x y e = cc

module _ (p : Platform) where
  options-IsAccepted :
      (query : RdpQuery) (target : CustomUrlTarget) (c : RdpCredentials) (user : Bytes)
      → rdp_credential_host_matches p c.host target ≡ true
      → (user == [] || ltb 256 (length user) || ltb 1024 (length c.password)) ≡ false
      → IsAccepted p target c (rdp_options p query target user c.password)
  unfolding rdp_options
  options-IsAccepted query target c user matches good = record {
    to_target = (refl, refl);
    password = refl;
    matches = matches;
    named = (
      (λ h. ground (arith, good, h, eqb_iff user [])),
      ground (arith, good),
      ground (arith, good),
    );
    sized = (
      clamp_rdp_dim-IsDim query.width 1280 (omega arith) (omega arith),
      clamp_rdp_dim-IsDim query.height 720 (omega arith) (omega arith),
    );
    depth = color_depth-any query.color_depth;
  }

  rdp_credentials-IsAccepted :
      (query : RdpQuery) (target : CustomUrlTarget) (size : ℕ) (creds : Option RdpCredentials)
      (o : RdpOptions)
      → rdp_credentials p query target size creds ≡ ok o
      → (c : RdpCredentials) × (creds ≡ some c) × IsAccepted p target c o
  unfolding rdp_credentials
  rdp_credentials-IsAccepted query target size none o e = cc
  rdp_credentials-IsAccepted query target size (some c) o e =
      let user : Bytes = trim_space (if c.user == [] then target.user else c.user) in
      elim (Bool-cases (ltb 1048576 size)) [
        | inl q ↦ let bad : err too_large ≡ ok o = rw (rdp_credentials, q) at e in cc
        | inr q ↦ elim (Bool-cases (c.kind != codes "credentials")) [
          | inl r ↦
              let bad : err expected_credentials ≡ ok o = rw (rdp_credentials, q, r) at e in cc
          | inr r ↦ elim (Bool-cases (not (rdp_credential_host_matches p c.host target))) [
            | inl s ↦ let bad : err foreign_host ≡ ok o = rw (rdp_credentials, q, r, s) at e in cc
            | inr s ↦
                elim (Bool-cases
                  (user == [] || ltb 256 (length user) || ltb 1024 (length c.password))) [
                    | inl t ↦
                        let bad : err invalid_credentials ≡ ok o =
                          rw (rdp_credentials, q, r, s, t) at e in
                        cc
                    | inr t ↦
                        let same : ok (rdp_options p query target user c.password) ≡ ok o =
                          rw (rdp_credentials, q, r, s, t) at e in
                        (
                          c,
                          refl,
                          subst (IsAccepted p target c)
                              (options-inj (rdp_options p query target user c.password) o same)
                              (options-IsAccepted query target c user (ground (arith, s)) t),
                        )
                  ]
          ]
        ]
      ]

  -- A desktop is opened only for an address that parses, and while the tailnet is reachable; the
  -- credentials go to that address, which they name or leave open, with a user of 1 to 256 bytes and
  -- a password of at most 1024, for a screen of 1 to 8192 pixels each way and a known color depth.
  pub handle_rdp_web_socket-IsAccepted :
      (query : RdpQuery) (reachable : Bool) (size : ℕ) (creds : Option RdpCredentials)
      (o : RdpOptions)
      → handle_rdp_web_socket p query reachable size creds ≡ ok o
      → (target : CustomUrlTarget) × (c : RdpCredentials) × (parse_rdp_url p query.target
          ≡ some target)
        × (reachable ≡ true)
        × (creds ≡ some c)
        × (IsAccepted p target c o)
  unfolding handle_rdp_web_socket desktop_target
  handle_rdp_web_socket-IsAccepted query reachable size creds o e =
      elim (Option-cases (parse_rdp_url p query.target)) [
        | inl q ↦ let bad : err invalid_target ≡ ok o = rw (handle_rdp_web_socket, q) at e in cc
        | inr (target, q) ↦ elim (Bool-cases reachable) [
          | inr r ↦ let bad : err not_connected ≡ ok o = rw (handle_rdp_web_socket, q, r) at e in cc
          | inl r ↦
              let h =
                rdp_credentials-IsAccepted query target size creds o
                  (rw (handle_rdp_web_socket, q, r) at e) in
              (target, h.0, q, r, h.1, h.2)
        ]
      ]

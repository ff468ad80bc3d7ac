-- ===== src/CustomUrl/Valid.antt =====
-- What an accepted address looks like.
use womprat.Base.{
  Bytes, codes, ℕ, ℤ, pos, Bool, true, Option, none, some, List, [], ◌∷◌, ◌==◌, nat_eq, bytes_eq,
  all, length, ok, ◌≡◌, ◌≢◌, refl, ◌⊎◌, inl, inr, ◌≤◌, arith, All, eqb_iff, Bool-cases,
  Option-cases, negsuc, subst,
}
use womprat.Platform.{Platform, Url}
use womprat.Text.Search.{split, push_front}
use womprat.Text.Space.{trim_space}
use womprat.Text.Host.{port}
use womprat.Text.Decimal.{atoi}
use womprat.CustomUrl.Defs.{
  CustomUrlTarget, is_label_byte, is_label, is_some, validate_custom_url_user,
  custom_scheme_default_port, validate_custom_url_host, choose_port, check_port, check_target,
  parse_custom_url,
}

-- A byte of a host name: of a label, or the dot between labels.
abbrev pub HostByte : ℕ → Type 0
HostByte c = (is_label_byte c ≡ true) ⊎ (c ≡ b'.')

all-push_front :
    (q : ℕ → Bool) (c : ℕ) (parts : List Bytes)
    → all (all q) (push_front c parts) ≡ true
    → (q c ≡ true) × (all (all q) parts ≡ true)
unfolding push_front
all-push_front q c [] h = ground arith
all-push_front q c (w ∷ ws) h = ground arith

-- Where every part of a split text passes a test, its bytes pass it or separate the parts.
All-split :
    (q : ℕ → Bool) (sep : ℕ) (s : Bytes)
    → all (all q) (split sep s) ≡ true
    → All (λ c. (q c ≡ true) ⊎ (c ≡ sep)) s
unfolding split
All-split q sep [] h = tt
All-split q sep (c ∷ s) h = elim (Bool-cases (c == sep)) [
  | inl cut ↦ (inr (ground arith), All-split q sep s (ground arith))
  | inr on ↦
      let (first, rest) = all-push_front q c (split sep s) (rw on at h) in
      (inl first, All-split q sep s rest)
]

all-is_label :
    (parts : List Bytes) → all is_label parts ≡ true → all (all is_label_byte) parts ≡ true
unfolding is_label
all-is_label [] h = refl
all-is_label (w ∷ ws) h = ground (arith, all-is_label ws)

module _ (p : Platform) where
  -- A literal address, or at most 253 bytes of letters, digits, `-`, `_` and dots.
  abbrev pub IsHost : Bytes → Type 0
  IsHost host =
      (host ≢ []) × ((is_some (p.parse_ip host) ≡ true) ⊎ (All HostByte host × (length host ≤ 253)))

  host_parts :
      (host : Bytes)
      → validate_custom_url_host p host ≡ ok tt
      → (host ≢ [])
        × ((is_some (p.parse_ip host) ≡ true)
            ⊎ ((all is_label (split b'.' host) ≡ true) × (length host ≤ 253)))
  unfolding validate_custom_url_host
  host_parts host h = ground (arith, eqb_iff host [])

  -- An accepted host is not empty, and is a literal address or made of host-name bytes.
  pub validate_custom_url_host-IsHost :
      (host : Bytes) → validate_custom_url_host p host ≡ ok tt → IsHost host
  validate_custom_url_host-IsHost host h =
      let (ne, parts) = host_parts host h in
      (
        ne,
        elim parts [
          | inl ip ↦ inl ip
          | inr (labels, short) ↦
              inr (All-split is_label_byte b'.' host (all-is_label _ labels), short)
        ],
      )

  abbrev IsPort : ℤ → Type 0
  IsPort n = (m : ℕ) × (n ≡ pos m) × (1 ≤ m) × (m ≤ 65535)

  -- What `parseCustomURL` returns: a known scheme, a host, a port of 16 bits and a harmless user.
  pub record IsTarget (t : CustomUrlTarget) : Type 0 where
    pub scheme : (t.scheme ≡ codes "ssh") ⊎ (t.scheme ≡ codes "vnc") ⊎ (t.scheme ≡ codes "rdp")
    pub host : IsHost t.host
    pub port : (n : ℕ) × (t.port ≡ pos n) × (1 ≤ n) × (n ≤ 65535)
    pub user : validate_custom_url_user t.user ≡ ok tt

  default_scheme :
      (scheme : Bytes) {n : ℤ}
      → custom_scheme_default_port p scheme ≡ some n
      → ((p.to_lower scheme ≡ codes "ssh")
          ⊎ (p.to_lower scheme ≡ codes "vnc")
          ⊎ (p.to_lower scheme ≡ codes "rdp"))
  unfolding custom_scheme_default_port
  default_scheme scheme {n} h = ground (
    arith,
    eqb_iff (p.to_lower scheme) (codes "ssh"),
    eqb_iff (p.to_lower scheme) (codes "vnc"),
    eqb_iff (p.to_lower scheme) (codes "rdp"),
  )

  default_IsPort :
      (scheme : Bytes) {n : ℤ} → custom_scheme_default_port p scheme ≡ some n → IsPort n
  unfolding custom_scheme_default_port
  default_IsPort scheme {n} h = elim (Bool-cases (p.to_lower scheme == codes "ssh")) [
    | inl ssh ↦ (22, ground arith, omega arith, omega arith)
    | inr not_ssh ↦ elim (Bool-cases (p.to_lower scheme == codes "vnc")) [
      | inl vnc ↦ (5900, ground arith, omega arith, omega arith)
      | inr not_vnc ↦ (3389, ground arith, omega arith, omega arith)
    ]
  ]

  check_port-IsPort : (o : Option ℤ) {n : ℤ} → check_port o ≡ ok n → IsPort n
  unfolding check_port
  check_port-IsPort none h = cc
  check_port-IsPort (some (pos m)) h = (m, ground arith, ground arith, ground arith)
  check_port-IsPort (some (negsuc m)) h = cc

  choose_port-IsPort :
      (parsed : Url) (host : Bytes) (default : ℤ) {n : ℤ}
      → IsPort default
      → choose_port p parsed host default ≡ ok n
      → IsPort n
  unfolding choose_port
  choose_port-IsPort parsed host default {n} d h = elim (Bool-cases (port parsed.host == [])) [
    | inr given ↦ check_port-IsPort (atoi (port parsed.host)) (rw given at h)
    | inl missing ↦ let same : default ≡ n = ground arith in subst IsPort same d
  ]

  -- The checks of `check_target`, as facts about its result.
  check_target-eq-ok :
      (parsed : Url) (default : ℤ) {t : CustomUrlTarget}
      → check_target p parsed default ≡ ok t
      → (t.scheme ≡ p.to_lower parsed.scheme)
        × (validate_custom_url_host p t.host ≡ ok tt)
        × (choose_port p parsed t.host default ≡ ok t.port)
        × (validate_custom_url_user t.user ≡ ok tt)
  unfolding check_target
  check_target-eq-ok parsed default {t} h = ground arith

  -- An accepted address was parsed, and passed the checks for its scheme.
  parse_custom_url-eq-ok :
      (raw : Bytes) {t : CustomUrlTarget}
      → parse_custom_url p raw ≡ ok t
      → (parsed : Url) × (default : ℤ) × (custom_scheme_default_port p (p.to_lower parsed.scheme)
          ≡ some default)
        × (check_target p parsed default ≡ ok t)
  unfolding parse_custom_url
  parse_custom_url-eq-ok raw {t} h = elim (Option-cases (p.parse_url (trim_space raw))) [
    | inl bad ↦ absurd (ground arith)
    | inr (parsed, good) ↦
        elim (Option-cases (custom_scheme_default_port p (p.to_lower parsed.scheme))) [
          | inl unknown ↦ absurd (ground arith)
          | inr (default, known) ↦ (parsed, default, known, ground arith)
        ]
  ]

  -- Every accepted address is a target with a known scheme, a valid host, a port from 1 to 65535
  -- and a valid user, whatever `url.Parse` makes of the text; lower-casing twice is assumed to be
  -- lower-casing once.
  pub parse_custom_url-IsTarget :
      (lower_idem : (s : Bytes) → p.to_lower (p.to_lower s) ≡ p.to_lower s) (raw : Bytes)
      {t : CustomUrlTarget}
      → parse_custom_url p raw ≡ ok t
      → IsTarget t
  parse_custom_url-IsTarget lower_idem raw {t} h =
      let (parsed, default, known, checked) = parse_custom_url-eq-ok raw h in
      let (scheme, host, number, user) = check_target-eq-ok parsed default checked in
      record {
        scheme = rw (scheme, ← lower_idem) (default_scheme (p.to_lower parsed.scheme) known);
        host = validate_custom_url_host-IsHost t.host host;
        port =
            choose_port-IsPort parsed t.host default
              (default_IsPort (p.to_lower parsed.scheme) known) number;
        user = user;
      }

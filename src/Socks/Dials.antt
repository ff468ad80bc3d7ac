-- ===== src/Socks/Dials.antt =====
-- What the proxy dials.
use womprat.Base.{
  Bytes, codes, ℕ, ◌+◌, ◌≤◌, true, false, Option, none, some, List, [], ◌∷◌, ◌==◌, nat_eq, ◌≡◌, ◌≢◌,
  refl, ◌⊎◌, inl, inr, All, arith, eqb_iff, length, Bool-cases, Option-cases, subst, sym, take,
  drop,
}
use womprat.Platform.{Platform}
use womprat.Text.Search.{contains_any}
use womprat.Text.Space.{trim_space}
use womprat.Text.Decimal.{decimal}
use womprat.Tailnet.{join_host_port}
use womprat.Socks.Defs.{
  Act, wrote, dialed, relayed, Proxy, validate_socks_target, read_full, read_ip, read_domain,
  read_socks_addr, connect, request_target, request, greeting, reply, socks_methods_contain,
  handle_socks_5, uint_16,
}

module _ (p : Platform) (proxy : Proxy) where
  -- The text of an address, or a name of at most 253 bytes without URL delimiters.
  abbrev pub IsTarget : Bytes → ℕ → Type 0
  IsTarget host port =
      (port ≢ 0)
      × (((raw : Bytes) × (p.parse_ip raw ≡ some host))
          ⊎ ((host ≢ []) × (length host ≤ 253) × (contains_any host (codes " /?#\\@%") ≡ false)))

  -- A dial is of a valid target, with a node.
  abbrev pub IsProper : Act → Type 0
  IsProper (wrote bytes) = Unit
  IsProper relayed = Unit
  IsProper (dialed addr) =
      (host : Bytes) × (port : ℕ) × (addr ≡ join_host_port host (decimal port))
      × IsTarget host port
      × (proxy.has_node ≡ true)

  validate-IsTarget :
      (raw : Bytes) (port : ℕ) {t : Bytes × ℕ}
      → validate_socks_target p proxy raw port ≡ some t
      → IsTarget t.0 t.1
  unfolding validate_socks_target
  validate-IsTarget raw port {t} h =
      let host = trim_space raw in
      elim (Option-cases (p.parse_ip host)) [
        | inr (text, q) ↦
            let same : t ≡ (text, port) = ground (arith, q, h) in
            (ground (arith, q, h), inl (host, rw same q))
        | inl q ↦ (
          ground (arith, q, h, eqb_iff host []),
          inr (
            ground (arith, q, h, eqb_iff host []),
            ground (arith, q, h, eqb_iff host []),
            ground (arith, q, h, eqb_iff host []),
          ),
        )
      ]

  read_ip-IsTarget :
      (n : ℕ) (input : Bytes) {t : Bytes × ℕ} → read_ip p proxy n input ≡ some t → IsTarget t.0 t.1
  unfolding read_ip
  read_ip-IsTarget n input {t} h = elim (Option-cases (read_full (n + 2) input)) [
    | inl q ↦ absurd (ground (arith, q, h))
    | inr (r, q) ↦
        validate-IsTarget (proxy.ip_string (take n r.0)) (uint_16 (drop n r.0)) {t = t}
          (rw (read_ip, q) at h)
  ]

  read_domain-IsTarget :
      (input : Bytes) {t : Bytes × ℕ} → read_domain p proxy input ≡ some t → IsTarget t.0 t.1
  unfolding read_domain
  read_domain-IsTarget [] {t} h = absurd (ground arith)
  read_domain-IsTarget (l ∷ input) {t} h = elim (Bool-cases (l == 0)) [
    | inl e ↦ absurd (ground (arith, e, h))
    | inr e ↦ elim (Option-cases (read_full (l + 2) input)) [
      | inl q ↦ absurd (ground (arith, e, q, h))
      | inr (r, q) ↦ validate-IsTarget (take l r.0) (uint_16 (drop l r.0)) {t = t} (rw (e, q) at h)
    ]
  ]

  read_socks_addr-IsTarget :
      (atyp : ℕ) (input : Bytes) {t : Bytes × ℕ}
      → read_socks_addr p proxy atyp input ≡ some t
      → IsTarget t.0 t.1
  unfolding read_socks_addr
  read_socks_addr-IsTarget atyp input {t} h = elim (Bool-cases (atyp == 1)) [
    | inl e ↦ read_ip-IsTarget 4 input {t = t} (rw e at h)
    | inr e ↦ elim (Bool-cases (atyp == 3)) [
      | inl e' ↦ read_domain-IsTarget input {t = t} (rw (e, e') at h)
      | inr e' ↦ elim (Bool-cases (atyp == 4)) [
        | inl e'' ↦ read_ip-IsTarget 16 input {t = t} (rw (e, e', e'') at h)
        | inr e'' ↦ absurd (ground (arith, e, e', e'', h))
      ]
    ]
  ]

  connect-IsProper :
      (addr : Bytes) (h : List Act)
      → IsProper (dialed addr)
      → All IsProper h
      → All IsProper (connect p proxy addr h)
  unfolding connect
  connect-IsProper addr h proper rest = elim (Option-cases (proxy.dial h addr)) [
    | inr (message, q) ↦ rw (connect, q) (tt, (proper, rest))
    | inl q ↦ elim (Bool-cases (proxy.writes (dialed addr ∷ h) (reply 0))) [
      | inl e ↦ rw (connect, q, e) (tt, (tt, (proper, rest)))
      | inr e ↦ rw (connect, q, e) (tt, (proper, rest))
    ]
  ]

  request_target-cases :
      (t : Bytes × ℕ) (h : List Act)
      → (request_target p proxy (some t) h ≡ wrote (reply 3) ∷ h)
        ⊎ ((proxy.has_node ≡ true)
            × (request_target p proxy (some t) h
                ≡ connect p proxy (join_host_port t.0 (decimal t.1)) h))
  unfolding request_target
  request_target-cases t h = ground arith

  request_target-IsProper :
      (o : Option (Bytes × ℕ)) (h : List Act)
      → ((t : Bytes × ℕ) → o ≡ some t → IsTarget t.0 t.1)
      → All IsProper h
      → All IsProper (request_target p proxy o h)
  unfolding request_target
  request_target-IsProper none h good rest = (tt, rest)
  request_target-IsProper (some t) h good rest = elim (request_target-cases t h) [
    | inl e ↦ subst (All IsProper) (sym e) (tt, rest)
    | inr (n, e) ↦ subst (All IsProper) (sym e) (
        connect-IsProper (join_host_port t.0 (decimal t.1)) h (t.0, t.1, refl, good t refl, n) rest)
  ]

  request-IsProper :
      (input : Bytes) (h : List Act) → All IsProper h → All IsProper (request p proxy input h)
  unfolding request
  request-IsProper (ver ∷ cmd ∷ rsv ∷ atyp ∷ input) h rest = elim (Bool-cases (ver == 5)) [
    | inr e ↦ rw (request, e) rest
    | inl e ↦ elim (Bool-cases (cmd == 1)) [
      | inr e' ↦ rw (request, e, e') (tt, rest)
      | inl e' ↦
          rw (request, e, e')
            (request_target-IsProper (read_socks_addr p proxy atyp input) h
              (λ t q. read_socks_addr-IsTarget atyp input q) rest)
    ]
  ]
  request-IsProper [] h rest = rest
  request-IsProper (_ ∷ []) h rest = rest
  request-IsProper (_ ∷ _ ∷ []) h rest = rest
  request-IsProper (_ ∷ _ ∷ _ ∷ []) h rest = rest

  greeting-IsProper : (methods input : Bytes) → All IsProper (greeting p proxy methods input)
  unfolding greeting
  greeting-IsProper methods input = elim (Bool-cases (socks_methods_contain methods 0)) [
    | inr e ↦ rw (greeting, e) (tt, tt)
    | inl e ↦ elim (Bool-cases (proxy.writes [] (5 ∷ 0 ∷ []))) [
      | inr q ↦ rw (greeting, e, q) (tt, tt)
      | inl q ↦ rw (greeting, e, q) (request-IsProper input (wrote (5 ∷ 0 ∷ []) ∷ []) (tt, tt))
    ]
  ]

  -- Whatever a client sends, the proxy dials only with a node, and only the host and port of a
  -- target that passed the checks: a port that is not 0, and the text of an address or a name of at
  -- most 253 bytes without blanks and URL delimiters.
  pub handle_socks_5-IsProper : (input : Bytes) → All IsProper (handle_socks_5 p proxy input)
  unfolding handle_socks_5
  handle_socks_5-IsProper [] = tt
  handle_socks_5-IsProper (_ ∷ []) = tt
  handle_socks_5-IsProper (ver ∷ count ∷ input) = elim (Bool-cases (ver == 5)) [
    | inr e ↦ rw (handle_socks_5, e) tt
    | inl e ↦ elim (Option-cases (read_full count input)) [
      | inl q ↦ rw (handle_socks_5, e, q) tt
      | inr (r, q) ↦ rw (handle_socks_5, e, q) (greeting-IsProper r.0 r.1)
    ]
  ]

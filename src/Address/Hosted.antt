-- ===== src/Address/Hosted.antt =====
-- About `normalizeAddressURL` of address_search.go: hosts and ports.
use womprat.Base.{
  Bytes, codes, ℕ, pos, negsuc, true, false, not, ◌&&◌, ◌||◌, none, some, [], ◌==◌, ◌!=◌, bytes_eq,
  eqb_iff, all, ltb, length, if◌then◌else◌, Result, ok, err, Bool-cases, Option-cases, Result-cases,
  ◌≡◌, ◌≢◌, sym, ◌⊎◌, inl, inr, arith, ◌≤◌,
}
use womprat.Platform.{Platform, Url, Addr}
use womprat.Text.Search.{contains, split, trim_suffix}
use womprat.Text.Host.{hostname, port}
use womprat.Text.Decimal.{atoi}
use womprat.CustomUrl.{normalize_browser_url}
use womprat.Address.Defs.{
  AddressError, bad_host, bad_port, bad_url, Names, is_address_label, ascii_host, is_port,
  check_address, normalize_address_url, join_host_port,
}

-- No port, or a number from 1 to 65535.
abbrev pub IsPort : Bytes → Type 0
IsPort number = (number ≡ []) ⊎ ((k : ℕ) × (atoi number ≡ some (pos k)) × (1 ≤ k) × (k ≤ 65535))

-- A name of at most 253 bytes, in labels of letters, digits and inner dashes.
abbrev pub IsName : Bytes → Type 0
IsName name = (name ≢ []) × (length name ≤ 253) × (all is_address_label (split b'.' name) ≡ true)

some-inj : (x y : Url) → some x ≡ some y → x ≡ y
some-inj x y e = cc

ok-inj : (x y : Bytes) → ◌≡◌ {A = Result AddressError Bytes} (ok x) (ok y) → x ≡ y
ok-inj x y e = cc

module _ (p : Platform) (n : Names) where
  -- A host that is a literal address and left as it is, or becomes a name, with the port if there is one.
  abbrev pub IsHost : Url → Url → Type 0
  IsHost u v =
      ((a : Addr) × (p.parse_addr (hostname u.host) ≡ some a) × (v ≡ u))
      ⊎ ((name : Bytes) × (IsName name)
          × (v ≡ record u {
            host = if port u.host != [] then join_host_port name (port u.host) else name;
          }))

  -- The text of such an address.
  abbrev pub IsHosted : Bytes → Type 0
  IsHosted text =
      (u : Url) × (v : Url) × (text ≡ p.url_string v)
      × (hostname u.host ≢ [])
      × (contains u.host (codes "%") ≡ false)
      × (IsHost u v)
      × (IsPort (port v.host))

  checked-IsPort :
      (number : Bytes) → (number != [] && not (is_port p n number)) ≡ false → IsPort number
  checked-IsPort number e = elim (Bool-cases (number == [])) [
    | inl q ↦ inl ((eqb_iff number []).0 q)
    | inr q ↦ elim (Option-cases (atoi number)) [
      | inl u ↦ ground (arith, e, q, u)
      | inr (negsuc k, u) ↦ ground (arith, e, q, u)
      | inr (pos k, u) ↦ inr (k, u, ground (arith, e, q, u), ground (arith, e, q, u))
    ]
  ]

  ascii_host-IsHost : (u v : Url) → ascii_host p n u ≡ some v → IsHost u v
  unfolding ascii_host
  ascii_host-IsHost u v e = elim (Option-cases (p.parse_addr (hostname u.host))) [
    | inr (a, q) ↦
        let same : some u ≡ some v = rw (ascii_host, q) at e in inl (a, q, some-inj v u (sym same))
    | inl q ↦ elim (Option-cases (n.to_ascii (hostname u.host))) [
      | inl r ↦ let bad : none ≡ some v = rw (ascii_host, q, r) at e in cc
      | inr (raw, r) ↦
          let name : Bytes = trim_suffix raw (codes ".") in
          elim (Bool-cases
            (name == [] || ltb 253 (length name) || not (all is_address_label (split b'.' name)))) [
              | inl w ↦ let bad : none ≡ some v = rw (ascii_host, q, r, w) at e in cc
              | inr w ↦
                  let next : Url = record u {
                    host = if port u.host != [] then join_host_port name (port u.host) else name;
                  } in
                  let same : some next ≡ some v = rw (ascii_host, q, r, w) at e in
                  inr (
                    name,
                    (
                      λ h. ground (arith, w, h, eqb_iff name []),
                      ground (arith, w),
                      ground (arith, w),
                    ),
                    some-inj v next (sym same),
                  )
            ]
    ]
  ]

  check_address-IsHosted : (u : Url) (text : Bytes) → check_address p n u ≡ ok text → IsHosted text
  unfolding check_address
  check_address-IsHosted u text e =
      elim (Bool-cases (hostname u.host == [] || contains u.host (codes "%"))) [
        | inl q ↦ let bad : err bad_host ≡ ok text = rw (check_address, q) at e in cc
        | inr q ↦ elim (Option-cases (ascii_host p n u)) [
          | inl r ↦ let bad : err bad_host ≡ ok text = rw (check_address, q, r) at e in cc
          | inr (v, r) ↦ elim (Bool-cases (port v.host != [] && not (is_port p n (port v.host)))) [
            | inl w ↦ let bad : err bad_port ≡ ok text = rw (check_address, q, r, w) at e in cc
            | inr w ↦
                let same : ok (p.url_string v) ≡ ok text = rw (check_address, q, r, w) at e in
                (
                  u,
                  v,
                  ok-inj text (p.url_string v) (sym same),
                  (λ h. ground (arith, q, h, eqb_iff (hostname u.host) [])),
                  ground (arith, q),
                  ascii_host-IsHost u v r,
                  checked-IsPort (port v.host) w,
                )
          ]
        ]
      ]

  -- An accepted page address is the text of an address with a host that is a literal address or a
  -- name of at most 253 bytes in labels of letters, digits and inner dashes, without a zone or an
  -- escape, and with no port or a port from 1 to 65535.
  pub normalize_address_url-IsHosted :
      (raw text : Bytes) → normalize_address_url p n raw ≡ ok text → IsHosted text
  unfolding normalize_address_url
  normalize_address_url-IsHosted raw text e = elim (Result-cases (normalize_browser_url p raw)) [
    | inl (x, q) ↦ let bad : err bad_url ≡ ok text = rw (normalize_address_url, q) at e in cc
    | inr (normalized, q) ↦ elim (Option-cases (p.parse_url normalized)) [
      | inl r ↦ let bad : err bad_url ≡ ok text = rw (normalize_address_url, q, r) at e in cc
      | inr (u, r) ↦ check_address-IsHosted u text (rw (normalize_address_url, q, r) at e)
    ]
  ]

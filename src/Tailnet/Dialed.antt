-- ===== src/Tailnet/Dialed.antt =====
-- The traces of `dialTSNetPreferIPv4`: its name queries and its dials.
use womprat.Base.{
  Bytes, ℕ, Bool, true, false, Option, none, some, List, [], ◌∷◌, ◌≡◌, Result, ok, err, inl, inr,
  Bool-cases, Result-cases, refl, ◌⊎◌, Option-cases, eqb, bytes_eq,
}
use womprat.Platform.{Platform, Addr}
use womprat.CustomUrl.{is_some}
use womprat.Tailnet.{
  Network, RecordType, Trace, Resolver, World, NetError, lift, ◌>>=◌, wrap, upstreams_failed,
  bad_request, bad_address, not_resolved, empty_host, invalid_port, no_address, not_connected,
  join_host_port, families, is_valid_port, join_error, try_packet, Transport, dns_tcp, doh,
  exchange, query_dns_over_tailnet, query, dial_address, dial_tailnet_addresses, try_addresses,
  try_family, try_families, dial_tailnet_resolved, dial_tsnet_prefer_ipv4, Tried, settled, failing,
  tailnet_dns_addresses, tcp,
}
use womprat.Tailnet.Fenced.{
  Fenced, start, Keeps, Opens, lift-Keeps, bind-Keeps, bind-Opens, check_route-Opens,
  open_connection-Opens,
}

Tried-cases :
    (t : Tried)
    → ((r : Result NetError ℕ) × (t ≡ settled r)) ⊎ ((e : Option NetError) × (t ≡ failing e))
Tried-cases (settled r) = inl (r, refl)
Tried-cases (failing e) = inr (e, refl)

module _ (p : Platform) (w : World) where
  exchange-Opens : (t : Transport) (question : Bytes) → Opens w (exchange w t question)
  unfolding exchange
  exchange-Opens (dns_tcp target) question h c t =
      bind-Opens w _ _ (open_connection-Opens w tcp _) (λ _. lift-Keeps w _) h c t
  exchange-Opens (doh target u) question h c t = elim (Bool-cases (w.new_request u)) [
    | inl q ↦
        rw (exchange, q)
          (bind-Opens w _ _ (open_connection-Opens w tcp _)
            (λ _. bind-Keeps w _ _ (lift-Keeps w _) (λ _. lift-Keeps w _)) h c t)
    | inr q ↦ rw (exchange, q) (lift-Keeps w (λ _. err bad_request) h t)
  ]

  query_dns-Keeps :
      (name kind_name : Bytes) (resolvers : List (Option Resolver))
      → Keeps w (query_dns_over_tailnet p w name kind_name resolvers)
  unfolding query_dns_over_tailnet
  query_dns-Keeps name kind_name resolvers = bind-Keeps w _ _ (lift-Keeps w _) (λ _.
      bind-Keeps w _ _ (lift-Keeps w _) (λ _. bind-Keeps w _ _ (lift-Keeps w _) (λ _.
        bind-Keeps w _ _ (lift-Keeps w _) (λ _. bind-Keeps w _ _ (lift-Keeps w _) (λ t.
          check_route-Opens w _ _
            (λ _. bind-Opens w _ _ (exchange-Opens t _) (λ _. lift-Keeps w _)))))))

  query-Keeps : (name kind_name : Bytes) → Keeps w (query p w name kind_name)
  unfolding query
  query-Keeps name kind_name = bind-Keeps w _ _ (lift-Keeps w _) known-Keeps
    where
      known-Keeps :
          (known : Option Bytes)
          → Keeps w (elim known [
            | some packet ↦ lift (ok packet)
            | none ↦ do
              resolvers ← λ h. lift (wrap upstreams_failed (w.upstreams h name)) h
              query_dns_over_tailnet p w name kind_name resolvers
          ])
      known-Keeps (some packet) = lift-Keeps w _
      known-Keeps none =
          bind-Keeps w _ _ (lift-Keeps w _) (λ resolvers. query_dns-Keeps name kind_name resolvers)

  dial_address-Keeps :
      (network : Network) (address : Bytes) → Keeps w (dial_address p w network address)
  unfolding dial_address
  dial_address-Keeps network address h t = elim (Option-cases (w.split_host_port address)) [
    | inl q ↦ rw (dial_address, q) (lift-Keeps w (λ _. err bad_address) h t)
    | inr (parts, q) ↦ elim (Option-cases (p.parse_addr parts.0)) [
      | inl r ↦ rw (dial_address, q, r) (lift-Keeps w (λ _. err not_resolved) h t)
      | inr (ip, r) ↦
          rw (dial_address, q, r)
            (check_route-Opens w ip _ (λ _. open_connection-Opens w network address) h t)
    ]
  ]

  dial_tailnet_addresses-Keeps :
      (address : Bytes) (last : NetError) (networks : List Network)
      → Keeps w (dial_tailnet_addresses p w address last networks)
  unfolding dial_tailnet_addresses
  dial_tailnet_addresses-Keeps address last [] h t = t
  dial_tailnet_addresses-Keeps address last (network ∷ more) h t =
      elim (Bool-cases (w.cancelled h)) [
        | inl q ↦ rw q t
        | inr q ↦ rw q (elim (Result-cases (dial_address p w network address h).0) [
          | inr (conn, r) ↦ rw r (dial_address-Keeps network address h t)
          | inl (e, r) ↦ rw r (
              dial_tailnet_addresses-Keeps address e more (dial_address p w network address h).1
                (dial_address-Keeps network address h t))
        ])
      ]

  try_addresses-Fenced :
      (network : Network) (port : Bytes) (last : Option NetError) (ips : List Addr) (h : Trace)
      → Fenced w h
      → Fenced w (try_addresses p w network port last ips h).1
  unfolding try_addresses
  try_addresses-Fenced network port last [] h t = t
  try_addresses-Fenced network port last (ip ∷ more) h t = elim (Bool-cases (w.cancelled h)) [
    | inl q ↦ rw q t
    | inr q ↦
        let address = join_host_port ip.text port in
        let dialed = dial_address-Keeps network address h t in
        rw q (elim (Result-cases (dial_address p w network address h).0) [
          | inr (conn, r) ↦ rw r dialed
          | inl (e, r) ↦ rw r (
              try_addresses-Fenced network port (join_error last e) more
                (dial_address p w network address h).1 dialed)
        ])
  ]

  try_packet-Fenced :
      (kind : RecordType) (network : Network) (port : Bytes) (last : Option NetError)
      (r : Result NetError Bytes) (h : Trace)
      → Fenced w h
      → Fenced w (try_packet p w kind network port last r h).1
  try_packet-Fenced kind network port last (err e) h t = t
  try_packet-Fenced kind network port last (ok packet) h t =
      elim (Result-cases (tailnet_dns_addresses w packet kind)) [
        | inr (ips, q) ↦ rw (try_packet, q) (try_addresses-Fenced network port last ips h t)
        | inl (e, q) ↦ rw (try_packet, q) t
      ]

  try_family-Fenced :
      (host port : Bytes) (family : Bytes × (RecordType × Network)) (last : Option NetError)
      (h : Trace)
      → Fenced w h
      → Fenced w (try_family p w host port family last h).1
  unfolding try_family
  try_family-Fenced host port (kind_name, (kind, network)) last h t =
      elim (Bool-cases (w.cancelled h)) [
        | inl q ↦ rw q t
        | inr q ↦ rw q (
            try_packet-Fenced kind network port last (query p w host kind_name h).0
              (query p w host kind_name h).1 (query-Keeps host kind_name h t))
      ]

  try_families-Keeps :
      (host port : Bytes) (last : Option NetError)
      (families : List (Bytes × (RecordType × Network)))
      → Keeps w (try_families p w host port last families)
  unfolding try_families
  try_families-Keeps host port last [] h t = t
  try_families-Keeps host port last (family ∷ more) h t =
      let tried = try_family-Fenced host port family last h t in
      elim (Tried-cases (try_family p w host port family last h).0) [
        | inl (result, q) ↦ rw (try_families, q) tried
        | inr (last', q) ↦ rw (try_families, q) (try_families-Keeps host port last' more _ tried)
      ]

  dial_tailnet_resolved-Keeps : (address : Bytes) → Keeps w (dial_tailnet_resolved p w address)
  unfolding dial_tailnet_resolved
  dial_tailnet_resolved-Keeps address h t = elim (Option-cases (w.split_host_port address)) [
    | inl q ↦ rw (dial_tailnet_resolved, q) (lift-Keeps w (λ _. err bad_address) h t)
    | inr (parts, q) ↦
        rw (dial_tailnet_resolved, q)
          (elim (Bool-cases (is_some (p.parse_addr parts.0))) [
            | inl r ↦ rw r (dial_tailnet_addresses-Keeps address no_address _ h t)
            | inr r ↦ rw r (elim (Bool-cases (eqb parts.0 [])) [
              | inl s ↦ rw s (lift-Keeps w (λ _. err empty_host) h t)
              | inr s ↦ rw s (elim (Bool-cases (is_valid_port parts.1)) [
                | inl v ↦ rw v (try_families-Keeps parts.0 parts.1 none families h t)
                | inr v ↦ rw v (lift-Keeps w (λ _. err invalid_port) h t)
              ])
            ])
          ])
  ]

  -- The dialer opens a connection, for a name query or for its caller, only directly after a route
  -- check that passed, and only to an address that is a remote Tailscale route at that moment: its
  -- trace of calls is `Fenced`, whatever the resolvers, the name servers and the network answer.
  pub dial-Fenced :
      (has_node : Bool) (address : Bytes)
      → Fenced w (dial_tsnet_prefer_ipv4 p w has_node address []).1
  unfolding dial_tsnet_prefer_ipv4
  dial-Fenced true address = dial_tailnet_resolved-Keeps address [] start
  dial-Fenced false address = lift-Keeps w (λ _. err not_connected) [] start

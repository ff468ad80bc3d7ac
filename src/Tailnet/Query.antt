-- ===== src/Tailnet/Query.antt =====
-- `queryDNSOverTailnet` and `tailnetResolver.Query`. Of their results the packet is modelled, not
-- the texts that name the server, the transport and the route for diagnostics.
use womprat.Base.{
  Bytes, codes, ℕ, Bool, false, not, ◌&&◌, Option, none, some, List, [], ◌∷◌, ◌++◌, ◌==◌, ◌!=◌,
  nat_eq, bytes_eq, if◌then◌else◌, Result, ok, err,
}
use womprat.Platform.{Platform, Addr, Url}
use womprat.Text.Search.{has_prefix, trim_suffix}
use womprat.Text.Host.{hostname, port}
use womprat.CustomUrl.{is_some}
use womprat.Tailnet.Defs.{
  tcp, RecordType, AddrPort, Resolver, HttpReply, DnsMessage, World, NetError, invalid_name,
  unsupported_type, bad_request, no_upstream, nil_resolver, no_transport, bad_doh_host,
  bad_doh_port, build_failed, exchange_failed, unpack_failed, http_status, content_type, mismatch,
  local_failed, upstreams_failed, Action, record_type, same_type, addr_port_string, parse_uint_16,
  check_route, open_connection, ◌>>=◌, ◌>>◌, lift, wrap,
}

-- How the selected resolver is reached: by DNS over TCP, or by HTTP on an exit node.
pub data Transport : Type 0 where
  dns_tcp : AddrPort → Transport
  doh : AddrPort → Url → Transport

-- the port of a DoH URL, 80 if it has none
doh_target : Addr → Url → Option ℕ → Result NetError Transport
doh_target ip u none = err bad_doh_port
doh_target ip u (some n) =
    if n == 0 then err bad_doh_port else ok (doh (record { addr = ip; port = n }) u)

-- a DoH URL whose host is an address
doh_transport : Platform → Url → Result NetError Transport
unfolding doh_target parse_uint_16
doh_transport p u = elim (p.parse_addr (hostname u.host)) [
  | none ↦ err bad_doh_host
  | some ip ↦
      doh_target ip u (parse_uint_16 (if port u.host == [] then codes "80" else port u.host))
]

abbrev is_doh_url : Url → Bool
is_doh_url u = u.scheme == codes "http" && not (is_some u.user) && hostname u.host != []

-- The transport is chosen from the resolver's own address, with no name lookup.
unfoldable pub choose_transport : Platform → Resolver → Result NetError Transport
unfolding doh_transport
choose_transport p r = elim r.ip_port [
  | some target ↦ ok (dns_tcp target)
  | none ↦ elim (p.parse_url r.addr) [
    | none ↦ err no_transport
    | some u ↦ if is_doh_url u then doh_transport p u else err no_transport
  ]
]

abbrev target_of : Transport → AddrPort
target_of (dns_tcp target) = target
target_of (doh target _) = target

check_reply : HttpReply → Result NetError Bytes
check_reply reply =
    if reply.status != 200
    then err (http_status reply.status)
    else if not (has_prefix reply.content_type (codes "application/dns-message"))
    then err content_type
    else ok reply.body

-- one query over the tailnet
unfoldable pub exchange : World → Transport → Bytes → Action Bytes
unfolding check_reply
exchange w (dns_tcp target) question = do
  open_connection w tcp (addr_port_string target)
  λ h. lift (wrap exchange_failed (w.exchange_tcp h question)) h
exchange w (doh target u) question = if not (w.new_request u) then lift (err bad_request) else do
  open_connection w tcp (addr_port_string target)
  reply ← λ h. lift (wrap exchange_failed (w.exchange_http h question)) h
  lift (check_reply reply)

-- the reply must be to this query
matches_query : DnsMessage → Bytes → RecordType → Bool
matches_query m fqdn kind = m.response && m.id == 0x3210 && elim m.questions [
  | [] ↦ false
  | q ∷ more ↦ elim more [ [] ↦ q.name == fqdn && same_type q.kind kind | _ ∷ _ ↦ false ]
]

check_packet : World → Bytes → RecordType → Bytes → Result NetError Bytes
unfolding matches_query
check_packet w fqdn kind packet = elim (w.unpack packet) [
  | err e ↦ err (unpack_failed e)
  | ok m ↦ if matches_query m fqdn kind then ok packet else err mismatch
]

-- the resolver that the DNS manager selected: only the first is asked
selected : List (Option Resolver) → Result NetError Resolver
selected [] = err no_upstream
selected (none ∷ _) = err nil_resolver
selected (some r ∷ _) = ok r

abbrev named_type : Bytes → Result NetError RecordType
named_type kind_name = elim (record_type kind_name) [ none ↦ err unsupported_type | some k ↦ ok k ]

unfoldable pub query_dns_over_tailnet :
    Platform → World → Bytes → Bytes → List (Option Resolver) → Action Bytes
unfolding choose_transport exchange check_packet selected
query_dns_over_tailnet p w name kind_name resolvers = do
  let fqdn = trim_suffix name (codes ".") ++ codes "."
  lift (if w.new_name fqdn then ok tt else err invalid_name)
  kind ← lift (named_type kind_name)
  question ← lift (wrap build_failed (w.build_question fqdn kind))
  resolver ← lift (selected resolvers)
  transport ← lift (choose_transport p resolver)
  check_route w (target_of transport).addr
  packet ← exchange w transport question
  lift (check_packet w fqdn kind packet)

-- `tailnetResolver.Query`: MagicDNS names are answered from the netmap, others over the tailnet.
unfoldable pub query : Platform → World → Bytes → Bytes → Action Bytes
unfolding query_dns_over_tailnet
query p w name kind_name = do
  known ← λ h. lift (wrap local_failed (w.local_answer h name kind_name)) h
  elim known [
    | some packet ↦ lift (ok packet)
    | none ↦ do
      resolvers ← λ h. lift (wrap upstreams_failed (w.upstreams h name)) h
      query_dns_over_tailnet p w name kind_name resolvers
  ]

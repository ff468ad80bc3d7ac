-- ===== src/Tailnet/Dial.antt =====
-- `tailnetDNSAddresses`, `dialTailnetAddresses`, `dialTailnetResolved`, the method `dialAddress` of
-- the resolver, and `dialTSNetPreferIPv4` as it is built for release (`allowDirectDial` is false).
use womprat.Base.{
  Bytes, codes, ℕ, Bool, not, Option, none, some, List, [], ◌∷◌, ◌==◌, ◌!=◌, ◌&&◌, nat_eq, bytes_eq,
  if◌then◌else◌, Result, ok, err,
}
use womprat.Platform.{Platform, Addr}
use womprat.CustomUrl.{is_some}
use womprat.Tailnet.Defs.{
  Network, tcp, tcp4, tcp6, RecordType, type_a, type_aaaa, Trace, Answers, done, broken, a_record,
  aaaa_record, other_record, Parsed, World, NetError, bad_address, not_resolved, empty_host,
  invalid_port, cancelled_by_context, no_address, bad_response, bad_answers, not_connected, joined,
  Action, join_host_port, parse_uint_16, check_route, open_connection, ◌>>◌, lift,
}
use womprat.Tailnet.Query.{query}

abbrev cons_ip : Addr → Result NetError (List Addr) → Result NetError (List Addr)
cons_ip ip (ok ips) = ok (ip ∷ ips)
cons_ip ip (err e) = err e

-- the addresses of one type, and an error for a broken answer section
unfoldable pub collect : RecordType → Answers → Result NetError (List Addr)
collect kind done = ok []
collect kind (broken _) = err bad_answers
collect type_a (a_record ip more) = cons_ip ip (collect type_a more)
collect type_aaaa (a_record ip more) = collect type_aaaa more
collect type_a (aaaa_record ip more) = collect type_a more
collect type_aaaa (aaaa_record ip more) = cons_ip ip (collect type_aaaa more)
collect kind (other_record more) = collect kind more

unfoldable pub addresses_in : RecordType → Parsed → Result NetError (List Addr)
addresses_in kind reply =
    if not reply.response
    then err bad_response
    else if not reply.success
    then err bad_response
    else elim reply.skips [ err e ↦ err bad_answers | ok _ ↦ collect kind reply.answers ]

unfoldable pub tailnet_dns_addresses : World → Bytes → RecordType → Result NetError (List Addr)
unfolding addresses_in
tailnet_dns_addresses w packet kind = elim (w.parse_answers packet) [
  | err e ↦ err bad_answers
  | ok reply ↦ addresses_in kind reply
]

-- `dialAddress`: the host must be an address, and its route is checked before the dial.
unfoldable pub dial_address : Platform → World → Network → Bytes → Action ℕ
dial_address p w network address = elim (w.split_host_port address) [
  | none ↦ lift (err bad_address)
  | some parts ↦ elim (p.parse_addr parts.0) [
    | none ↦ lift (err not_resolved)
    | some ip ↦ do check_route w ip; open_connection w network address
  ]
]

-- the last error of a loop, or the one of a loop that never ran
abbrev pub join_error : Option NetError → NetError → Option NetError
join_error none e = some e
join_error (some e) e' = some (joined e e')

-- the loop over the networks of an address, which starts with no error
unfoldable pub dial_tailnet_addresses :
    Platform → World → Bytes → NetError → List Network → Action ℕ
dial_tailnet_addresses p w address last [] h = (err last, h)
dial_tailnet_addresses p w address last (network ∷ more) h =
    if w.cancelled h
    then (err cancelled_by_context, h)
    else let (r, h') = dial_address p w network address h in
      elim r [ ok conn ↦ (ok conn, h') | err e ↦ dial_tailnet_addresses p w address e more h' ]

-- The loops over the addresses and the two record types return, or leave the errors so far.
pub data Tried : Type 0 where
  settled : Result NetError ℕ → Tried
  failing : Option NetError → Tried

unfoldable pub try_addresses :
    Platform → World → Network → Bytes → Option NetError → List Addr → Trace → Tried × Trace
try_addresses p w network port last [] h = (failing last, h)
try_addresses p w network port last (ip ∷ more) h =
    if w.cancelled h
    then (settled (err cancelled_by_context), h)
    else let (r, h') = dial_address p w network (join_host_port ip.text port) h in
      elim r [
        | ok conn ↦ (settled (ok conn), h')
        | err e ↦ try_addresses p w network port (join_error last e) more h'
      ]

abbrev pub try_packet :
    Platform
    → World
    → RecordType
    → Network
    → Bytes
    → Option NetError
    → Result NetError Bytes
    → Trace
    → Tried × Trace
try_packet p w kind network port last (err e) h = (failing (join_error last e), h)
try_packet p w kind network port last (ok packet) h = elim (tailnet_dns_addresses w packet kind) [
  | err e ↦ (failing (join_error last e), h)
  | ok ips ↦ try_addresses p w network port last ips h
]

-- one record type: its query, and a dial of each address of the answer
unfoldable pub try_family :
    Platform
    → World
    → Bytes
    → Bytes
    → Bytes × (RecordType × Network)
    → Option NetError
    → Trace
    → Tried × Trace
try_family p w host port (kind_name, (kind, network)) last h =
    if w.cancelled h
    then (settled (err cancelled_by_context), h)
    else let (r, h') = query p w host kind_name h in try_packet p w kind network port last r h'

abbrev last_error : Option NetError → NetError
last_error none = no_address
last_error (some e) = e

unfoldable pub try_families :
    Platform
    → World
    → Bytes
    → Bytes
    → Option NetError
    → List (Bytes × (RecordType × Network))
    → Action ℕ
try_families p w host port last [] h = (err (last_error last), h)
try_families p w host port last (family ∷ more) h =
    let (r, h') = try_family p w host port family last h in
    elim r [
      | settled result ↦ (result, h')
      | failing last' ↦ try_families p w host port last' more h'
    ]

abbrev pub families : List (Bytes × (RecordType × Network))
families = (codes "A", (type_a, tcp4)) ∷ (codes "AAAA", (type_aaaa, tcp6)) ∷ []

abbrev pub is_valid_port : Bytes → Bool
is_valid_port port = is_some (parse_uint_16 port) && port != codes "0"

-- `dialTailnetResolved`
unfoldable pub dial_tailnet_resolved : Platform → World → Bytes → Action ℕ
dial_tailnet_resolved p w address = elim (w.split_host_port address) [
  | none ↦ lift (err bad_address)
  | some parts ↦
      if is_some (p.parse_addr parts.0)
      then dial_tailnet_addresses p w address no_address (tcp4 ∷ tcp6 ∷ tcp ∷ [])
      else if parts.0 == []
      then lift (err empty_host)
      else if not (is_valid_port parts.1)
      then lift (err invalid_port)
      else try_families p w parts.0 parts.1 none families
]

-- `dialTSNetPreferIPv4`. `has_node` tells whether `resolverForTSNet` gives a resolver; where it does
-- not, `not_connected` stands for whichever of its errors it returns, all of which end the dial.
unfoldable pub dial_tsnet_prefer_ipv4 : Platform → World → Bool → Bytes → Action ℕ
dial_tsnet_prefer_ipv4 p w has_node address =
    if has_node then dial_tailnet_resolved p w address else lift (err not_connected)

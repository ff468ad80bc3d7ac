-- ===== src/Dns/Defs.antt =====
-- `localTailnetDNSAnswer` of dns_local.go and `describeDNSPolicy` of dns_policy.go. A node that is not
-- valid is `none`; the packing of a message is not modelled.
use womprat.Base.{
  Bytes, codes, ℕ, suc, Bool, true, false, not, ◌&&◌, ◌||◌, Option, none, some, List, [], ◌∷◌, ◌++◌,
  ◌==◌, ◌!=◌, bytes_eq, nat_eq, ltb, length, if◌then◌else◌,
}
use womprat.Platform.{Platform, Addr}
use womprat.Text.Search.{contains, has_suffix, trim_suffix, split}

pub record Node : Type 0 where
  pub name : Bytes
  -- the addresses, each with the test that it is a single one
  pub addresses : List (Addr × Bool)

pub record ExtraRecord : Type 0 where
  pub name : Bytes
  pub kind : Bytes
  pub value : Bytes

pub record NetworkMap : Type 0 where
  pub nodes : List (Option Node)
  pub extra_records : List ExtraRecord

pub data DnsAnswer : Type 0 where
  no_network_map unknown_name unsupported_type bad_name : DnsAnswer
  message : Bytes → List Addr → DnsAnswer

abbrev first_label : List Bytes → Bytes
first_label [] = []
first_label (w ∷ _) = w

abbrev pub single_addresses : List (Addr × Bool) → List Addr
single_addresses [] = []
single_addresses ((ip, single) ∷ rest) =
    if single then ip ∷ single_addresses rest else single_addresses rest

-- the addresses that answer the query
unfoldable pub of_type : Bytes → List Addr → List Addr
of_type record_type [] = []
of_type record_type (ip ∷ ips) =
    let rest = of_type record_type ips in
    if record_type == codes "A" && not ip.is_6 || record_type == codes "AAAA" && ip.is_6
    then ip ∷ rest
    else rest

module _ (p : Platform) where
  abbrev pub bare_name : Bytes → Bytes
  bare_name name = p.to_lower (trim_suffix name (codes "."))

  -- the full name of the node, or its first label
  unfoldable pub names_node : Bytes → Node → Bool
  names_node clean node =
      let fqdn = bare_name node.name in
      clean == fqdn || not (contains clean (codes ".")) && clean == first_label (split b'.' fqdn)

  -- the first loop: whether a node has the name, and its addresses
  unfoldable pub node_addresses : Bytes → List (Option Node) → Bool × List Addr
  node_addresses clean [] = (false, [])
  node_addresses clean (none ∷ nodes) = node_addresses clean nodes
  node_addresses clean (some node ∷ nodes) =
      let (known, ips) = node_addresses clean nodes in
      if names_node clean node then (true, single_addresses node.addresses ++ ips) else (known, ips)

  pub names_record : Bytes → ExtraRecord → Bool
  names_record clean r =
      (r.kind == [] || r.kind == codes "A" || r.kind == codes "AAAA")
      && p.equal_fold (trim_suffix r.name (codes ".")) clean

  -- the second loop, over the extra records
  unfoldable pub record_addresses : Bytes → List ExtraRecord → Bool × List Addr
  record_addresses clean [] = (false, [])
  record_addresses clean (r ∷ records) =
      let (known, ips) = record_addresses clean records in
      if names_record clean r
      then elim (p.parse_addr r.value) [ none ↦ (known, ips) | some ip ↦ (true, ip ∷ ips) ]
      else (known, ips)

  -- `names` is `dnsmessage.NewName`: whether it makes a name.
  unfoldable pub local_tailnet_dns_answer :
      (Bytes → Bool) → Option NetworkMap → Bytes → Bytes → DnsAnswer
  local_tailnet_dns_answer names none name record_type = no_network_map
  local_tailnet_dns_answer names (some nm) name record_type =
      let clean = bare_name name in
      let (node_known, node_ips) = node_addresses clean nm.nodes in
      let (record_known, record_ips) = record_addresses clean nm.extra_records in
      if not (node_known || record_known)
      then unknown_name
      else if record_type != codes "A" && record_type != codes "AAAA"
      then unsupported_type
      else if not (names (clean ++ codes "."))
      then bad_name
      else message (clean ++ codes ".") (of_type record_type (node_ips ++ record_ips))

-- dnstype.Resolver; a nil one is `none`
pub record Resolver : Type 0 where
  pub addr : Bytes
  pub use_with_exit_node : Bool

pub data Explanation : Type 0 where
  authoritative not_eligible split_rule exit_node_dns default_resolver : Explanation

pub record DnsPolicy : Type 0 where
  pub matching_suffix : Option Bytes
  pub resolvers : List Resolver
  pub explanation : Explanation

abbrev pub DnsRoute : Type 0
DnsRoute = Bytes × List (Option Resolver)

-- the loop that drops nil resolvers
pub given : List (Option Resolver) → List Resolver
given [] = []
given (none ∷ rs) = given rs
given (some r ∷ rs) = r ∷ given rs

pub count_eligible : Bool → List Resolver → ℕ
count_eligible exit_active [] = 0
count_eligible exit_active (r ∷ rs) =
    let rest = count_eligible exit_active rs in
    if not exit_active || r.use_with_exit_node then suc rest else rest

module _ (p : Platform) where
  abbrev pub key_of : Bytes → Bytes
  key_of suffix = p.to_lower (trim_suffix suffix (codes "."))

  pub matches_suffix : Bytes → Bytes → Bool
  matches_suffix name suffix =
      let key = key_of suffix in key == [] || name == key || has_suffix name (codes "." ++ key)

  abbrev is_longer : Bytes → Option DnsRoute → Bool
  is_longer suffix none = true
  is_longer suffix (some (best, _)) =
      ltb (length (trim_suffix best (codes "."))) (length (key_of suffix))

  -- the loop over the routes, in the order in which the map gives them
  unfoldable pub best_route : Bytes → List DnsRoute → Option DnsRoute → Option DnsRoute
  best_route name [] best = best
  best_route name ((suffix, resolvers) ∷ routes) best =
      if matches_suffix name suffix && is_longer suffix best
      then best_route name routes (some (suffix, resolvers))
      else best_route name routes best

  abbrev is_empty : List (Option Resolver) → Bool
  is_empty [] = true
  is_empty (_ ∷ _) = false

  pub describe_dns_policy : List DnsRoute → List (Option Resolver) → Bytes → Bool → DnsPolicy
  describe_dns_policy routes defaults name exit_active =
      elim (best_route (key_of name) routes none) [
        | some (suffix, resolvers) ↦ record {
          matching_suffix = some suffix;
          resolvers = given resolvers;
          explanation =
              if is_empty resolvers
              then authoritative
              else if exit_active && count_eligible exit_active (given resolvers) == 0
              then not_eligible
              else split_rule;
        }
        | none ↦ record {
          matching_suffix = none;
          resolvers = given defaults;
          explanation =
              if exit_active && count_eligible exit_active (given defaults) == 0
              then exit_node_dns
              else default_resolver;
        }
      ]

-- ===== src/Examples/Dials.antt =====
-- A connection by name, over an embedded node with one peer and one DNS server.
use womprat.Base.{
  codes, true, false, none, some, [], ◌∷◌, ◌==◌, bytes_eq, if◌then◌else◌, ok, err, ◌≡◌, refl, eqb,
}
use womprat.Examples.Toy.{toy, peer}
use womprat.Tailnet.{
  World, AddrPort, type_a, done, a_record, dial_tsnet_prefer_ipv4, dial_tailnet_resolved,
  parse_uint_16, try_families, try_family, query, query_dns_over_tailnet, choose_transport,
  exchange, ◌>>=◌, lift, record_type, check_route, is_routable, open_connection, stack_connect,
  tailnet_dns_addresses, addresses_in, collect, try_addresses, dial_address, addr_port_string,
  join_host_port,
}
use womprat.Text.Search.{trim_suffix, has_suffix, contains, has_prefix}
use womprat.Text.Decimal.{decimal, digits_onto, digits_value}
use womprat.Tailnet.Fenced.{Fenced}
use womprat.Tailnet.Dialed.{dial-Fenced}

abbrev dns_port : AddrPort
dns_port = record { addr = peer; port = 53 }

abbrev world : World
world = record {
  cancelled = λ _. false;
  local_answer = λ _ _ _. ok none;
  upstreams = λ _ _. ok (some (record { addr = codes "100.64.0.2"; ip_port = some dns_port }) ∷ []);
  self_4 = λ _. some (record peer { text = codes "100.64.0.1" });
  self_6 = λ _. none;
  uses_netstack = λ _ _. true;
  stack_dial = λ _ _ _. ok 7;
  new_name = λ _. true;
  build_question = λ name _. ok name;
  unpack = λ _. ok (record {
    response = true;
    id = 0x3210;
    questions = record { name = codes "host."; kind = type_a } ∷ [];
  });
  parse_answers = λ _.
      ok (record { response = true; success = true; skips = ok tt; answers = a_record peer done });
  new_request = λ _. true;
  exchange_tcp = λ _ question. ok question;
  exchange_http = λ _ _. err 0;
  parse_addr_port = λ address.
      some (record dns_port { port = if address == codes "100.64.0.2:22" then 22 else 53 });
  split_host_port = λ address.
      if address == codes "host:22"
      then some ((codes "host"), codes "22")
      else some ((codes "100.64.0.2"), codes "22");
}

dial-Fenced_example : Fenced world (dial_tsnet_prefer_ipv4 toy world true (codes "host:22") []).1
dial-Fenced_example = dial-Fenced toy world true (codes "host:22")

-- The name is asked for over TCP, and its address dialled.
connects : (dial_tsnet_prefer_ipv4 toy world true (codes "host:22") []).0 ≡ ok 7
connects =
    unfold dial_tsnet_prefer_ipv4 dial_tailnet_resolved eqb parse_uint_16 try_families try_family
      query query_dns_over_tailnet choose_transport exchange ◌>>=◌ lift record_type check_route
      is_routable open_connection stack_connect trim_suffix has_suffix tailnet_dns_addresses
      addresses_in collect try_addresses dial_address addr_port_string join_host_port contains
      has_prefix decimal digits_onto digits_value in
    refl

-- ===== src/Examples/Names.antt =====
-- Remote desktops, and names of the tailnet.
use womprat.Base.{codes, pos, true, none, some, List, [], ◌∷◌, ◌++◌, ◌≡◌, refl, eqb, All}
use womprat.Examples.Toy.{toy, peer}
use womprat.Text.Search.{contains, has_prefix, has_suffix, trim_suffix, split}
use womprat.Text.Space.{trim_space}
use womprat.Examples.Toy.{ssh_url}
use womprat.Platform.{Platform}
use womprat.CustomUrl.{
  CustomUrlTarget, parse_custom_url, custom_scheme_default_port, choose_port,
  validate_custom_url_host, validate_custom_url_user, check_port, is_label,
}
use womprat.Text.Host.{hostname, port}
use womprat.Text.Search.{contains_any}
use womprat.Text.Decimal.{atoi}
use womprat.Desktop.{
  RdpCredentials, RdpQuery, RdpOptions, parse_desktop_url, parse_rdp_url, rdp_options,
  rdp_credentials, handle_rdp_web_socket, desktop_target, rdp_credential_host_matches,
}
use womprat.Desktop.Accepted.{IsAccepted, handle_rdp_web_socket-IsAccepted}
use womprat.Dns.{
  Node, NetworkMap, bare_name, local_tailnet_dns_answer, node_addresses, names_node,
  record_addresses, of_type, DnsRoute,
}
use womprat.Dns.Answered.{IsKnown, IsTyped, local_tailnet_dns_answer-IsKnown}

abbrev node : Node
node = record { name = codes "box.net."; addresses = (peer, true) ∷ [] }

abbrev network : NetworkMap
network = record { nodes = none ∷ some node ∷ []; extra_records = [] }

local_tailnet_dns_answer-IsKnown_example :
    (codes "box." ≡ bare_name toy (codes "box") ++ codes ".")
    × All
        (λ ip. (IsKnown toy network (bare_name toy (codes "box")) ip) × (IsTyped (codes "A") ip))
        (peer ∷ [])
local_tailnet_dns_answer-IsKnown_example =
    local_tailnet_dns_answer-IsKnown toy (λ _. true) network (codes "box") (codes "A")
      (codes "box.") (peer ∷ [])
      (unfold local_tailnet_dns_answer node_addresses names_node record_addresses of_type
          trim_suffix has_suffix contains has_prefix split eqb in
        refl)

abbrev routes : List DnsRoute
routes = (codes "net.", []) ∷ (codes "a.net.", []) ∷ []

abbrev desktops : Platform
desktops = record toy { parse_url = λ _. some (record ssh_url { scheme = codes "rdp" }) }

abbrev rdp_query : RdpQuery
rdp_query = record {
  target = codes "server:2222";
  width = codes "99999";
  height = [];
  color_depth = codes "7";
  audio = [];
  disable_nla = [];
  rfx = [];
  compat = [];
  display_control = [];
}

abbrev target : CustomUrlTarget
target = record {
  scheme = codes "rdp";
  host = codes "server";
  port = pos 2222;
  user = codes "root";
}

abbrev credentials : RdpCredentials
credentials = record { kind = codes "credentials"; host = []; user = []; password = codes "pw" }

abbrev options : RdpOptions
options = rdp_options desktops rdp_query target (codes "root") (codes "pw")

handle_rdp_web_socket-IsAccepted_example :
    (t : CustomUrlTarget) × (c : RdpCredentials) × (parse_rdp_url desktops rdp_query.target
      ≡ some t)
    × (true ≡ true)
    × (some credentials ≡ some c)
    × (IsAccepted desktops t c options)
handle_rdp_web_socket-IsAccepted_example =
    handle_rdp_web_socket-IsAccepted desktops rdp_query true 9 (some credentials) options (
      unfold handle_rdp_web_socket desktop_target rdp_credentials rdp_credential_host_matches
        parse_rdp_url parse_desktop_url parse_custom_url eqb trim_space contains has_prefix
        custom_scheme_default_port validate_custom_url_host hostname contains_any split is_label
        has_suffix choose_port port check_port atoi validate_custom_url_user in
      refl)

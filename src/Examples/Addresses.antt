-- ===== src/Examples/Addresses.antt =====
-- Addresses on concrete inputs.
use womprat.Base.{codes, pos, refl, eqb}
use womprat.Examples.Toy.{toy}
use womprat.Text.Search.{split, contains, contains_any, has_prefix, has_suffix}
use womprat.Text.Host.{hostname, port}
use womprat.Text.Space.{trim_space}
use womprat.Text.Decimal.{atoi}
use womprat.CustomUrl.{
  CustomUrlTarget, parse_custom_url, validate_custom_url_host, validate_custom_url_user,
  custom_scheme_default_port, choose_port, check_port, is_label,
}
use womprat.CustomUrl.Valid.{
  IsHost, IsTarget, validate_custom_url_host-IsHost, parse_custom_url-IsTarget,
}

validate_custom_url_host-IsHost_example : IsHost toy (codes "a-1.b")
validate_custom_url_host-IsHost_example =
    validate_custom_url_host-IsHost toy (codes "a-1.b") (
      unfold validate_custom_url_host contains_any has_prefix has_suffix is_label split eqb in refl)

abbrev target : CustomUrlTarget
target = record {
  scheme = codes "ssh";
  host = codes "server";
  port = pos 2222;
  user = codes "root";
}

parse_custom_url-IsTarget_example : IsTarget toy target
parse_custom_url-IsTarget_example =
    parse_custom_url-IsTarget toy (λ s. refl) (codes "ssh://root@server:2222")
      (unfold parse_custom_url eqb trim_space contains custom_scheme_default_port
          validate_custom_url_host hostname contains_any split is_label has_suffix choose_port port
          check_port atoi validate_custom_url_user in
        refl)

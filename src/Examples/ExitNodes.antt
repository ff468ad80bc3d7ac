-- ===== src/Examples/ExitNodes.antt =====
-- An exit node that is chosen, taken and found offline.
use womprat.Base.{codes, true, false, none, some, List, [], ◌∷◌, refl, ok, eqb, arith, Option}
use womprat.Examples.Toy.{toy}
use womprat.Text.Search.{trim_suffix, has_suffix}
use womprat.ExitNode.{
  Peer, Status, Prefs, Client, exit_node_preference, select, is_named, check_peer,
  apply_and_verify_exit_node,
}
use womprat.ExitNode.Selected.{Selects, exit_node_preference-Selects}
use womprat.ExitNode.Rollback.{Outcome, apply_and_verify-Outcome}

abbrev peers : List (Option Peer)
peers =
    some (record {
      host_name = codes "gate";
      dns_name = codes "gate.ts.";
      id = codes "n1";
      exit_node_option = true;
    })
    ∷ none
    ∷ []

abbrev status : Status
status = record {
  peers = peers;
  exit_node_status = some (record { id = codes "n1"; online = false });
}

abbrev change : Prefs
change = record {
  route_all = true;
  exit_node_id = codes "n1";
  exit_node_ip = none;
  auto_exit_node = [];
}

abbrev client : Client
client = record {
  status = λ _. ok (some status);
  get_prefs = λ _. ok (some change);
  takes = λ _ _. true;
}

exit_node_preference-Selects_example : Selects toy (codes "gate") peers change
exit_node_preference-Selects_example =
    exit_node_preference-Selects toy (codes "gate") status (λ e. ground arith)
      (unfold exit_node_preference select is_named check_peer trim_suffix has_suffix eqb in refl)

apply_and_verify-Outcome_example :
    Outcome client toy
      (codes "gate")
      []
      (apply_and_verify_exit_node client toy 3 (codes "gate") []).0
      (apply_and_verify_exit_node client toy 3 (codes "gate") []).1
apply_and_verify-Outcome_example = apply_and_verify-Outcome client toy (codes "gate") [] 3

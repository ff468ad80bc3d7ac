-- ===== src/ExitNode/Choice.antt =====
-- `exitNodePreference` and `effectiveExitNode`.
use womprat.Base.{
  Bytes, codes, Bool, true, false, not, ◌||◌, Option, none, some, List, [], ◌∷◌, ◌==◌, ◌!=◌,
  bytes_eq, if◌then◌else◌, Result, ok, err,
}
use womprat.Platform.{Platform}
use womprat.Text.Search.{trim_suffix}
use womprat.CustomUrl.{is_some}

-- ipnstate.PeerStatus
pub record Peer : Type 0 where
  pub host_name : Bytes
  pub dns_name : Bytes
  pub id : Bytes
  pub exit_node_option : Bool

-- ipnstate.ExitNodeStatus
pub record ExitStatus : Type 0 where
  pub id : Bytes
  pub online : Bool

-- ipnstate.Status; the peers stand in the order in which the loop over the map meets them
pub record Status : Type 0 where
  pub peers : List (Option Peer)
  pub exit_node_status : Option ExitStatus

-- the preferences of ipn.Prefs that a change sets, all four of them; no address is an invalid one
pub record Prefs : Type 0 where
  pub route_all : Bool
  pub exit_node_id : Bytes
  pub exit_node_ip : Option Bytes
  pub auto_exit_node : Bytes

pub data ExitError : Type 0 where
  no_status ambiguous not_found not_advertised no_stable_id : ExitError
  no_prefs not_cleared not_selected not_active offline : ExitError
  read_failed edit_failed timed_out : ExitError
  with_rollback : ExitError → ExitError

module _ (p : Platform) where
  abbrev folded : Bytes → Bytes
  folded name = trim_suffix (p.to_lower name) (codes ".")

  -- The name is the peer's, in any case and with or without a final dot, or its stable id.
  unfoldable pub is_named : Bytes → Peer → Bool
  is_named name peer =
      folded name == folded peer.host_name || folded name == folded peer.dns_name || name == peer.id

  abbrev pub differs : Option Peer → Peer → Bool
  differs none peer = false
  differs (some selected) peer = selected.id != peer.id

  -- the loop over the peers
  unfoldable pub select : Bytes → Option Peer → List (Option Peer) → Result ExitError (Option Peer)
  select name selected [] = ok selected
  select name selected (none ∷ peers) = select name selected peers
  select name selected (some peer ∷ peers) =
      let skip = select name selected peers in
      let take = select name (some peer) peers in
      if not (is_named name peer)
      then skip
      else if differs selected peer
      then err ambiguous
      else take

  -- the checks of the selected peer, and the change that selects it
  unfoldable pub check_peer : Result ExitError (Option Peer) → Result ExitError Prefs
  check_peer (err e) = err e
  check_peer (ok none) = err not_found
  check_peer (ok (some peer)) =
      if not peer.exit_node_option
      then err not_advertised
      else if peer.id == []
      then err no_stable_id
      else ok (record {
        route_all = true;
        exit_node_id = peer.id;
        exit_node_ip = none;
        auto_exit_node = [];
      })

  unfoldable pub exit_node_preference : Option Status → Bytes → Result ExitError Prefs
  exit_node_preference status name =
      if name == []
      then ok (record {
        route_all = false;
        exit_node_id = [];
        exit_node_ip = none;
        auto_exit_node = [];
      })
      else elim status [ none ↦ err no_status | some st ↦ check_peer (select name none st.peers) ]

abbrev check_exit_status : Option ExitStatus → Bytes → Result ExitError (Unit {0})
check_exit_status none wanted = err not_active
check_exit_status (some st) wanted =
    if st.id != wanted then err not_active else if not st.online then err offline else ok tt

abbrev check_status : Option Status → Bytes → Result ExitError (Unit {0})
check_status none wanted = err not_active
check_status (some st) wanted = check_exit_status st.exit_node_status wanted

pub effective_exit_node : Option Prefs → Option Status → Bytes → Result ExitError (Unit {0})
effective_exit_node none status wanted = err no_prefs
effective_exit_node (some prefs) status wanted =
    if wanted == []
    then (if prefs.exit_node_id != [] || is_some prefs.exit_node_ip || prefs.auto_exit_node != []
        then err not_cleared
        else ok tt)
    else if not prefs.route_all || prefs.exit_node_id != wanted || prefs.auto_exit_node != []
    then err not_selected
    else check_status status wanted

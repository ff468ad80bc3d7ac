-- ===== src/ExitNode/Selected.antt =====
-- The peer that a name selects.
use womprat.Base.{
  Bytes, true, false, Option, none, some, List, [], ◌∷◌, ◌≡◌, ◌≢◌, refl, ◌⊎◌, inl, inr, arith,
  eqb_iff, Result, ok, err, Elem, here, there, sym, ap, All, Bool-cases, bytes_eq,
}
use womprat.Platform.{Platform}
use womprat.ExitNode.Choice.{
  ExitError, Peer, Status, Prefs, is_named, differs, select, check_peer, exit_node_preference,
}

module _ (p : Platform) (name : Bytes) where
  -- A peer with this name has this id.
  abbrev pub Agrees : Bytes → Option Peer → Type 0
  Agrees id none = Unit
  Agrees id (some peer) = (is_named p name peer ≡ false) ⊎ (peer.id ≡ id)

  abbrev pub Known : Option Peer → Bytes → Type 0
  Known none id = Unit
  Known (some selected) id = selected.id ≡ id

  select-Agrees :
      (selected : Option Peer) (peers : List (Option Peer)) {peer : Peer}
      → select p name selected peers ≡ ok (some peer)
      → All (Agrees peer.id) peers × Known selected peer.id
  unfolding select
  select-Agrees none [] {peer} h = (tt, tt)
  select-Agrees (some selected) [] {peer} h = (tt, ground arith)
  select-Agrees selected (none ∷ peers) {peer} h =
      let (agree, known) = select-Agrees selected peers {peer = peer} h in ((tt, agree), known)
  select-Agrees selected (some q ∷ peers) {peer} h = elim (Bool-cases (is_named p name q)) [
    | inr other ↦
        let (agree, known) = select-Agrees selected peers {peer = peer} (rw other at h) in
        ((inl other, agree), known)
    | inl named ↦ elim (Bool-cases (differs p selected q)) [
      | inl apart ↦ absurd (ground (arith, h, named, apart))
      | inr close ↦
          let (agree, known) =
            select-Agrees (some q) peers {peer = peer} (rw (named, close) at h) in
          ((inr known, agree), close-Known selected q close known)
    ]
  ]
    where
      close-Known :
          (selected : Option Peer) (q : Peer) {id : Bytes}
          → differs p selected q ≡ false
          → q.id ≡ id
          → Known selected id
      close-Known none q c k = tt
      close-Known (some s) q c k = ground (arith, eqb_iff s.id q.id)

  select-found :
      (selected : Option Peer) (peers : List (Option Peer)) {peer : Peer}
      → select p name selected peers ≡ ok (some peer)
      → (selected ≡ some peer) ⊎ (Elem (some peer) peers × (is_named p name peer ≡ true))
  unfolding select
  select-found selected [] {peer} h = inl (ground arith)
  select-found selected (none ∷ peers) {peer} h =
      elim (select-found selected peers {peer = peer} h) [
        | inl same ↦ inl same
        | inr (e, named) ↦ inr (there e, named)
      ]
  select-found selected (some q ∷ peers) {peer} h = elim (Bool-cases (is_named p name q)) [
    | inr other ↦ elim (select-found selected peers {peer = peer} (rw other at h)) [
      | inl same ↦ inl same
      | inr (e, named) ↦ inr (there e, named)
    ]
    | inl named ↦ elim (Bool-cases (differs p selected q)) [
      | inl apart ↦ absurd (ground (arith, h, named, apart))
      | inr close ↦ elim (select-found (some q) peers {peer = peer} (rw (named, close) at h)) [
        | inl same ↦
            let it : q ≡ peer = ground arith in inr (here (ap some (sym it)), rw it at named)
        | inr (e, n) ↦ inr (there e, n)
      ]
    ]
  ]

  -- What a change stands for: a peer of the list with this name, which offers itself as an exit node.
  pub record Selects (peers : List (Option Peer)) (change : Prefs) : Type 0 where
    pub peer : Peer
    pub listed : Elem (some peer) peers
    pub named : is_named p name peer ≡ true
    pub offered : peer.exit_node_option ≡ true
    pub chosen : change.exit_node_id ≡ peer.id
    pub stable : peer.id ≢ []
    pub unambiguous : All (Agrees peer.id) peers
    pub routed : change.route_all ≡ true

  check_peer-eq-ok :
      (r : Result ExitError (Option Peer)) {change : Prefs}
      → check_peer p r ≡ ok change
      → (peer : Peer) × (r ≡ ok (some peer))
        × (peer.exit_node_option ≡ true)
        × (peer.id ≢ [])
        × (change.exit_node_id ≡ peer.id)
        × (change.route_all ≡ true)
  unfolding check_peer
  check_peer-eq-ok (err e) {change} h = absurd (ground arith)
  check_peer-eq-ok (ok none) {change} h = absurd (ground arith)
  check_peer-eq-ok (ok (some peer)) {change} h =
      (peer, refl, ground arith, ground (arith, eqb_iff peer.id []), ground arith, ground arith)

  -- A change for a name that is not empty selects a peer of the list that has the name and offers
  -- itself as an exit node, by its stable id, and every peer that has the name has this id; the
  -- peers may come in any order.
  pub exit_node_preference-Selects :
      (status : Status) {change : Prefs}
      → name ≢ []
      → exit_node_preference p (some status) name ≡ ok change
      → Selects status.peers change
  unfolding exit_node_preference
  exit_node_preference-Selects status {change} ne h =
      let checked : check_peer p (select p name none status.peers) ≡ ok change =
        ground (arith, h, eqb_iff name []) in
      let (peer, found, offered, stable, chosen, routed) =
        check_peer-eq-ok (select p name none status.peers) checked in
      elim (select-found none status.peers found) [
        | inl impossible ↦ absurd (ground arith)
        | inr (listed, named) ↦ record {
          peer = peer;
          listed = listed;
          named = named;
          offered = offered;
          chosen = chosen;
          stable = stable;
          unambiguous = (select-Agrees none status.peers found).0;
          routed = routed;
        }
      ]
